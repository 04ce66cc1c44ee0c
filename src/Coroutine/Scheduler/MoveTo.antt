-- ===== src/Coroutine/Scheduler/MoveTo.antt =====
-- A move takes the coroutine from the list of its status to the end of another.
use horse_rpc.Base.{
  ℕ, ◌≤◌, ◌≡◌, sym, ap, subst, ◌∙◌, true, false, ◌||◌, List, [], ◌∷◌, ◌++◌, ◌==◌, if◌then◌else◌,
  Bool-cases, inl, inr, arith,
}
use horse_rpc.Coroutine.Links.{move_tail}
use horse_rpc.Coroutine.Links.Rings.{has, has-append, Ring}
use horse_rpc.Coroutine.Links.Removals.{Disjoint}
use horse_rpc.Coroutine.Links.Moves.{move_tail-Ring, move_tail-other, not-has-remove}
use horse_rpc.Coroutine.Scheduler.{CoroStatus, index, head, Scheduler, move_to}
use horse_rpc.Coroutine.Scheduler.Lists.{same, same→eq, same_self, IsListed, apart, moved}

module _ {σ : Scheduler} {ls : CoroStatus → List ℕ} (v : IsListed σ ls) (c : ℕ) (to : CoroStatus)
    (front back : List ℕ) (there : ls (σ.status c) ≡ front ++ c ∷ back)
    (other : same to (σ.status c) ≡ false) where
  from : CoroStatus
  from = σ.status c

  after : CoroStatus → List ℕ
  after = moved ls c from (front ++ back) to

  from-Ring : Ring σ.links (head from) (front ++ c ∷ back)
  unfolding from
  from-Ring = subst (Ring σ.links (head from)) there (v.rings from)

  from_apart :
      (t : CoroStatus)
      → same t from ≡ false
      → Disjoint (head t ∷ ls t) (head from ∷ (front ++ c ∷ back))
  unfolding from
  from_apart t ne =
      subst (λ xs. Disjoint (head t ∷ ls t) (head from ∷ xs)) there (apart v t from ne)

  after-rings : (t : CoroStatus) → Ring (move_tail c (head to) σ.links) (head t) (after t)
  unfolding after from
  after-rings t =
      let (from', to') =
        move_tail-Ring σ.links c (head from) front back (head to) (ls to) from-Ring (v.rings to)
          (from_apart to other) in
      elim (Bool-cases (same t to)) [
        | inl e ↦ rw e (
            subst (λ u. Ring (move_tail c (head to) σ.links) (head u) (ls to ++ c ∷ []))
              (sym (same→eq t to e)) to')
        | inr e ↦ rw e (elim (Bool-cases (same t from)) [
          | inl f ↦ rw f (
              subst (λ u. Ring (move_tail c (head to) σ.links) (head u) (front ++ back))
                (sym (same→eq t from f)) from')
          | inr f ↦ rw f (
              move_tail-other σ.links c (head from) front back (head to) (ls to) from-Ring
                (v.rings to) (from_apart to other) (head t) (ls t) (v.rings t) (from_apart t f)
                (apart v t to e))
        ])
      ]

  c-Distinct : has c (front ++ back) ≡ false
  c-Distinct = not-has-remove c front back from-Ring.distinct.1

  has-from : (p : ℕ) → has p (ls (σ.status c)) ≡ (has p front || (p == c || has p back))
  has-from p = ap (has p) there ∙ has-append p front (c ∷ back)

  -- A coroutine is in the list that it was in, but for `c`.
  has-after :
      (t : CoroStatus) (p : ℕ) → has p (after t) ≡ (if p == c then same t to else has p (ls t))
  unfolding after from
  has-after t p = elim (Bool-cases (same t to)) [
    | inl e ↦
        rw e
          (ground (arith, ap (λ u. has p (ls u)) (same→eq t to e), has-append p (ls to) (c ∷ [])))
    | inr e ↦ rw e (elim (Bool-cases (same t from)) [
      | inl f ↦ rw f (
          ground (
            arith,
            ap (λ u. has p (ls u)) (same→eq t from f),
            has-from p,
            c-Distinct,
            has-append p front back,
          ))
      | inr f ↦ rw f (
          ground (
            arith,
            λ (h : has p (ls t) ≡ true). ap index (v.statuses t p h),
            λ (h : p ≡ c). ap (λ q. index (σ.status q)) h,
          ))
    ])
  ]

  c-member : has c (ls (σ.status c)) ≡ true
  c-member = has-from c ∙ ground arith

  after-statuses :
      (t : CoroStatus) (p : ℕ) → has p (after t) ≡ true → (if p == c then to else σ.status p) ≡ t
  after-statuses t p h = elim (Bool-cases (p == c)) [
    | inl e ↦ rw e (sym (same→eq t to (ground (arith, has-after t p))))
    | inr e ↦ rw e (v.statuses t p (ground (arith, has-after t p)))
  ]

  after-known : (t : CoroStatus) (p : ℕ) → has p (after t) ≡ true → (1 ≤ p) × (p ≤ σ.uniq_id)
  after-known t p h = ground (arith, has-after t p, v.known t p, v.known (σ.status c) c c-member)

  after_complete :
      (p : ℕ) → 1 ≤ p → p ≤ σ.uniq_id → has p (after (if p == c then to else σ.status p)) ≡ true
  after_complete p lo hi = elim (Bool-cases (p == c)) [
    | inl e ↦ rw e (has-after to p ∙ rw e (same_self to))
    | inr e ↦ rw e (has-after (σ.status p) p ∙ rw e (v.complete p lo hi))
  ]

  pub move_to-IsListed : IsListed (move_to to c σ) (moved ls c (σ.status c) (front ++ back) to)
  unfolding move_to from after move_tail
  move_to-IsListed = record {
    rings = after-rings;
    statuses = after-statuses;
    known = after-known;
    complete = after_complete;
    bound = v.bound;
  }
