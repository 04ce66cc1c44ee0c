-- ===== src/Coroutine/Scheduler/Growth.antt =====
-- New coroutines at the end of the free list: init and increaseCoroPoolSize.
use horse_rpc.Base.{
  ℕ, ◌+◌, ◌^◌, ◌≤◌, ◌<◌, ◌≡◌, refl, sym, ap, subst, ◌∙◌, true, false, List, [], ◌∷◌, ◌++◌, ◌==◌,
  if◌then◌else◌, Bool-cases, inl, inr, arith, zero, suc, length-append, All,
}
use horse_rpc.Coroutine.Links.{head_init, add_tail}
use horse_rpc.Coroutine.Links.Rings.{has, has-append, Ring, add_tail-Ring}
use horse_rpc.Coroutine.Links.Removals.{add_tail-other}
use horse_rpc.Coroutine.Scheduler.{
  CoroStatus, free, active, avail, inactive, timeout, head, Scheduler, generate_id, new_coroutine,
  new_coroutines, empty_links,
}
use horse_rpc.Coroutine.Scheduler.Moves.{IsConsistent}
use horse_rpc.Coroutine.Scheduler.Lists.{same, same→eq, same_self, IsListed, apart}

-- A new coroutine at the end of the free list.
module _ {σ : Scheduler} {ls : CoroStatus → List ℕ} (v : IsListed σ ls)
    (room : σ.uniq_id + 1 < 2 ^ 32) where
  with_new : CoroStatus → List ℕ
  with_new t = if same t free then ls free ++ (σ.uniq_id + 1) ∷ [] else ls t

  not_there : (t : CoroStatus) → has (σ.uniq_id + 1) (head t ∷ ls t) ≡ false
  not_there t = ground (arith, v.known t (σ.uniq_id + 1))

  with_new-rings :
      (t : CoroStatus) → Ring (add_tail (σ.uniq_id + 1) (head free) σ.links) (head t) (with_new t)
  unfolding with_new
  with_new-rings t = elim (Bool-cases (same t free)) [
    | inl e ↦ rw e (
        subst
          (λ u.
            Ring (add_tail (σ.uniq_id + 1) (head free) σ.links) (head u)
              (ls free ++ (σ.uniq_id + 1) ∷ []))
          (sym (same→eq t free e))
          (add_tail-Ring σ.links (σ.uniq_id + 1) (head free) (ls free) (v.rings free)
            (not_there free)))
    | inr e ↦ rw e (
        add_tail-other σ.links (σ.uniq_id + 1) (head free) (ls free) (head t) (ls t) (v.rings free)
          (v.rings t) (apart v t free e) (not_there t))
  ]

  has-with_new :
      (t : CoroStatus) (p : ℕ)
      → has p (with_new t) ≡ (if p == σ.uniq_id + 1 then same t free else has p (ls t))
  unfolding with_new
  has-with_new t p = elim (Bool-cases (same t free)) [
    | inl e ↦ rw e (
        ground (
          arith,
          ap (λ u. has p (ls u)) (same→eq t free e),
          has-append p (ls free) ((σ.uniq_id + 1) ∷ []),
        ))
    | inr e ↦ rw e (ground (arith, v.known t p))
  ]

  with_new-statuses :
      (t : CoroStatus) (p : ℕ)
      → has p (with_new t) ≡ true
      → (if p == σ.uniq_id + 1 then free else σ.status p) ≡ t
  with_new-statuses t p h = elim (Bool-cases (p == σ.uniq_id + 1)) [
    | inl e ↦ rw e (sym (same→eq t free (ground (arith, has-with_new t p))))
    | inr e ↦ rw e (v.statuses t p (ground (arith, has-with_new t p)))
  ]

  with_new_complete :
      (p : ℕ)
      → 1 ≤ p
      → p ≤ σ.uniq_id + 1
      → has p (with_new (if p == σ.uniq_id + 1 then free else σ.status p)) ≡ true
  with_new_complete p lo hi = elim (Bool-cases (p == σ.uniq_id + 1)) [
    | inl e ↦ rw e (has-with_new free p ∙ rw e (same_self free))
    | inr e ↦ rw e (has-with_new (σ.status p) p ∙ rw e (v.complete p lo (ground (arith))))
  ]

  next_id : generate_id σ.uniq_id ≡ σ.uniq_id + 1
  unfolding generate_id
  next_id = ground arith

  pub new_coroutine-IsListed :
      IsListed
        (new_coroutine σ)
        (λ t. if same t free then ls free ++ (σ.uniq_id + 1) ∷ [] else ls t)
  unfolding new_coroutine with_new
  new_coroutine-IsListed = rw next_id (record {
    rings = with_new-rings;
    statuses = with_new-statuses;
    known = λ t p h. ground (arith, has-with_new t p, v.known t p);
    complete = with_new_complete;
    bound = room;
  })

All-widen :
    {A : Type 0} (f : A → ℕ) (m n : ℕ) (xs : List A)
    → m ≤ n
    → All (λ x. (1 ≤ f x) × (f x ≤ m)) xs
    → All (λ x. (1 ≤ f x) × (f x ≤ n)) xs
All-widen f m n [] h a = tt
All-widen f m n (x ∷ xs) h a = ((a.0.0, omega (arith, h, a.0.1)), All-widen f m n xs h a.1)

pub record Grown (σ τ : Scheduler) (n : ℕ) : Type 0 where
  pub consistent : IsConsistent τ
  pub uniq_id : τ.uniq_id ≡ σ.uniq_id + n
  pub current_size : τ.current_size ≡ σ.current_size
  pub pool_size : τ.pool_size ≡ σ.pool_size
  pub used_size : τ.used_size ≡ σ.used_size
  pub current : τ.current ≡ σ.current
  pub kept : (c : ℕ) → c ≤ σ.uniq_id → τ.status c ≡ σ.status c

new_coroutine-Grown :
    (σ : Scheduler) → IsConsistent σ → σ.uniq_id < σ.pool_size → Grown σ (new_coroutine σ) 1
unfolding new_coroutine
new_coroutine-Grown σ v h =
    let room : σ.uniq_id + 1 < 2 ^ 32 = omega (arith, v.pool, h) in
    let i = next_id v.listed room in
    record {
      consistent = record {
        lists = λ t. if same t free then v.lists free ++ (σ.uniq_id + 1) ∷ [] else v.lists t;
        listed = new_coroutine-IsListed v.listed room;
        within = rw i (omega (arith, h));
        pool = v.pool;
        used = rw i (omega (arith, v.used, length-append (v.lists free) ((σ.uniq_id + 1) ∷ [])));
        busy = v.busy;
        queue = rw i (
            All-widen (λ c. c) σ.uniq_id (σ.uniq_id + 1) σ.active_coro_queue (omega arith) v.queue);
        need = rw i (
            All-widen (λ c. c) σ.uniq_id (σ.uniq_id + 1) σ.need_active_coro_id (omega arith)
              v.need);
        timeouts = rw i (
            All-widen (λ p. p.1) σ.uniq_id (σ.uniq_id + 1) σ.timeout_coro_id (omega arith)
              v.timeouts);
      };
      uniq_id = i;
      current_size = refl;
      pool_size = refl;
      used_size = refl;
      current = refl;
      kept = λ c le. ground (arith, i);
    }

Grown-trans : {σ τ υ : Scheduler} {m n : ℕ} → Grown σ τ m → Grown τ υ n → Grown σ υ (m + n)
Grown-trans g h = record {
  consistent = h.consistent;
  uniq_id = omega (arith, g.uniq_id, h.uniq_id);
  current_size = h.current_size ∙ g.current_size;
  pool_size = h.pool_size ∙ g.pool_size;
  used_size = h.used_size ∙ g.used_size;
  current = h.current ∙ g.current;
  kept = λ c le. h.kept c (omega (arith, le, g.uniq_id)) ∙ g.kept c le;
}

-- The loops of init and increaseCoroPoolSize.
pub new_coroutines-Grown :
    (n : ℕ) (σ : Scheduler)
    → IsConsistent σ
    → σ.uniq_id + n ≤ σ.pool_size
    → Grown σ (new_coroutines n σ) n
unfolding new_coroutines
new_coroutines-Grown zero σ v h = record {
  consistent = v;
  uniq_id = omega arith;
  current_size = refl;
  pool_size = refl;
  used_size = refl;
  current = refl;
  kept = λ c le. refl;
}
new_coroutines-Grown (suc n) σ v h =
    let g = new_coroutine-Grown σ v (omega (arith, h)) in
    let rest =
      new_coroutines-Grown n (new_coroutine σ) g.consistent
        (omega (arith, h, g.uniq_id, g.pool_size)) in
    subst (Grown σ (new_coroutines n (new_coroutine σ))) (omega arith) (Grown-trans g rest)

-- Five empty lists.
pub empty-Ring : (s : CoroStatus) → Ring empty_links (head s) []
unfolding head_init
empty-Ring free = record { chain = (refl, refl); distinct = (refl, tt) }
empty-Ring active = record { chain = (refl, refl); distinct = (refl, tt) }
empty-Ring avail = record { chain = (refl, refl); distinct = (refl, tt) }
empty-Ring inactive = record { chain = (refl, refl); distinct = (refl, tt) }
empty-Ring timeout = record { chain = (refl, refl); distinct = (refl, tt) }
