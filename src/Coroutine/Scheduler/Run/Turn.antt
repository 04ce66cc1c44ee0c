-- ===== src/Coroutine/Scheduler/Run/Turn.antt =====
-- The turn of a coroutine, and what it leaves of those that are active or at rest.
use horse_rpc.Base.{
  ℕ, suc, ◌≤◌, ◌≡◌, sym, ap, subst, ◌∙◌, Bool, true, false, ◌⊎◌, inl, inr, List, [], ◌∷◌, ◌==◌,
  length, arith, Bool-cases,
}
use horse_rpc.Coroutine.Links.{head_empty}
use horse_rpc.Coroutine.Links.Rings.{has, first, next-first}
use horse_rpc.Queues.TimeoutQueue.{remove}
use horse_rpc.Coroutine.Scheduler.{CoroStatus, free, active, avail, head, Scheduler}
use horse_rpc.Coroutine.Scheduler.Lists.{same, same→eq}
use horse_rpc.Coroutine.Scheduler.Moves.{IsId}
use horse_rpc.Coroutine.Scheduler.Sound.{IsSound}
use horse_rpc.Coroutine.Scheduler.Run.Rounds.{Returned}

the_same : (a b : ℕ) → (a == b) ≡ true → a ≡ b
the_same a b e = ground arith

abbrev pub without : ℕ → List ℕ → List ℕ
without x xs = remove (λ y. y) x xs

pub length-without :
    (x : ℕ) (xs : List ℕ) → has x xs ≡ true → suc (length (without x xs)) ≡ length xs
unfolding remove
length-without x [] h = ground arith
length-without x (y ∷ xs) h = ground (arith, length-without x xs)

pub has-without :
    (c x : ℕ) (xs : List ℕ) → has c xs ≡ true → (c == x) ≡ false → has c (without x xs) ≡ true
unfolding remove
has-without c x [] h e = h
has-without c x (y ∷ xs) h e = ground (arith, has-without c x xs)

-- An empty list has no active coroutine in it.
pub none_active :
    (σ : Scheduler) (c : ℕ)
    → IsSound σ
    → head_empty (head active) σ.links ≡ true
    → IsId σ c
    → same active (σ.status c) ≡ false
unfolding head_empty
none_active σ c v e id = elim (Bool-cases (same active (σ.status c))) [
  | inl a ↦ absurd (
      alone (v.consistent.lists active)
        (next-first σ.links (head active) _ (head active) (v.consistent.listed.rings active).chain)
        (v.consistent.listed.rings active).distinct.0
        (subst (λ s. has c (v.consistent.lists s) ≡ true) (sym (same→eq active (σ.status c) a))
          (v.consistent.listed.complete c id.0 id.1)))
  | inr b ↦ b
]
  where
    alone :
        (xs : List ℕ)
        → σ.links.next (head active) ≡ first xs (head active)
        → has (head active) xs ≡ false
        → has c xs ≡ true
        → ⊥
    alone [] n d m = ground arith
    alone (x ∷ xs) n d m = ground (arith, e)

-- What a turn of the coroutine that runs does, up to the jump back: it takes steps of the scheduler,
-- leaves the coroutine in a status of `rests`, makes no coroutine active, and changes the status of
-- no other one than of a free one that it takes for a new coroutine.
pub record Turn (rests : CoroStatus → Bool) (σ τ : Scheduler) : Type 0 where
  pub returned : Returned σ τ
  pub ends : rests (τ.status σ.current) ≡ true
  pub leaves : same active (τ.status σ.current) ≡ false
  pub grows : σ.uniq_id ≤ τ.uniq_id
  pub made : (c : ℕ) → IsId τ c → same active (τ.status c) ≡ true → c ≤ σ.uniq_id
  pub others :
      (c : ℕ)
      → IsId σ c
      → (c == σ.current) ≡ false
      → (τ.status c ≡ σ.status c) ⊎ ((σ.status c ≡ free) × (τ.status c ≡ avail))

module _ (rests : CoroStatus → Bool) (reused : rests free ≡ true → rests avail ≡ true) where
  unfoldable pub Rests : Scheduler → ℕ → Type 0
  Rests σ c = IsId σ c × (rests (σ.status c) ≡ true)

  pub Turn-Rests : (σ τ : Scheduler) (c : ℕ) → Turn rests σ τ → Rests σ c → Rests τ c
  unfolding Rests
  Turn-Rests σ τ c t (id, r) = (
    (id.0, omega (arith, id.1, t.grows)),
    elim (Bool-cases (c == σ.current)) [
      | inl e ↦ ap (λ i. rests (τ.status i)) (the_same c σ.current e) ∙ t.ends
      | inr e ↦ elim (t.others c id e) [
        | inl kept ↦ ap rests kept ∙ r
        | inr (was, is) ↦ ap rests is ∙ reused (ap rests (sym was) ∙ r)
      ]
    ],
  )

  -- Active, or at rest.
  unfoldable pub Waits : Scheduler → ℕ → Type 0
  Waits σ c = IsId σ c × ((same active (σ.status c) ≡ true) ⊎ (rests (σ.status c) ≡ true))

  pub Turn-Waits : (σ τ : Scheduler) (c : ℕ) → Turn rests σ τ → Waits σ c → Waits τ c
  unfolding Waits Rests
  Turn-Waits σ τ c t (id, inr r) = let (id', r') = Turn-Rests σ τ c t (id, r) in (id', inr r')
  Turn-Waits σ τ c t (id, inl a) = (
    (id.0, omega (arith, id.1, t.grows)),
    elim (Bool-cases (c == σ.current)) [
      | inl e ↦ inr (ap (λ i. rests (τ.status i)) (the_same c σ.current e) ∙ t.ends)
      | inr e ↦ elim (t.others c id e) [
        | inl kept ↦ inl (ap (same active) kept ∙ a)
        | inr (was, is) ↦ absurd (ground (arith, was, a))
      ]
    ],
  )

  -- Whom a turn leaves active was active before, and another one.
  pub Turn-active :
      (σ τ : Scheduler) (c : ℕ)
      → Turn rests σ τ
      → IsId τ c
      → same active (τ.status c) ≡ true
      → IsId σ c × (same active (σ.status c) ≡ true) × ((c == σ.current) ≡ false)
  Turn-active σ τ c t id a = elim (Bool-cases (c == σ.current)) [
    | inl e ↦ absurd (clash (ap (λ i. same active (τ.status i)) (the_same c σ.current e)))
    | inr e ↦
        let id' : IsId σ c = (id.0, t.made c id a) in
        elim (t.others c id' e) [
          | inl kept ↦ (id', ap (same active) (sym kept) ∙ a, e)
          | inr (was, is) ↦ absurd (ground (arith, is, a))
        ]
  ]
    where
      clash : same active (τ.status c) ≡ same active (τ.status σ.current) → ⊥
      clash same_status = ground (arith, t.leaves, a, same_status)
