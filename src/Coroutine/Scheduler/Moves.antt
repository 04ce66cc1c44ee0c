-- ===== src/Coroutine/Scheduler/Moves.antt =====
-- The moves between the lists of a scheduler: what they keep.
use horse_rpc.Base.{
  ℕ, ◌+◌, ◌^◌, ◌≤◌, ◌<◌, ◌≡◌, sym, ap, subst, ◌∙◌, ◌⊎◌, inl, inr, false, List, [], ◌∷◌, ◌++◌,
  length, length-append, All, arith,
}
use horse_rpc.Coroutine.Scheduler.{
  CoroStatus, free, active, avail, inactive, timeout, Scheduler, move_to, move_to_active,
  move_to_avail, move_to_inactive, move_to_timeout,
}
use horse_rpc.Coroutine.Scheduler.Lists.{same, IsListed, IsListed-same, cut, moved}
use horse_rpc.Coroutine.Scheduler.MoveTo.{move_to-IsListed}

-- The id of a coroutine that has been made, so that _all_coro holds it.
abbrev pub IsId : Scheduler → ℕ → Type 0
IsId σ c = (1 ≤ c) × (c ≤ σ.uniq_id)

-- The coroutines in the other lists than the free one.
abbrev pub busy_count : (CoroStatus → List ℕ) → ℕ
busy_count ls = length (ls active) + length (ls avail) + length (ls inactive) + length (ls timeout)

pub record IsConsistent (σ : Scheduler) : Type 0 where
  pub lists : CoroStatus → List ℕ
  pub listed : IsListed σ lists
  pub within : σ.uniq_id ≤ σ.pool_size
  pub pool : σ.pool_size < 2 ^ 32
  pub used : σ.used_size + length (lists free) ≡ σ.uniq_id
  pub busy : σ.used_size ≡ busy_count lists
  pub queue : All (IsId σ) σ.active_coro_queue
  pub need : All (IsId σ) σ.need_active_coro_id
  pub timeouts : All (λ p. IsId σ p.1) σ.timeout_coro_id

-- What else changes of the state does not matter.
pub IsConsistent-same :
    {σ τ : Scheduler}
    → σ.links ≡ τ.links
    → σ.status ≡ τ.status
    → σ.uniq_id ≡ τ.uniq_id
    → σ.pool_size ≡ τ.pool_size
    → σ.used_size ≡ τ.used_size
    → All (IsId τ) τ.active_coro_queue
    → All (IsId τ) τ.need_active_coro_id
    → All (λ p. IsId τ p.1) τ.timeout_coro_id
    → IsConsistent σ
    → IsConsistent τ
IsConsistent-same a b c d e queue need timeouts v = record {
  lists = v.lists;
  listed = IsListed-same a b c v.listed;
  within = omega (arith, v.within, c, d);
  pool = omega (arith, v.pool, d);
  used = omega (arith, v.used, c, e);
  busy = omega (arith, v.busy, e);
  queue = queue;
  need = need;
  timeouts = timeouts;
}

busy_count-moved :
    (ls : CoroStatus → List ℕ) (c : ℕ) (rest : List ℕ) (from to : CoroStatus)
    → same to from ≡ false
    → same free to ≡ false
    → same free from ≡ false
    → length (ls from) ≡ length rest + 1
    → busy_count (moved ls c from rest to) ≡ busy_count ls
busy_count-moved ls c rest active avail o f g h =
    omega (arith, h, length-append (ls avail) (c ∷ []))
busy_count-moved ls c rest active inactive o f g h =
    omega (arith, h, length-append (ls inactive) (c ∷ []))
busy_count-moved ls c rest from to o f g h = ground (arith, h, length-append (ls to) (c ∷ []))

pub length-cut :
    (c : ℕ) (front back : List ℕ) → length (front ++ c ∷ back) ≡ length (front ++ back) + 1
length-cut c front back = omega (arith, length-append front (c ∷ back), length-append front back)

-- A move between two lists that are not the free one.
pub move_to-IsConsistent :
    (σ : Scheduler) (c : ℕ) (to : CoroStatus)
    → IsConsistent σ
    → IsId σ c
    → same to (σ.status c) ≡ false
    → same free to ≡ false
    → same free (σ.status c) ≡ false
    → IsConsistent (move_to to c σ)
unfolding move_to
move_to-IsConsistent σ c to v id other busy busy' =
    let (front, back, there) = cut c (v.lists (σ.status c)) (v.listed.complete c id.0 id.1) in
    record {
      lists = moved v.lists c (σ.status c) (front ++ back) to;
      listed = move_to-IsListed v.listed c to front back there other;
      within = v.within;
      pool = v.pool;
      used = rw (busy, busy') v.used;
      busy =
          v.busy
          ∙ sym (
              busy_count-moved v.lists c (front ++ back) (σ.status c) to other busy busy'
                (ap length there ∙ length-cut c front back));
      queue = v.queue;
      need = v.need;
      timeouts = v.timeouts;
    }

-- What a move does, as the status of the coroutine says.
abbrev pub Moves : (ℕ → Scheduler → Scheduler) → CoroStatus → Type 0
Moves f to =
    (c : ℕ) (σ : Scheduler)
    → (f c σ ≡ σ)
      ⊎ ((f c σ ≡ move_to to c σ)
          × (same to (σ.status c) ≡ false)
          × (same free (σ.status c) ≡ false))

pub move_to_active-Moves : Moves move_to_active active
unfolding move_to_active
move_to_active-Moves c σ = ground arith

pub move_to_avail-Moves : Moves move_to_avail avail
unfolding move_to_avail
move_to_avail-Moves c σ = ground arith

pub move_to_inactive-Moves : Moves move_to_inactive inactive
unfolding move_to_inactive
move_to_inactive-Moves c σ = ground arith

pub move_to_timeout-Moves : Moves move_to_timeout timeout
unfolding move_to_timeout
move_to_timeout-Moves c σ = ground arith

module _ (f : ℕ → Scheduler → Scheduler) (to : CoroStatus) (busy : same free to ≡ false)
    (moves : Moves f to) where
  pub Moves-IsConsistent :
      (c : ℕ) (σ : Scheduler) → IsConsistent σ → IsId σ c → IsConsistent (f c σ)
  Moves-IsConsistent c σ v id = elim (moves c σ) [
    | inl e ↦ subst IsConsistent (sym e) v
    | inr (e, other, busy') ↦
        subst IsConsistent (sym e) (move_to-IsConsistent σ c to v id other busy busy')
  ]

  -- What no move changes.
  pub Moves-uniq_id : (c : ℕ) (σ : Scheduler) → (f c σ).uniq_id ≡ σ.uniq_id
  unfolding move_to
  Moves-uniq_id c σ = elim (moves c σ) [
    | inl e ↦ ap (λ (τ : Scheduler). τ.uniq_id) e
    | inr (e, other, busy') ↦ ap (λ (τ : Scheduler). τ.uniq_id) e
  ]

  pub Moves-current_size : (c : ℕ) (σ : Scheduler) → (f c σ).current_size ≡ σ.current_size
  unfolding move_to
  Moves-current_size c σ = elim (moves c σ) [
    | inl e ↦ ap (λ (τ : Scheduler). τ.current_size) e
    | inr (e, other, busy') ↦ ap (λ (τ : Scheduler). τ.current_size) e
  ]

  pub Moves-current : (c : ℕ) (σ : Scheduler) → (f c σ).current ≡ σ.current
  unfolding move_to
  Moves-current c σ = elim (moves c σ) [
    | inl e ↦ ap (λ (τ : Scheduler). τ.current) e
    | inr (e, other, busy') ↦ ap (λ (τ : Scheduler). τ.current) e
  ]
