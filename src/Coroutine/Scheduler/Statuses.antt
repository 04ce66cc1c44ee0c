-- ===== src/Coroutine/Scheduler/Statuses.antt =====
-- Which coroutines the wake-ups make active.
use horse_rpc.Base.{
  ℕ, ◌≤◌, ◌≡◌, refl, sym, ap, subst, ◌∙◌, Bool, true, false, ◌||◌, ◌&&◌, List, [], ◌∷◌, ◌++◌, ◌==◌,
  if◌then◌else◌, inl, inr, arith, Bool-cases,
}
use horse_rpc.Base.Branches.{if-false}
use horse_rpc.Coroutine.Links.Rings.{has, has-append}
use horse_rpc.Coroutine.Scheduler.{
  CoroStatus, active, inactive, timeout, Scheduler, each, move_to, move_to_active, put, put_by_self,
  wakeup, switch_coro, yield_coro, move_to_inactive,
}
use horse_rpc.Coroutine.Scheduler.Lists.{same}
use horse_rpc.Coroutine.Scheduler.Sound.{IsSound, running-IsId, can_run}

-- The coroutines that wait for put or for the time.
abbrev pub waits : CoroStatus → Bool
waits s = same inactive s || same timeout s

pub move_to_active-status :
    (c d : ℕ) (σ : Scheduler)
    → (move_to_active d σ).status c ≡ (if c == d && waits (σ.status c) then active else σ.status c)
unfolding move_to_active move_to
move_to_active-status c d σ = elim (Bool-cases (c == d)) [
  | inl e ↦ ground (arith, ap σ.status (the_same c d e))
  | inr e ↦ ground arith
]
  where
    the_same : (a b : ℕ) → (a == b) ≡ true → a ≡ b
    the_same a b e = ground arith

each-status :
    (c : ℕ) (cs : List ℕ) (σ : Scheduler)
    → (each move_to_active cs σ).status c
      ≡ (if has c cs && waits (σ.status c) then active else σ.status c)
unfolding each
each-status c [] σ = refl
each-status c (d ∷ cs) σ =
    ground (arith, each-status c cs (move_to_active d σ), move_to_active-status c d σ)

-- wakeup makes exactly the waiting coroutines of the queue active, and leaves all other statuses.
pub wakeup-status :
    (c : ℕ) (σ : Scheduler)
    → σ.terminal ≡ false
    → (wakeup σ).status c
      ≡ (if has c σ.active_coro_queue && waits (σ.status c) then active else σ.status c)
unfolding wakeup
wakeup-status c σ e =
    ap (λ (τ : Scheduler). τ.status c) (if-false σ.terminal σ _ e)
    ∙ each-status c σ.active_coro_queue (record σ { active_coro_queue = [] })

-- The coroutine that runs is waiting once it has yielded, whether it asks for itself or not.
yield_coro-status :
    (flag : Bool) (σ : Scheduler)
    → can_run (σ.status σ.current) ≡ true
    → (yield_coro flag σ).status σ.current ≡ inactive
unfolding yield_coro put_by_self switch_coro move_to_inactive move_to
yield_coro-status flag σ can = ground arith

yield_coro-queue :
    (σ : Scheduler)
    → ((yield_coro false σ).active_coro_queue ≡ σ.active_coro_queue)
      × ((yield_coro false σ).terminal ≡ σ.terminal)
unfolding yield_coro put_by_self switch_coro move_to_inactive move_to
yield_coro-queue σ = ground arith

-- A coroutine of the queue that waits is made active.
queued-wakeup :
    (c : ℕ) (σ : Scheduler)
    → σ.terminal ≡ false
    → has c σ.active_coro_queue ≡ true
    → waits (σ.status c) ≡ true
    → (wakeup σ).status c ≡ active
queued-wakeup c σ live queued w = wakeup-status c σ live ∙ rw (queued, w) refl

queued : Scheduler → ℕ → Scheduler
queued σ c = record σ { active_coro_queue = σ.active_coro_queue ++ c ∷ [] }

put-queued : (c : ℕ) (σ : Scheduler) → σ.terminal ≡ false → put c σ ≡ queued σ c
unfolding put queued
put-queued c σ live = if-false σ.terminal σ _ live

has-queued : (c : ℕ) (xs : List ℕ) → has c (xs ++ c ∷ []) ≡ true
has-queued c xs = ground (arith, has-append c xs (c ∷ []))

-- A put for the coroutine that runs is not lost: whether it comes before the coroutine yields or
-- behind that, the next wakeup makes the coroutine active, in a sound state that is not terminal.
pub put-wakeup :
    (σ : Scheduler)
    → IsSound σ
    → 1 ≤ σ.current
    → σ.terminal ≡ false
    → ((wakeup (yield_coro false (put σ.current σ))).status σ.current ≡ active)
      × ((wakeup (put σ.current (yield_coro false σ))).status σ.current ≡ active)
unfolding queued
put-wakeup σ v not_main live =
    let c = σ.current in
    let can = (running-IsId σ v not_main).1 in
    let early : (wakeup (yield_coro false (queued σ c))).status c ≡ active =
      queued-wakeup c (yield_coro false (queued σ c)) ((yield_coro-queue (queued σ c)).1 ∙ live)
        (ap (has c) (yield_coro-queue (queued σ c)).0 ∙ has-queued c σ.active_coro_queue)
        (ap waits (yield_coro-status false (queued σ c) can)) in
    let live' = (yield_coro-queue σ).1 ∙ live in
    let late : (wakeup (queued (yield_coro false σ) c)).status c ≡ active =
      queued-wakeup c (queued (yield_coro false σ) c) live'
        (has-queued c (yield_coro false σ).active_coro_queue)
        (ap waits (yield_coro-status false σ can)) in
    (
      subst (λ τ. (wakeup (yield_coro false τ)).status c ≡ active) (sym (put-queued c σ live))
          early,
      subst (λ τ. (wakeup τ).status c ≡ active) (sym (put-queued c (yield_coro false σ) live'))
          late,
    )
