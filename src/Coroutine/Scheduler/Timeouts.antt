-- ===== src/Coroutine/Scheduler/Timeouts.antt =====
-- The sleeping coroutines: when wakeupbytimeout makes them active.
use horse_rpc.Base.{
  ℕ, ◌+◌, ◌≤◌, ◌<◌, ◌≡◌, refl, sym, ap, subst, ◌∙◌, Bool, true, false, ◌||◌, ◌&&◌, List, [], ◌∷◌,
  ◌==◌, ltb, leb, if◌then◌else◌, All, inl, inr, arith, Bool-cases,
}
use horse_rpc.Base.Int.{ℤ}
use horse_rpc.Base.Branches.{if-false}
use horse_rpc.Coroutine.Scheduler.{
  active, timeout, Scheduler, move_to, move_to_active, move_to_timeout, wake_expired,
  wakeup_by_timeout, switch_coro, sleep, magnitude, insert_timeout,
}
use horse_rpc.Coroutine.Scheduler.Sound.{IsSound, running-IsId, can_run, All-insert_timeout}
use horse_rpc.Coroutine.Scheduler.Statuses.{waits, move_to_active-status}

-- The ids whose time has come.
abbrev pub due : ℕ → ℕ → List (ℕ × ℕ) → Bool
due now c [] = false
due now c ((t, d) ∷ ts) = (leb t now && c == d) || due now c ts

-- The multimap is sorted by its keys.
abbrev pub IsSorted : List (ℕ × ℕ) → Type 0
IsSorted [] = Unit
IsSorted ((t, c) ∷ ts) = All (λ (p : ℕ × ℕ). t ≤ p.0) ts × IsSorted ts

All-le :
    (t u : ℕ) (ts : List (ℕ × ℕ))
    → t ≤ u
    → All (λ (p : ℕ × ℕ). u ≤ p.0) ts
    → All (λ (p : ℕ × ℕ). t ≤ p.0) ts
All-le t u [] h a = tt
All-le t u (p ∷ ts) h a = (omega (arith, h, a.0), All-le t u ts h a.1)

-- An insertion keeps the order.
pub insert_timeout-IsSorted :
    (t c : ℕ) (ts : List (ℕ × ℕ)) → IsSorted ts → IsSorted (insert_timeout t c ts)
unfolding insert_timeout
insert_timeout-IsSorted t c [] s = (tt, tt)
insert_timeout-IsSorted t c ((u, d) ∷ ts) s =
    let rest = insert_timeout-IsSorted t c ts s.1 in
    elim (Bool-cases (ltb t u)) [
      | inl e ↦ rw e ((ground (arith, e), All-le t u ts (ground (arith, e)) s.0), s)
      | inr e ↦
          rw e (All-insert_timeout (λ (p : ℕ × ℕ). u ≤ p.0) t c ts s.0 (ground (arith, e)), rest)
    ]

due-insert_timeout :
    (now t c : ℕ) (ts : List (ℕ × ℕ))
    → due now c (insert_timeout t c ts) ≡ (leb t now || due now c ts)
unfolding insert_timeout
due-insert_timeout now t c [] = ground arith
due-insert_timeout now t c ((u, d) ∷ ts) =
    let rest = due-insert_timeout now t c ts in
    elim (Bool-cases (ltb t u)) [
      | inl e ↦ rw e (ground arith)
      | inr e ↦ rw e (ground (arith, rest))
    ]

not_due :
    (now c t : ℕ) (ts : List (ℕ × ℕ))
    → now < t
    → All (λ (p : ℕ × ℕ). t ≤ p.0) ts
    → due now c ts ≡ false
not_due now c t [] h a = refl
not_due now c t ((u, d) ∷ ts) h a = ground (arith, not_due now c t ts h a.1, a.0)

pub wake_expired-status :
    (now c : ℕ) (ts : List (ℕ × ℕ)) (σ : Scheduler)
    → IsSorted ts
    → (wake_expired now ts σ).status c
      ≡ (if due now c ts && waits (σ.status c) then active else σ.status c)
unfolding wake_expired
wake_expired-status now c [] σ s = refl
wake_expired-status now c ((t, d) ∷ ts) σ s =
    let rest = wake_expired-status now c ts (move_to_active d σ) s.1 in
    elim (Bool-cases (ltb now t)) [
      | inl e ↦ rw e (ground (arith, e, not_due now c t ts (ground (arith, e)) s.0))
      | inr e ↦ rw e (ground (arith, e, rest, move_to_active-status c d σ))
    ]

-- wakeupbytimeout makes exactly the waiting coroutines active whose time has come, and leaves all
-- other statuses, when the multimap is sorted and the scheduler not terminal.
pub wakeup_by_timeout-status :
    (now c : ℕ) (σ : Scheduler)
    → σ.terminal ≡ false
    → IsSorted σ.timeout_coro_id
    → (wakeup_by_timeout now σ).status c
      ≡ (if due now c σ.timeout_coro_id && waits (σ.status c) then active else σ.status c)
unfolding wakeup_by_timeout
wakeup_by_timeout-status now c σ live s =
    ap (λ (τ : Scheduler). τ.status c) (if-false σ.terminal σ _ live)
    ∙ wake_expired-status now c σ.timeout_coro_id σ s

sleep-fields :
    (n : ℤ) (now : ℕ) (σ : Scheduler)
    → can_run (σ.status σ.current) ≡ true
    → ((sleep n now σ).status σ.current ≡ timeout)
      × ((sleep n now σ).terminal ≡ σ.terminal)
      × ((sleep n now σ).timeout_coro_id
          ≡ insert_timeout (now + magnitude n) σ.current σ.timeout_coro_id)
unfolding sleep switch_coro move_to_timeout move_to
sleep-fields n now σ can = ground arith

-- In a sound scheduler that is not terminal and whose multimap is sorted, a coroutine other than
-- the main one runs and sleeps. The wakeupbytimeout directly behind the sleep makes it active when
-- its time has come, or when the multimap still held an earlier entry of it that is due, and
-- leaves it asleep otherwise.
pub sleep-wakeup_by_timeout :
    (n : ℤ) (now later : ℕ) (σ : Scheduler)
    → IsSound σ
    → 1 ≤ σ.current
    → σ.terminal ≡ false
    → IsSorted σ.timeout_coro_id
    → (wakeup_by_timeout later (sleep n now σ)).status σ.current ≡ (
        if leb (now + magnitude n) later || due later σ.current σ.timeout_coro_id
        then active
        else timeout)
sleep-wakeup_by_timeout n now later σ v not_main live s =
    let c = σ.current in
    let (asleep, live', entries) = sleep-fields n now σ (running-IsId σ v not_main).1 in
    let sorted = subst IsSorted (sym entries) (insert_timeout-IsSorted (now + magnitude n) c _ s) in
    wakeup_by_timeout-status later c (sleep n now σ) (live' ∙ live) sorted
    ∙ rw (entries, asleep, due-insert_timeout later (now + magnitude n) c σ.timeout_coro_id)
        (ground arith)
