-- ===== src/Coroutine/Scheduler/Run/Turns.antt =====
-- The loops of tars_run and run over the active coroutines: who is called for has its turn.
use horse_rpc.Base.{ℕ, ◌≤◌, ◌≡◌, Bool, true}
use horse_rpc.Coroutine.Scheduler.{CoroStatus, free, avail, Scheduler}
use horse_rpc.Coroutine.Scheduler.Sound.{IsSound}
use horse_rpc.Coroutine.Scheduler.Run.Turn.{Turn, Rests}

module _ (rests : CoroStatus → Bool) (reused : rests free ≡ true → rests avail ≡ true)
    (resume : Scheduler → Scheduler)
    (turns : (σ : Scheduler) → IsSound σ → 1 ≤ σ.current → Turn rests σ (resume σ)) where
  -- The main coroutine runs, and `c` rests.
  IsOver : ℕ → Scheduler → Type 0
  IsOver c τ = IsSound τ × (τ.current ≡ 0) × Rests rests reused τ c
