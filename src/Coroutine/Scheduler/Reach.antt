-- ===== src/Coroutine/Scheduler/Reach.antt =====
-- What holds in every state that a scheduler reaches.
use horse_rpc.Base.{ℕ, ◌^◌, ◌<◌, refl}
use horse_rpc.Coroutine.Scheduler.{
  active, avail, Scheduler, init, wakeup, wakeup_by_self, wakeup_by_timeout,
}
use horse_rpc.Coroutine.Scheduler.Wakeups.{
  wakeup-Wakes, wakeup_by_self-Wakes, wakeup_by_timeout-Wakes,
}
use horse_rpc.Coroutine.Scheduler.Start.{init-IsConsistent}
use horse_rpc.Coroutine.Scheduler.Steps.{
  Step, creates, puts, terminates, wakes, wakes_by_self, wakes_by_timeout, runs_active, runs_avail,
  yields, sleeps, finishes, Reach, start, later,
}
use horse_rpc.Coroutine.Scheduler.Sound.{
  IsSound, Wakes-IsSound, put-IsSound, create_coroutine-IsSound, yield_coro-IsSound, sleep-IsSound,
  finish-IsSound, switch-IsSound, terminate-IsSound, main-IsSound,
}

pub Step-IsSound : {σ τ : Scheduler} → Step σ τ → IsSound σ → IsSound τ
Step-IsSound (creates σ) v = create_coroutine-IsSound σ v
Step-IsSound (puts c σ id) v = put-IsSound c σ v id
Step-IsSound (terminates σ) v = terminate-IsSound σ v
Step-IsSound (wakes σ c) v = Wakes-IsSound σ (wakeup σ) v c (wakeup-Wakes σ v.consistent)
Step-IsSound (wakes_by_self σ c) v =
    Wakes-IsSound σ (wakeup_by_self σ) v c (wakeup_by_self-Wakes σ v.consistent)
Step-IsSound (wakes_by_timeout now σ c) v =
    Wakes-IsSound σ (wakeup_by_timeout now σ) v c (wakeup_by_timeout-Wakes now σ v.consistent)
Step-IsSound (runs_active σ c e) v = switch-IsSound active σ v refl e
Step-IsSound (runs_avail σ c e) v = switch-IsSound avail σ v refl e
Step-IsSound (yields flag σ c) v = yield_coro-IsSound flag σ v c
Step-IsSound (sleeps n now σ c) v = sleep-IsSound n now σ v c
Step-IsSound (finishes σ c) v = finish-IsSound σ v c

-- In every state that a scheduler reaches, each coroutine that was made stands exactly in the list
-- of its status, which is linked in both directions without a coroutine twice; the used and the
-- free ones are all that were made, never more than the pool has room for; every queued id is one
-- that was made; and the coroutine that runs is the main one or an active or available one.
pub Reach-IsSound :
    {pool_size : ℕ} {σ : Scheduler} → pool_size < 2 ^ 32 → Reach pool_size σ → IsSound σ
Reach-IsSound h (start pool_size some) =
    let i = init-IsConsistent pool_size h in main-IsSound (init pool_size) i.0 i.1 i.2
Reach-IsSound h (later pool_size ρ σ r s) = Step-IsSound s (Reach-IsSound h r)
