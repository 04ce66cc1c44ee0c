-- ===== src/Coroutine/Scheduler/Run.antt =====
-- CoroutineScheduler::tars_run and the loop of run. What a coroutine does from the jump into it up
-- to the jump back is the parameter `resume`; TNOWMS of a round is an argument.
pub mod Rounds
pub mod Called
pub mod Turn
pub mod Turns
use horse_rpc.Base.{ℕ, zero, suc, ◌==◌, if◌then◌else◌, List, [], ◌∷◌}
use horse_rpc.Coroutine.Links.{head_empty}
use horse_rpc.Coroutine.Scheduler.{
  CoroStatus, active, avail, head, Scheduler, wakeup, wakeup_by_self, wakeup_by_timeout,
  switch_coro,
}

-- The loop over iLoop.
unfoldable pub run_list : (Scheduler → Scheduler) → CoroStatus → ℕ → Scheduler → Scheduler
run_list resume s zero σ = σ
run_list resume s (suc loop) σ =
    let rest = run_list resume s loop (resume (switch_coro (σ.links.next (head s)) σ)) in
    if head_empty (head s) σ.links then σ else rest

unfoldable pub wake_all : ℕ → Scheduler → Scheduler
wake_all now σ = wakeup (wakeup_by_self (wakeup_by_timeout now σ))

unfoldable pub tars_run : (Scheduler → Scheduler) → ℕ → Scheduler → Scheduler
tars_run resume now σ =
    if σ.terminal
    then σ
    else run_list resume avail 100 (run_list resume active 100 (wake_all now σ))

-- A round of run: at most a hundred active coroutines, and one that is available.
unfoldable pub run_round : (Scheduler → Scheduler) → ℕ → Scheduler → Scheduler
run_round resume now σ = run_list resume avail 1 (run_list resume active 100 (wake_all now σ))

-- run, for the rounds whose times are given.
unfoldable pub run : (Scheduler → Scheduler) → List ℕ → Scheduler → Scheduler
run resume [] σ = σ
run resume (now ∷ times) σ =
    let σ' = run_round resume now σ in
    let rest = run resume times σ' in
    if σ.terminal then σ else if σ'.used_size == 0 then σ' else rest
