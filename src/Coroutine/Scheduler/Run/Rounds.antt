-- ===== src/Coroutine/Scheduler/Run/Rounds.antt =====
-- The rounds of a scheduler are steps of it, and end in the main coroutine.
use horse_rpc.Base.{
  ℕ, zero, suc, ◌≤◌, ◌≡◌, refl, ◌∙◌, Bool, true, false, ◌==◌, if◌then◌else◌, List, [], ◌∷◌,
}
use horse_rpc.Coroutine.Links.{head_empty}
use horse_rpc.Coroutine.Scheduler.{CoroStatus, active, avail, head, Scheduler, switch_coro}
use horse_rpc.Coroutine.Scheduler.Moves.{IsConsistent}
use horse_rpc.Coroutine.Scheduler.Wakeups.{
  wakeup-Wakes, wakeup_by_self-Wakes, wakeup_by_timeout-Wakes,
}
use horse_rpc.Coroutine.Scheduler.Steps.{
  Step, wakes, wakes_by_self, wakes_by_timeout, runs_active, runs_avail, Steps, done, more,
}
use horse_rpc.Coroutine.Scheduler.Sound.{IsSound, head_member}
use horse_rpc.Coroutine.Scheduler.Reach.{Step-IsSound}
use horse_rpc.Coroutine.Scheduler.Run.{run_list, wake_all, tars_run, run_round, run}

pub Steps-trans : {σ τ ρ : Scheduler} → Steps σ τ → Steps τ ρ → Steps σ ρ
Steps-trans s (done σ) = s
Steps-trans {σ} s (more τ ρ π t u) = more σ ρ π (Steps-trans s t) u

pub Steps-IsSound : {σ τ : Scheduler} → Steps σ τ → IsSound σ → IsSound τ
Steps-IsSound (done σ) v = v
Steps-IsSound (more σ τ ρ s t) v = Step-IsSound t (Steps-IsSound s v)

-- A sound state in which the main coroutine runs, behind some steps of `σ`.
pub record Returned (σ τ : Scheduler) : Type 0 where
  pub steps : Steps σ τ
  pub main : τ.current ≡ 0

if-Returned :
    (σ x y : Scheduler) (b : Bool)
    → (b ≡ true → Returned σ x)
    → (b ≡ false → Returned σ y)
    → Returned σ (if b then x else y)
if-Returned σ x y true f g = f refl
if-Returned σ x y false f g = g refl

stay : (σ : Scheduler) → σ.current ≡ 0 → Returned σ σ
stay σ c = record { steps = done σ; main = c }

Returned-trans : {σ τ ρ : Scheduler} → Returned σ τ → Returned τ ρ → Returned σ ρ
Returned-trans s t = record { steps = Steps-trans s.steps t.steps; main = t.main }

pub wake_all-Returned :
    (now : ℕ) (σ : Scheduler) → IsConsistent σ → σ.current ≡ 0 → Returned σ (wake_all now σ)
unfolding wake_all
wake_all-Returned now σ v c =
    let a = wakeup_by_timeout-Wakes now σ v in
    let b = wakeup_by_self-Wakes _ a.consistent in
    let d = wakeup-Wakes _ b.consistent in
    let s = more σ σ _ (done σ) (wakes_by_timeout now σ c) in
    let t = more σ _ _ s (wakes_by_self _ (a.current ∙ c)) in
    record {
      steps = more σ _ _ t (wakes _ (b.current ∙ a.current ∙ c));
      main = d.current ∙ b.current ∙ a.current ∙ c;
    }

-- `resume` is a coroutine that takes some steps, up to the jump back.
module _ (resume : Scheduler → Scheduler)
    (returns : (σ : Scheduler) → IsSound σ → 1 ≤ σ.current → Returned σ (resume σ)) where
  run_list-Returned :
      (s : CoroStatus)
      → ((σ : Scheduler)
          → σ.current ≡ 0
          → head_empty (head s) σ.links ≡ false
          → Step σ (switch_coro (σ.links.next (head s)) σ))
      → (loop : ℕ) (σ : Scheduler) → IsSound σ
      → σ.current ≡ 0
      → Returned σ (run_list resume s loop σ)
  unfolding run_list switch_coro
  run_list-Returned s runs zero σ v c = stay σ c
  run_list-Returned s runs (suc loop) σ v c =
      if-Returned σ σ _ (head_empty (head s) σ.links) (λ e. stay σ c)
        (λ e.
          let one = runs σ c e in
          let id = v.consistent.listed.known s _ (head_member s σ v e) in
          let there = returns _ (Step-IsSound one v) id.0 in
          let steps = Steps-trans (more σ σ _ (done σ) one) there.steps in
          let back : Returned σ _ = record { steps = steps; main = there.main } in
          Returned-trans back (run_list-Returned s runs loop _ (Steps-IsSound steps v) back.main))

  -- Both loops of a round.
  lists-Returned :
      (n m now : ℕ) (σ : Scheduler)
      → IsSound σ
      → σ.current ≡ 0
      → Returned σ (run_list resume avail n (run_list resume active m (wake_all now σ)))
  lists-Returned n m now σ v c =
      let a = wake_all-Returned now σ v.consistent c in
      let w = Steps-IsSound a.steps v in
      let b = run_list-Returned active runs_active m _ w a.main in
      Returned-trans (Returned-trans a b)
        (run_list-Returned avail runs_avail n _ (Steps-IsSound b.steps w) b.main)

  -- tars_run is a sequence of steps of the scheduler, which ends in the main coroutine.
  pub tars_run-Returned :
      (now : ℕ) (σ : Scheduler) → IsSound σ → σ.current ≡ 0 → Returned σ (tars_run resume now σ)
  unfolding tars_run
  tars_run-Returned now σ v c =
      if-Returned σ σ _ σ.terminal (λ _. stay σ c) (λ _. lists-Returned 100 100 now σ v c)

  -- So is run, however many rounds it takes.
  pub run-Returned :
      (times : List ℕ) (σ : Scheduler) → IsSound σ → σ.current ≡ 0 → Returned σ (run resume times σ)
  unfolding run run_round
  run-Returned [] σ v c = stay σ c
  run-Returned (now ∷ times) σ v c =
      let round = lists-Returned 1 100 now σ v c in
      let rest = run-Returned times _ (Steps-IsSound round.steps v) round.main in
      if-Returned σ σ _ σ.terminal (λ _. stay σ c)
        (λ _.
          if-Returned σ _ _ ((run_round resume now σ).used_size == 0) (λ _. round)
            (λ _. Returned-trans round rest))
