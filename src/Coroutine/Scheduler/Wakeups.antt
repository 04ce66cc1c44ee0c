-- ===== src/Coroutine/Scheduler/Wakeups.antt =====
-- The three wake-ups move coroutines that have been made, one after another.
use horse_rpc.Base.{
  ℕ, ◌≤◌, ◌≡◌, refl, sym, subst, ◌∙◌, false, List, [], ◌∷◌, ltb, All, Bool-cases, inl, inr,
}
use horse_rpc.Base.Branches.{if-holds}
use horse_rpc.Coroutine.Scheduler.{
  CoroStatus, free, active, avail, Scheduler, each, move_to_active, move_to_avail, wakeup,
  wakeup_by_self, wake_expired, wakeup_by_timeout,
}
use horse_rpc.Coroutine.Scheduler.Lists.{same}
use horse_rpc.Coroutine.Scheduler.Moves.{
  IsId, IsConsistent, IsConsistent-same, Moves, Moves-IsConsistent, Moves-uniq_id,
  Moves-current_size, Moves-current, move_to_active-Moves, move_to_avail-Moves,
}

-- What a wake-up keeps.
pub record Wakes (σ τ : Scheduler) : Type 0 where
  pub consistent : IsConsistent τ
  pub uniq_id : τ.uniq_id ≡ σ.uniq_id
  pub current_size : τ.current_size ≡ σ.current_size
  pub current : τ.current ≡ σ.current

module _ (f : ℕ → Scheduler → Scheduler) (to : CoroStatus) (busy : same free to ≡ false)
    (moves : Moves f to) where
  move-Wakes : (c : ℕ) (σ : Scheduler) → IsConsistent σ → IsId σ c → Wakes σ (f c σ)
  move-Wakes c σ v id = record {
    consistent = Moves-IsConsistent f to busy moves c σ v id;
    uniq_id = Moves-uniq_id f to busy moves c σ;
    current_size = Moves-current_size f to busy moves c σ;
    current = Moves-current f to busy moves c σ;
  }

  each-Wakes :
      (cs : List ℕ) (σ : Scheduler) → IsConsistent σ → All (IsId σ) cs → Wakes σ (each f cs σ)
  unfolding each
  each-Wakes [] σ v a = record {
    consistent = v;
    uniq_id = refl;
    current_size = refl;
    current = refl;
  }
  each-Wakes (c ∷ cs) σ v a =
      let one = move-Wakes c σ v a.0 in
      let rest =
        each-Wakes cs (f c σ) one.consistent
          (subst (λ n. All (λ i. (1 ≤ i) × (i ≤ n)) cs) (sym one.uniq_id) a.1) in
      record {
        consistent = rest.consistent;
        uniq_id = rest.uniq_id ∙ one.uniq_id;
        current_size = rest.current_size ∙ one.current_size;
        current = rest.current ∙ one.current;
      }

same-Wakes : (σ : Scheduler) → IsConsistent σ → Wakes σ σ
same-Wakes σ v = record { consistent = v; uniq_id = refl; current_size = refl; current = refl }

-- The lists of ids that the steps empty.
no_queue : (σ : Scheduler) → IsConsistent σ → IsConsistent (record σ { active_coro_queue = [] })
no_queue σ v = IsConsistent-same refl refl refl refl refl tt v.need v.timeouts v

no_need : (σ : Scheduler) → IsConsistent σ → IsConsistent (record σ { need_active_coro_id = [] })
no_need σ v = IsConsistent-same refl refl refl refl refl v.queue tt v.timeouts v

pub with_timeouts :
    (σ : Scheduler) (ts : List (ℕ × ℕ))
    → IsConsistent σ
    → All (λ p. IsId σ p.1) ts
    → IsConsistent (record σ { timeout_coro_id = ts })
with_timeouts σ ts v a = IsConsistent-same refl refl refl refl refl v.queue v.need a v

pub wakeup-Wakes : (σ : Scheduler) → IsConsistent σ → Wakes σ (wakeup σ)
unfolding wakeup
wakeup-Wakes σ v =
    let w =
      each-Wakes move_to_active active refl move_to_active-Moves σ.active_coro_queue
        (record σ { active_coro_queue = [] }) (no_queue σ v) v.queue in
    if-holds (Wakes σ) σ.terminal σ _ (same-Wakes σ v) (record {
      consistent = w.consistent;
      uniq_id = w.uniq_id;
      current_size = w.current_size;
      current = w.current;
    })

pub wakeup_by_self-Wakes : (σ : Scheduler) → IsConsistent σ → Wakes σ (wakeup_by_self σ)
unfolding wakeup_by_self
wakeup_by_self-Wakes σ v =
    let w =
      each-Wakes move_to_avail avail refl move_to_avail-Moves σ.need_active_coro_id σ v v.need in
    if-holds (Wakes σ) σ.terminal σ _ (same-Wakes σ v) (record {
      consistent = no_need (each move_to_avail σ.need_active_coro_id σ) w.consistent;
      uniq_id = w.uniq_id;
      current_size = w.current_size;
      current = w.current;
    })

wake_expired-Wakes :
    (now : ℕ) (ts : List (ℕ × ℕ)) (σ : Scheduler)
    → IsConsistent σ
    → All (λ p. IsId σ p.1) ts
    → Wakes σ (wake_expired now ts σ)
unfolding wake_expired
wake_expired-Wakes now [] σ v a = record {
  consistent = with_timeouts σ [] v tt;
  uniq_id = refl;
  current_size = refl;
  current = refl;
}
wake_expired-Wakes now ((t, c) ∷ ts) σ v a = elim (Bool-cases (ltb now t)) [
  | inl e ↦ rw e (record {
    consistent = with_timeouts σ ((t, c) ∷ ts) v a;
    uniq_id = refl;
    current_size = refl;
    current = refl;
  })
  | inr e ↦ rw e (
      let one = move-Wakes move_to_active active refl move_to_active-Moves c σ v a.0 in
      let rest =
        wake_expired-Wakes now ts (move_to_active c σ) one.consistent
          (subst (λ n. All (λ (p : ℕ × ℕ). (1 ≤ p.1) × (p.1 ≤ n)) ts) (sym one.uniq_id) a.1) in
      record {
        consistent = rest.consistent;
        uniq_id = rest.uniq_id ∙ one.uniq_id;
        current_size = rest.current_size ∙ one.current_size;
        current = rest.current ∙ one.current;
      })
]

pub wakeup_by_timeout-Wakes :
    (now : ℕ) (σ : Scheduler) → IsConsistent σ → Wakes σ (wakeup_by_timeout now σ)
unfolding wakeup_by_timeout
wakeup_by_timeout-Wakes now σ v =
    if-holds (Wakes σ) σ.terminal σ _ (same-Wakes σ v)
      (wake_expired-Wakes now σ.timeout_coro_id σ v v.timeouts)
