-- ===== src/Coroutine/Scheduler/Run/Called.antt =====
-- Which coroutines wake_all, at the start of a round, makes active.
use horse_rpc.Base.{
  ℕ, ◌≡◌, refl, ap, ◌∙◌, Bool, true, false, not, ◌&&◌, ◌||◌, List, [], ◌∷◌, ◌==◌, ltb,
  if◌then◌else◌, Bool-cases, inl, inr, arith,
}
use horse_rpc.Base.Branches.{if-false, if-holds}
use horse_rpc.Coroutine.Links.Rings.{has}
use horse_rpc.Coroutine.Scheduler.{
  CoroStatus, active, avail, inactive, Scheduler, each, move_to, move_to_active, move_to_avail,
  wakeup_by_self, wake_expired, wakeup_by_timeout,
}
use horse_rpc.Coroutine.Scheduler.Lists.{same}
use horse_rpc.Coroutine.Scheduler.Statuses.{waits, wakeup-status}
use horse_rpc.Coroutine.Scheduler.Timeouts.{due, IsSorted, wakeup_by_timeout-status}
use horse_rpc.Coroutine.Scheduler.Run.{wake_all}

-- A coroutine that is active, or waits for a time that has come, or waits and is put; but one that
-- has only yielded and asked for itself becomes available instead, where its time has not come.
abbrev pub is_called : ℕ → Scheduler → ℕ → Bool
is_called now σ c =
    same active (σ.status c)
    || (waits (σ.status c)
        && (due now c σ.timeout_coro_id
            || (has c σ.active_coro_queue
                && not (same inactive (σ.status c) && has c σ.need_active_coro_id))))

-- The fields that a wake-up does not touch.
record Leaves (σ τ : Scheduler) : Type 0 where
  live : τ.terminal ≡ σ.terminal
  queue : τ.active_coro_queue ≡ σ.active_coro_queue
  need : τ.need_active_coro_id ≡ σ.need_active_coro_id

move_to_active-Leaves : (c : ℕ) (σ : Scheduler) → Leaves σ (move_to_active c σ)
unfolding move_to_active move_to
move_to_active-Leaves c σ = record {
  live = ground arith;
  queue = ground arith;
  need = ground arith;
}

wake_expired-Leaves :
    (now : ℕ) (ts : List (ℕ × ℕ)) (σ : Scheduler) → Leaves σ (wake_expired now ts σ)
unfolding wake_expired
wake_expired-Leaves now [] σ = record { live = refl; queue = refl; need = refl }
wake_expired-Leaves now ((t, c) ∷ ts) σ =
    let rest = wake_expired-Leaves now ts (move_to_active c σ) in
    let one = move_to_active-Leaves c σ in
    elim (Bool-cases (ltb now t)) [
      | inl e ↦ rw e (record { live = refl; queue = refl; need = refl })
      | inr e ↦ rw e (record {
        live = rest.live ∙ one.live;
        queue = rest.queue ∙ one.queue;
        need = rest.need ∙ one.need;
      })
    ]

wakeup_by_timeout-Leaves : (now : ℕ) (σ : Scheduler) → Leaves σ (wakeup_by_timeout now σ)
unfolding wakeup_by_timeout
wakeup_by_timeout-Leaves now σ =
    if-holds (Leaves σ) σ.terminal σ _ (record { live = refl; queue = refl; need = refl })
      (wake_expired-Leaves now σ.timeout_coro_id σ)

move_to_avail-status :
    (c d : ℕ) (σ : Scheduler)
    → (move_to_avail d σ).status c
      ≡ (if c == d && same inactive (σ.status c) then avail else σ.status c)
unfolding move_to_avail move_to
move_to_avail-status c d σ = elim (Bool-cases (c == d)) [
  | inl e ↦ ground (arith, ap σ.status (the_same c d e))
  | inr e ↦ ground arith
]
  where
    the_same : (a b : ℕ) → (a == b) ≡ true → a ≡ b
    the_same a b e = ground arith

each_avail-status :
    (c : ℕ) (cs : List ℕ) (σ : Scheduler)
    → (each move_to_avail cs σ).status c
      ≡ (if has c cs && same inactive (σ.status c) then avail else σ.status c)
unfolding each
each_avail-status c [] σ = refl
each_avail-status c (d ∷ cs) σ =
    ground (arith, each_avail-status c cs (move_to_avail d σ), move_to_avail-status c d σ)

move_to_avail-fields :
    (c : ℕ) (σ : Scheduler)
    → ((move_to_avail c σ).terminal ≡ σ.terminal)
      × ((move_to_avail c σ).active_coro_queue ≡ σ.active_coro_queue)
unfolding move_to_avail move_to
move_to_avail-fields c σ = (ground arith, ground arith)

each_avail-fields :
    (cs : List ℕ) (σ : Scheduler)
    → ((each move_to_avail cs σ).terminal ≡ σ.terminal)
      × ((each move_to_avail cs σ).active_coro_queue ≡ σ.active_coro_queue)
unfolding each
each_avail-fields [] σ = (refl, refl)
each_avail-fields (c ∷ cs) σ =
    let rest = each_avail-fields cs (move_to_avail c σ) in
    let one = move_to_avail-fields c σ in (rest.0 ∙ one.0, rest.1 ∙ one.1)

-- wakeupbyself makes exactly the inactive coroutines that asked for themselves available.
wakeup_by_self-status :
    (c : ℕ) (σ : Scheduler)
    → σ.terminal ≡ false
    → ((wakeup_by_self σ).status c
        ≡ (if has c σ.need_active_coro_id && same inactive (σ.status c) then avail else σ.status c))
      × ((wakeup_by_self σ).terminal ≡ false)
      × ((wakeup_by_self σ).active_coro_queue ≡ σ.active_coro_queue)
unfolding wakeup_by_self
wakeup_by_self-status c σ live =
    let f = each_avail-fields σ.need_active_coro_id σ in
    let awake = if-false σ.terminal σ _ live in
    (
      ap (λ (τ : Scheduler). τ.status c) awake ∙ each_avail-status c σ.need_active_coro_id σ,
      ap (λ (τ : Scheduler). τ.terminal) awake ∙ f.0 ∙ live,
      ap (λ (τ : Scheduler). τ.active_coro_queue) awake ∙ f.1,
    )

-- The three wake-ups behind one another, for one coroutine.
after_all :
    (s : CoroStatus) (d n q : Bool) {a b e : CoroStatus}
    → a ≡ (if d && waits s then active else s)
    → b ≡ (if n && same inactive a then avail else a)
    → e ≡ (if q && waits b then active else b)
    → same active e ≡ (same active s || (waits s && (d || (q && not (same inactive s && n)))))
after_all s d n q x y z = ground (arith, x, y, z)

pub wake_all-is_called :
    (now c : ℕ) (σ : Scheduler)
    → σ.terminal ≡ false
    → IsSorted σ.timeout_coro_id
    → same active ((wake_all now σ).status c) ≡ is_called now σ c
unfolding wake_all
wake_all-is_called now c σ live sorted =
    let σ' = wakeup_by_timeout now σ in
    let l = wakeup_by_timeout-Leaves now σ in
    let (b, live', queue) = wakeup_by_self-status c σ' (l.live ∙ live) in
    after_all (σ.status c) (due now c σ.timeout_coro_id) (has c σ.need_active_coro_id)
      (has c σ.active_coro_queue) (wakeup_by_timeout-status now c σ live sorted)
      (b ∙ ap (λ ns. if has c ns && same inactive (σ'.status c) then avail else σ'.status c) l.need)
      (wakeup-status c (wakeup_by_self σ') live'
        ∙ ap
            (λ qs.
              if has c qs && waits ((wakeup_by_self σ').status c)
              then active
              else (wakeup_by_self σ').status c)
            (queue ∙ l.queue))
