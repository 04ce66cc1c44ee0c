-- ===== src/Coroutine/Tests.antt =====
-- Runs of a scheduler with few coroutines.
use horse_rpc.Base.{◌≤◌, ◌≡◌, refl, sym, subst, Bool, ◌||◌, false, [], ◌∷◌, if◌then◌else◌, arith}
use horse_rpc.Base.Int.{negsuc}
use horse_rpc.Coroutine.Links.{
  Links, null, head_empty, head_init, add_tail, add_between, del, del_between, move_tail,
}
use horse_rpc.Coroutine.Links.Rings.{Ring}
use horse_rpc.Coroutine.Links.Moves.{move_tail-Ring}
use horse_rpc.Coroutine.Scheduler.{
  CoroStatus, free, active, avail, timeout, Scheduler, init, create_coroutine, put, wakeup,
  wakeup_by_timeout, switch_coro, yield_coro, sleep, move_to, generate_id, new_coroutines,
  new_coroutine, take_free, head, magnitude, increase_coro_pool_size,
}
use horse_rpc.Coroutine.Scheduler.TakeFree.{Creates}
use horse_rpc.Coroutine.Scheduler.Creation.{create_coroutine-Creates}
use horse_rpc.Coroutine.Scheduler.Steps.{creates, runs_avail, Reach, start, later}
use horse_rpc.Coroutine.Scheduler.Sound.{IsSound}
use horse_rpc.Coroutine.Scheduler.Reach.{Reach-IsSound}
use horse_rpc.Coroutine.Scheduler.Run.Turn.{Turn}
use horse_rpc.Coroutine.Scheduler.Lists.{same}
use horse_rpc.Coroutine.Scheduler.Statuses.{put-wakeup}
use horse_rpc.Coroutine.Scheduler.Timeouts.{IsSorted, due, sleep-wakeup_by_timeout}

-- Two heads, at 10 and 20; the list of the first is 1, 2.
abbrev two_lists : Links
two_lists =
    add_tail 2 10
      (add_tail 1 10 (head_init 20 (head_init 10 (record { next = λ a. null; prev = λ a. null }))))

two_lists-Ring : Ring two_lists 10 (1 ∷ 2 ∷ []) × Ring two_lists 20 []
unfolding add_tail add_between head_init
two_lists-Ring = (
  record {
    chain = ((refl, refl), ((refl, refl), (refl, refl)));
    distinct = (refl, (refl, (refl, tt)));
  },
  record { chain = (refl, refl); distinct = (refl, tt) },
)

move_tail-Ring_example :
    Ring (move_tail 1 20 two_lists) 10 (2 ∷ []) × Ring (move_tail 1 20 two_lists) 20 (1 ∷ [])
move_tail-Ring_example =
    move_tail-Ring two_lists 1 10 [] (2 ∷ []) 20 [] two_lists-Ring.0 two_lists-Ring.1
      (λ p m. ground (arith, m))

abbrev fresh : Scheduler
fresh = init 1

abbrev one_ready : Scheduler
one_ready = (create_coroutine fresh).1

abbrev one_running : Scheduler
one_running = switch_coro (one_ready.links.next (head avail)) one_ready

fresh-IsSound : IsSound fresh
fresh-IsSound = Reach-IsSound (omega arith) (start 1 (omega arith))

one_ready_fields :
    (one_ready.current ≡ 0)
    × (one_ready.terminal ≡ false)
    × (head_empty (head avail) one_ready.links ≡ false)
    × (one_ready.links.next (head avail) ≡ 1)
    × (one_ready.timeout_coro_id ≡ [])
unfolding create_coroutine init new_coroutines new_coroutine head_empty add_tail add_between
    head_init generate_id take_free move_to del del_between
one_ready_fields = (refl, refl, refl, refl, refl)

one_running-Reach : Reach 1 one_running
one_running-Reach =
    later 1 one_ready one_running (later 1 fresh one_ready (start 1 (omega arith)) (creates fresh))
      (runs_avail one_ready one_ready_fields.0 one_ready_fields.2)

Reach-IsSound_example : IsSound one_running
Reach-IsSound_example = Reach-IsSound (omega arith) one_running-Reach

one_ready-IsSound : IsSound one_ready
one_ready-IsSound =
    Reach-IsSound (omega arith) (later 1 fresh one_ready (start 1 (omega arith)) (creates fresh))

create_coroutine-Creates_example : Creates fresh one_ready (create_coroutine fresh).0
create_coroutine-Creates_example =
    create_coroutine-Creates fresh fresh-IsSound.consistent fresh-IsSound.sizes

-- The first call gets the coroutine 1, and the second one nothing.
both_calls : ((create_coroutine fresh).0 ≡ 1) × ((create_coroutine one_ready).0 ≡ 0)
unfolding create_coroutine init new_coroutines new_coroutine head_empty add_tail add_between
    head_init generate_id take_free move_to del del_between increase_coro_pool_size
both_calls = (refl, refl)

not_main : 1 ≤ one_running.current
unfolding switch_coro
not_main = omega (arith, one_ready_fields.3)

live : one_running.terminal ≡ false
unfolding switch_coro
live = one_ready_fields.1

put-wakeup_example :
    ((wakeup (yield_coro false (put one_running.current one_running))).status one_running.current
      ≡ active)
    × ((wakeup (put one_running.current (yield_coro false one_running))).status one_running.current
        ≡ active)
put-wakeup_example = put-wakeup one_running Reach-IsSound_example not_main live

no_entries : IsSorted one_running.timeout_coro_id
unfolding switch_coro
no_entries = subst IsSorted (sym one_ready_fields.4) tt

sleep-wakeup_by_timeout_example :
    (wakeup_by_timeout 130 (sleep (negsuc 49) 100 one_running)).status one_running.current
    ≡ (if due 130 one_running.current one_running.timeout_coro_id then active else timeout)
unfolding magnitude
sleep-wakeup_by_timeout_example =
    sleep-wakeup_by_timeout (negsuc 49) 100 130 one_running Reach-IsSound_example not_main live
      no_entries

-- The coroutine has yielded, and was put.
abbrev one_put : Scheduler
one_put = put 1 (yield_coro false one_running)

-- A turn that ends the coroutine.
abbrev is_over : CoroStatus → Bool
is_over s = same free s || same avail s
