-- ===== src/Coroutine/Scheduler/Start.antt =====
-- The state behind init.
use horse_rpc.Base.{ℕ, ◌^◌, ◌<◌, ◌≡◌, sym, ◌∙◌, false, [], leb, if◌then◌else◌, arith}
use horse_rpc.Coroutine.Scheduler.{free, Scheduler, empty_links, init}
use horse_rpc.Coroutine.Scheduler.Moves.{IsConsistent}
use horse_rpc.Coroutine.Scheduler.Growth.{new_coroutines-Grown, empty-Ring}

-- The state in which init begins to make coroutines.
abbrev blank : ℕ → ℕ → Scheduler
blank pool_size n = record {
  terminal = false;
  pool_size = pool_size;
  current_size = n;
  used_size = 0;
  uniq_id = 0;
  links = empty_links;
  status = λ a. free;
  current = 0;
  active_coro_queue = [];
  need_active_coro_id = [];
  timeout_coro_id = [];
}

blank-IsConsistent : (pool_size n : ℕ) → pool_size < 2 ^ 32 → IsConsistent (blank pool_size n)
blank-IsConsistent pool_size n h = record {
  lists = λ s. [];
  listed = record {
    rings = empty-Ring;
    statuses = λ s c m. cc;
    known = λ s c m. cc;
    complete = λ c lo hi. absurd (omega arith);
    bound = omega arith;
  };
  within = omega arith;
  pool = h;
  used = omega arith;
  busy = omega arith;
  queue = tt;
  need = tt;
  timeouts = tt;
}

pub init-IsConsistent :
    (pool_size : ℕ)
    → pool_size < 2 ^ 32
    → IsConsistent (init pool_size)
      × ((init pool_size).current_size ≡ (init pool_size).uniq_id)
      × ((init pool_size).current ≡ 0)
unfolding init
init-IsConsistent pool_size h =
    let n = if leb pool_size 100 then pool_size else 100 in
    let g =
      new_coroutines-Grown n (blank pool_size n) (blank-IsConsistent pool_size n h)
        (ground arith) in
    (g.consistent, g.current_size ∙ sym (g.uniq_id ∙ omega arith), g.current)
