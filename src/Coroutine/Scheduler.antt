-- ===== src/Coroutine/Scheduler.antt =====
-- class CoroutineScheduler, over the links of its five lists. A coroutine's address is its uid; the
-- heads of the lists lie above all uids, and the main coroutine is 0. The jump into a coroutine is
-- the choice of `current`; what it then does, up to the jump back, is `yield`, `sleep` or `finish`.
-- Times are milliseconds, and TNOWMS is an argument.
pub mod Lists
pub mod MoveTo
pub mod Moves
pub mod Growth
pub mod Wakeups
pub mod Start
pub mod TakeFree
pub mod Creation
pub mod Finish
pub mod Sound
pub mod Steps
pub mod Reach
pub mod Run
pub mod Statuses
pub mod Timeouts
use horse_rpc.Base.{
  ℕ, zero, suc, ◌+◌, ◌-◌, ◌%◌, ◌^◌, Bool, true, false, ◌||◌, List, [], ◌∷◌, ◌++◌, ltb, leb, ◌==◌,
  if◌then◌else◌,
}
use horse_rpc.Base.Int.{ℤ, pos, negsuc}
use horse_rpc.Coroutine.Links.{Links, null, head_init, head_empty, add_tail, del}

-- CORO_STATUS
pub data CoroStatus : Type 0 where
  free active avail inactive timeout : CoroStatus

abbrev pub index : CoroStatus → ℕ
index free = 0
index active = 1
index avail = 2
index inactive = 3
index timeout = 4

-- _free, _active, _avail, _inactive and _timeout
abbrev pub head : CoroStatus → ℕ
head s = 2 ^ 32 + index s

pub record Scheduler : Type 0 where
  pub terminal : Bool
  pub pool_size : ℕ
  pub current_size : ℕ
  pub used_size : ℕ
  pub uniq_id : ℕ
  pub links : Links
  pub status : ℕ → CoroStatus
  pub current : ℕ
  pub active_coro_queue : List ℕ
  pub need_active_coro_id : List ℕ
  pub timeout_coro_id : List (ℕ × ℕ)

-- The heads that the constructor makes.
abbrev pub empty_links : Links
empty_links = head_init (head free) (
    head_init (head timeout) (
      head_init (head inactive) (
        head_init (head avail)
          (head_init (head active) (record { next = λ a. null; prev = λ a. null })))))

-- generateId, behind which the assert compares the id with _poolSize.
unfoldable pub generate_id : ℕ → ℕ
generate_id uniq_id = let i = (uniq_id + 1) % 2 ^ 32 in if i == 0 then (i + 1) % 2 ^ 32 else i

-- CoroutineDel, setStatus and CoroutineAddTail, as the moves below have them.
unfoldable pub move_to : CoroStatus → ℕ → Scheduler → Scheduler
move_to s c σ = record σ {
  links = add_tail c (head s) (del c σ.links);
  status = λ a. if a == c then s else σ.status a;
}

unfoldable pub move_to_active : ℕ → Scheduler → Scheduler
move_to_active c σ = elim (σ.status c) [
  | free ↦ σ
  | active ↦ σ
  | avail ↦ σ
  | inactive ↦ move_to active c σ
  | timeout ↦ move_to active c σ
]

unfoldable pub move_to_avail : ℕ → Scheduler → Scheduler
move_to_avail c σ = elim (σ.status c) [
  | free ↦ σ
  | active ↦ σ
  | avail ↦ σ
  | inactive ↦ move_to avail c σ
  | timeout ↦ σ
]

unfoldable pub move_to_inactive : ℕ → Scheduler → Scheduler
move_to_inactive c σ = elim (σ.status c) [
  | free ↦ σ
  | active ↦ move_to inactive c σ
  | avail ↦ move_to inactive c σ
  | inactive ↦ σ
  | timeout ↦ σ
]

unfoldable pub move_to_timeout : ℕ → Scheduler → Scheduler
move_to_timeout c σ = elim (σ.status c) [
  | free ↦ σ
  | active ↦ move_to timeout c σ
  | avail ↦ move_to timeout c σ
  | inactive ↦ σ
  | timeout ↦ σ
]

unfoldable pub move_to_free_list : ℕ → Scheduler → Scheduler
move_to_free_list c σ = elim (σ.status c) [
  | free ↦ σ
  | active ↦ move_to free c σ
  | avail ↦ move_to free c σ
  | inactive ↦ move_to free c σ
  | timeout ↦ move_to free c σ
]

-- A new CoroutineInfo at the end of the free list.
unfoldable pub new_coroutine : Scheduler → Scheduler
new_coroutine σ =
    let i = generate_id σ.uniq_id in
    record σ {
      uniq_id = i;
      links = add_tail i (head free) σ.links;
      status = λ a. if a == i then free else σ.status a;
    }

unfoldable pub new_coroutines : ℕ → Scheduler → Scheduler
new_coroutines zero σ = σ
new_coroutines (suc n) σ = new_coroutines n (new_coroutine σ)

-- The constructor and init(iPoolSize, iStackSize) for an iPoolSize above 0.
unfoldable pub init : ℕ → Scheduler
init pool_size =
    let n = if leb pool_size 100 then pool_size else 100 in
    new_coroutines n (record {
      terminal = false;
      pool_size = pool_size;
      current_size = n;
      used_size = 0;
      uniq_id = 0;
      links = empty_links;
      status = λ a. free;
      current = 0;
      active_coro_queue = [];
      need_active_coro_id = [];
      timeout_coro_id = [];
    })

-- increaseCoroPoolSize: false for -1. The difference is one of uint32_t.
unfoldable pub increase_coro_pool_size : Scheduler → Bool × Scheduler
increase_coro_pool_size σ =
    let room = (σ.pool_size + 2 ^ 32 - σ.current_size) % 2 ^ 32 in
    let n = if ltb 100 room then 100 else room in
    let σ' = new_coroutines n σ in
    if n == 0 then (false, σ) else (true, record σ' { current_size = σ'.current_size + n })

-- createCoroutine: 0 when the pool is full.
unfoldable pub take_free : Scheduler → ℕ × Scheduler
take_free σ =
    let c = σ.links.next (head free) in
    (c, record (move_to avail c σ) { used_size = σ.used_size + 1 })

unfoldable pub create_coroutine : Scheduler → ℕ × Scheduler
create_coroutine σ =
    let (increased, σ') = increase_coro_pool_size σ in
    if leb σ.current_size σ.used_size || head_empty (head free) σ.links
    then (if increased then take_free σ' else (0, σ'))
    else take_free σ

-- put: from any thread.
unfoldable pub put : ℕ → Scheduler → Scheduler
put c σ = if σ.terminal then σ else record σ { active_coro_queue = σ.active_coro_queue ++ c ∷ [] }

-- putbyself
unfoldable pub put_by_self : ℕ → Scheduler → Scheduler
put_by_self c σ =
    if σ.terminal then σ else record σ { need_active_coro_id = σ.need_active_coro_id ++ c ∷ [] }

unfoldable pub each : (ℕ → Scheduler → Scheduler) → List ℕ → Scheduler → Scheduler
each f [] σ = σ
each f (c ∷ cs) σ = each f cs (f c σ)

-- wakeupbyself
unfoldable pub wakeup_by_self : Scheduler → Scheduler
wakeup_by_self σ =
    if σ.terminal
    then σ
    else record (each move_to_avail σ.need_active_coro_id σ) { need_active_coro_id = [] }

-- wakeup
unfoldable pub wakeup : Scheduler → Scheduler
wakeup σ =
    if σ.terminal
    then σ
    else each move_to_active σ.active_coro_queue (record σ { active_coro_queue = [] })

-- wakeupbytimeout: the loop over the sorted multimap.
unfoldable pub wake_expired : ℕ → List (ℕ × ℕ) → Scheduler → Scheduler
wake_expired now [] σ = record σ { timeout_coro_id = [] }
wake_expired now ((t, c) ∷ ts) σ =
    let rest = wake_expired now ts (move_to_active c σ) in
    if ltb now t then record σ { timeout_coro_id = (t, c) ∷ ts } else rest

unfoldable pub wakeup_by_timeout : ℕ → Scheduler → Scheduler
wakeup_by_timeout now σ = if σ.terminal then σ else wake_expired now σ.timeout_coro_id σ

-- std::multimap::insert: behind the pairs of the same key.
unfoldable pub insert_timeout : ℕ → ℕ → List (ℕ × ℕ) → List (ℕ × ℕ)
insert_timeout t c [] = (t, c) ∷ []
insert_timeout t c ((u, d) ∷ ts) =
    if ltb t u then (t, c) ∷ (u, d) ∷ ts else (u, d) ∷ insert_timeout t c ts

-- switchCoro(to)
unfoldable pub switch_coro : ℕ → Scheduler → Scheduler
switch_coro to σ = record σ { current = to }

-- yield(bFlag)
unfoldable pub yield_coro : Bool → Scheduler → Scheduler
yield_coro flag σ =
    let σ' = if flag then put_by_self σ.current σ else σ in
    switch_coro 0 (move_to_inactive σ.current σ')

unfoldable pub magnitude : ℤ → ℕ
magnitude (pos n) = n
magnitude (negsuc n) = n + 1

-- sleep(iSleepTime)
unfoldable pub sleep : ℤ → ℕ → Scheduler → Scheduler
sleep sleep_time now σ =
    let σ' = record σ {
      timeout_coro_id = insert_timeout (now + magnitude sleep_time) σ.current σ.timeout_coro_id;
    } in
    switch_coro 0 (move_to_timeout σ.current σ')

-- The end of corotineProc, behind the callback.
unfoldable pub finish : Scheduler → Scheduler
finish σ =
    switch_coro 0
      (move_to_free_list σ.current (record σ { used_size = (σ.used_size + 2 ^ 32 - 1) % 2 ^ 32 }))

unfoldable pub terminate : Scheduler → Scheduler
terminate σ = record σ { terminal = true }
