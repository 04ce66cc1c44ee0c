-- ===== src/Queues/LoopQueue.antt =====
-- class TC_LoopQueue of src/include/client/util/tc_loop_queue.h: a ring of fixed size, used between
-- one producer and one consumer. `begin` is where the next element is written, `end` where the
-- next one is read. The memory that malloc returns holds arbitrary elements.
pub mod Refinement
pub mod Views
pub mod Calls
pub mod Runs
use horse_rpc.Base.{
  ℕ, zero, suc, ◌+◌, ◌-◌, ◌%◌, ◌^◌, Bool, true, false, ◌&&◌, ◌||◌, not, Option, none, some, List,
  [], ◌∷◌, ltb, ◌==◌, if◌then◌else◌, length, get_elem?, set,
}

pub record LoopQueue {ℓ} (A : Type ℓ) : Type ℓ where
  pub slots : List A
  pub capacity : ℕ
  pub capacity_sub : ℕ
  pub begin : ℕ
  pub end : ℕ

-- A difference of two values of size_t.
abbrev pub minus : ℕ → ℕ → ℕ
minus a b = (a + 2 ^ 64 - b) % 2 ^ 64

module _ {ℓ} {A : Type ℓ} where
  -- TC_LoopQueue(iSize), over the memory that malloc returns.
  unfoldable pub new : List A → ℕ → LoopQueue A
  new memory size = record {
    slots = memory;
    capacity = (size + 1) % 2 ^ 64;
    capacity_sub = size;
    begin = 0;
    end = 0;
  }

  unfoldable pub size : LoopQueue A → ℕ
  size q = if ltb q.begin q.end then minus (q.begin + q.capacity) q.end else minus q.begin q.end

  unfoldable pub empty : LoopQueue A → Bool
  empty q = q.end == q.begin

  -- The step of an index, which goes round behind the last slot.
  unfoldable pub next : LoopQueue A → ℕ → ℕ
  next q i = if i == q.capacity_sub then 0 else i + 1

  -- memcpy(_p+_iBegin, &t, sizeof(T)), and the step of _iBegin.
  unfoldable pub store : A → LoopQueue A → LoopQueue A
  store t q = record q { slots = set q.slots q.begin t; begin = next q q.begin }

  -- The test that refuses an element.
  unfoldable pub full : LoopQueue A → Bool
  full q =
      ltb q.begin q.end && ltb (minus q.end q.begin) 2
      || ltb q.end q.begin && ltb (minus q.capacity 2) (minus q.begin q.end)

  -- push_back(t, bEmpty): what it returns, bEmpty, and the queue.
  unfoldable pub push_back : A → LoopQueue A → Bool × Bool × LoopQueue A
  push_back t q =
      if full q
      then (false, false, q)
      else (let q' = store t q in
          let was_empty = q.end == q.begin in (true, was_empty || size q' == 1, q'))

  -- The test that refuses `n` elements.
  unfoldable pub refuses : ℕ → LoopQueue A → Bool
  refuses n q =
      ltb (minus q.capacity 1) n
      || ltb q.begin q.end && ltb (minus q.end q.begin) (n + 1)
      || ltb q.end q.begin && ltb (minus (minus q.capacity n) 1) (minus q.begin q.end)

  unfoldable pub store_all : List A → LoopQueue A → LoopQueue A
  store_all [] q = q
  store_all (t ∷ ts) q = store_all ts (store t q)

  -- push_back(const queue_type& vt)
  unfoldable pub push_back_all : List A → LoopQueue A → Bool × LoopQueue A
  push_back_all ts q = if refuses (length ts) q then (false, q) else (true, store_all ts q)

  -- pop_front(t): `none` for false, and the queue.
  unfoldable pub pop_front : LoopQueue A → Option A × LoopQueue A
  pop_front q =
      if q.end == q.begin
      then (none, q)
      else (get_elem? q.slots q.end, record q { end = next q q.end })

  unfoldable pub get_front : LoopQueue A → Option A
  get_front q = if q.end == q.begin then none else get_elem? q.slots q.end
