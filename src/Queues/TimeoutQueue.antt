-- ===== src/Queues/TimeoutQueue.antt =====
-- class TC_TimeoutQueueNew of src/include/client/util/tc_timeout_queue_new.h: the requests of a
-- connection by id, with the multimap of their deadlines and the list of those not sent yet.
-- An iterator into a container is the id of the node that it points to; the invariant of
-- TimeoutQueue.Valid says that no container has two nodes of one id. A time is an int64_t, kept as
-- the number that is greater by 2^63, so that times compare as these numbers do.
pub mod Counts
pub mod Valid
pub mod Sends
pub mod Reach
pub mod Order
pub mod Requests
pub mod Expiry
use horse_rpc.Base.{
  ℕ, zero, suc, ◌+◌, ◌%◌, ◌^◌, Bool, true, false, Option, none, some, List, [], ◌∷◌, ◌++◌, ltb,
  ◌==◌, if◌then◌else◌, length,
}

-- PtrInfo with its key, and NodeInfo with its time.
pub record Entry {ℓ} (A : Type ℓ) : Type ℓ where
  pub id : ℕ
  pub ptr : A
  pub has_send : Bool

pub record Node : Type 0 where
  pub time : ℕ
  pub data_iter : ℕ

-- `entries` is _data. `send` holds the nodes of _send from its back to its front: the oldest first.
pub record TimeoutQueue {ℓ} (A : Type ℓ) : Type ℓ where
  pub uniq_id : ℕ
  pub entries : List (Entry A)
  pub time : List Node
  pub send : List ℕ

-- What getSend does: false, true with a value, or the failure of its assert.
pub data Sending {ℓ} (A : Type ℓ) : Type ℓ where
  nothing : Sending A
  value : A → Sending A
  aborts : Sending A

-- erase(iterator): the one node of an id.
unfoldable pub remove {ℓ} : {A : Type ℓ} → (A → ℕ) → ℕ → List A → List A
remove key id [] = []
remove key id (x ∷ xs) = let rest = remove key id xs in if key x == id then xs else x ∷ rest

-- multimap::insert: behind the nodes of the same time.
unfoldable pub insert_time : Node → List Node → List Node
insert_time n [] = n ∷ []
insert_time n (m ∷ ms) =
    let rest = insert_time n ms in if ltb n.time m.time then n ∷ m ∷ ms else m ∷ rest

module _ {ℓ} {A : Type ℓ} where
  unfoldable pub new : TimeoutQueue A
  new = record { uniq_id = 0; entries = []; time = []; send = [] }

  unfoldable pub generate_id : TimeoutQueue A → ℕ × TimeoutQueue A
  generate_id q =
      let i = (q.uniq_id + 1) % 2 ^ 32 in
      let j = if i == 0 then (i + 1) % 2 ^ 32 else i in (j, record q { uniq_id = j })

  unfoldable pub find : ℕ → List (Entry A) → Option (Entry A)
  find id [] = none
  find id (e ∷ es) = let rest = find id es in if e.id == id then some e else rest

  unfoldable pub mark_sent : ℕ → List (Entry A) → List (Entry A)
  mark_sent id [] = []
  mark_sent id (e ∷ es) =
      let rest = mark_sent id es in
      if e.id == id then record e { has_send = true } ∷ es else e ∷ rest

  unfoldable pub send_list_empty : TimeoutQueue A → Bool
  send_list_empty q = elim q.send [ [] ↦ true | x ∷ xs ↦ false ]

  unfoldable pub get_send_list_size : TimeoutQueue A → ℕ
  get_send_list_size q = length q.send

  unfoldable pub size : TimeoutQueue A → ℕ
  size q = length q.entries

  unfoldable pub get_send : TimeoutQueue A → Sending A
  get_send q = elim q.send [
    | [] ↦ nothing
    | id ∷ ids ↦ elim (find id q.entries) [
      | none ↦ aborts
      | some e ↦ if e.has_send then aborts else value e.ptr
    ]
  ]

  -- erase(it) for the node of an id, out of all three containers.
  unfoldable pub discard : ℕ → Entry A → TimeoutQueue A → TimeoutQueue A
  discard id e q = record q {
    entries = remove (λ x. x.id) id q.entries;
    time = remove (λ n. n.data_iter) id q.time;
    send = if e.has_send then q.send else remove (λ x. x) id q.send;
  }

  -- popSend(del), where `id` is at _send.back() and `ids` are the others.
  unfoldable pub pop_back : Bool → ℕ → List ℕ → TimeoutQueue A → TimeoutQueue A
  pop_back del id ids q =
      if del
      then record q {
        entries = remove (λ x. x.id) id q.entries;
        time = remove (λ n. n.data_iter) id q.time;
        send = ids;
      }
      else record q { entries = mark_sent id q.entries; send = ids }

  -- `none` is the failure of the assert.
  unfoldable pub pop_send : Bool → TimeoutQueue A → Option (TimeoutQueue A)
  pop_send del q = elim q.send [ [] ↦ none | id ∷ ids ↦ some (pop_back del id ids q) ]

  -- get(uniqId, t, bErase): `none` for false.
  unfoldable pub get : ℕ → Bool → TimeoutQueue A → Option A × TimeoutQueue A
  get id b_erase q = elim (find id q.entries) [
    | none ↦ (none, q)
    | some e ↦ (some e.ptr, if b_erase then discard id e q else q)
  ]

  unfoldable pub erase : ℕ → TimeoutQueue A → Option A × TimeoutQueue A
  erase id q = elim (find id q.entries) [ none ↦ (none, q) | some e ↦ (some e.ptr, discard id e q) ]

  -- push(ptr, uniqId, timeout, hasSend)
  unfoldable pub push : A → ℕ → ℕ → Bool → TimeoutQueue A → Bool × TimeoutQueue A
  push ptr id timeout has_send q = elim (find id q.entries) [
    | some e ↦ (false, q)
    | none ↦ (
      true,
      record q {
        entries = record { id = id; ptr = ptr; has_send = has_send } ∷ q.entries;
        time = insert_time (record { time = timeout; data_iter = id }) q.time;
        send = if has_send then q.send else q.send ++ id ∷ [];
      },
    )
  ]

  -- One round of the loops: the node at _time.begin() has expired.
  unfoldable pub expire : ℕ → List Node → TimeoutQueue A → TimeoutQueue A
  expire id rest q = elim (find id q.entries) [
    | none ↦ record q { time = rest }
    | some e ↦ record q {
      entries = remove (λ x. x.id) id q.entries;
      time = rest;
      send = if e.has_send then q.send else remove (λ x. x) id q.send;
    }
  ]

  -- timeout(): `nodes` is _time at the start of a round.
  unfoldable pub timeout_loop : ℕ → List Node → TimeoutQueue A → TimeoutQueue A
  timeout_loop now [] q = q
  timeout_loop now (n ∷ ns) q =
      let rest = timeout_loop now ns (expire n.data_iter ns q) in if ltb now n.time then q else rest

  unfoldable pub timeout : ℕ → TimeoutQueue A → TimeoutQueue A
  timeout now q = timeout_loop now q.time q

  -- timeout(t): one expired node, `none` for false.
  unfoldable pub timeout_one : ℕ → TimeoutQueue A → Option A × TimeoutQueue A
  timeout_one now q = elim q.time [
    | [] ↦ (none, q)
    | n ∷ ns ↦ if ltb now n.time then (none, q) else elim (find n.data_iter q.entries) [
      | none ↦ (none, record q { time = ns })
      | some e ↦ (some e.ptr, expire n.data_iter ns q)
    ]
  ]
