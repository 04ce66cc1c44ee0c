-- ===== src/Queues/Tests.antt =====
-- Runs of the queues on small inputs.
use horse_rpc.Base.{
  ℕ, ◌-◌, ◌^◌, ◌≤◌, ◌<◌, ◌≢◌, if◌then◌else◌, subst, ◌==◌, ◌++◌, Bool, ◌≡◌, refl, true, false, none,
  some, List, [], ◌∷◌, arith, replicate,
}
use horse_rpc.Queues.TimeoutQueue
use horse_rpc.Queues.TimeoutQueue.{TimeoutQueue, Entry, value}
use horse_rpc.Queues.TimeoutQueue.Expiry.{due}
use horse_rpc.Queues.TimeoutQueue.Reach.{Reach, start, next as after, pushes, Inv, Reach-Inv}
use horse_rpc.Queues.TimeoutQueue.Order.{send_all, send_all-push}
use horse_rpc.Queues.TimeoutQueue.Requests.{get-push, find-timeout, generate_id-fresh}
use horse_rpc.Queues.LoopQueue.{
  new, size, next, store, full, push_back, refuses, store_all, push_back_all, pop_front, empty,
}
use horse_rpc.Queues.LoopQueue.Runs.{run-list_run}
use horse_rpc.Queues.LoopQueue.Calls.{
  Operation, push, push_all, pop, pushed, pushed_all, element, run, list_run, perform,
}

-- Three slots of memory, for two elements.
abbrev memory : List ℕ
memory = replicate 3 0

abbrev calls : List (Operation ℕ)
calls = push 7 ∷ push 8 ∷ push 9 ∷ pop ∷ push_all (5 ∷ []) ∷ pop ∷ pop ∷ pop ∷ []

run-list_run_example : run calls (new memory 2) ≡ list_run 2 calls []
run-list_run_example = run-list_run memory 2 calls (omega arith) (omega arith) refl

outputs :
    run calls (new memory 2)
    ≡ pushed true true
      ∷ pushed true false
      ∷ pushed false false
      ∷ element (some 7)
      ∷ pushed_all true
      ∷ element (some 8)
      ∷ element (some 5)
      ∷ element none
      ∷ []
unfolding run perform push_back push_back_all pop_front store store_all full refuses next size new
    empty
outputs = refl

abbrev two_calls : List (Operation ℕ)
two_calls = push 7 ∷ pop ∷ []

-- With iSize 0 an element is taken and lost.
no_room : run two_calls (new (0 ∷ []) 0) ≡ pushed true true ∷ element none ∷ []
unfolding run perform push_back pop_front store full next size new empty
no_room = refl

-- A queue with the request 5, which waits to be sent and has the deadline 100.
abbrev fresh : TimeoutQueue ℕ
fresh = TimeoutQueue.new

abbrev one_request : TimeoutQueue ℕ
one_request = record {
  uniq_id = 0;
  entries = record { id = 5; ptr = 42; has_send = false } ∷ [];
  time = record { time = 100; data_iter = 5 } ∷ [];
  send = 5 ∷ [];
}

pushed_one : (TimeoutQueue.push 42 5 100 false fresh).1 ≡ one_request
unfolding TimeoutQueue.push TimeoutQueue.find TimeoutQueue.new TimeoutQueue.insert_time
pushed_one = refl

one_request-Reach : Reach one_request
one_request-Reach = subst Reach pushed_one (after start (pushes fresh 42 5 100 false))

not_stored : TimeoutQueue.find 6 one_request.entries ≡ none
unfolding TimeoutQueue.find
not_stored = refl

Reach-Inv_example : Inv one_request
Reach-Inv_example = Reach-Inv one_request one_request-Reach

get-push_example :
    TimeoutQueue.get 6 true (TimeoutQueue.push 43 6 90 false one_request).1 ≡ (some 43, one_request)
get-push_example = get-push one_request 43 6 90 false one_request-Reach not_stored

-- The request 6 is a one-way call, which popSend deletes.
abbrev is_deleted : ℕ → Bool
is_deleted ptr = ptr == 43

send_all-push_example :
    (sent : List ℕ) × (send_all is_deleted (TimeoutQueue.get_send_list_size one_request) one_request
      ≡ some sent)
    × (send_all is_deleted
          (TimeoutQueue.get_send_list_size (TimeoutQueue.push 43 6 90 false one_request).1)
          (TimeoutQueue.push 43 6 90 false one_request).1
        ≡ some (sent ++ 43 ∷ []))
send_all-push_example = send_all-push is_deleted one_request 43 6 90 one_request-Reach not_stored

find-timeout_example :
    TimeoutQueue.find 5 (TimeoutQueue.timeout 100 one_request).entries
    ≡ (if due 100 5 one_request.time then none else TimeoutQueue.find 5 one_request.entries)
find-timeout_example = find-timeout one_request 100 5 one_request-Reach

-- The counter wraps behind 2^32 - 1, and 0 is left out.
abbrev last_id : TimeoutQueue ℕ
last_id = record fresh { uniq_id = 2 ^ 32 - 1 }

generate_id-fresh_example :
    (1 ≤ (TimeoutQueue.generate_id last_id).0)
    × ((TimeoutQueue.generate_id last_id).0 < 2 ^ 32)
    × ((TimeoutQueue.generate_id last_id).0 ≢ last_id.uniq_id)
    × ((TimeoutQueue.generate_id last_id).1.uniq_id ≡ (TimeoutQueue.generate_id last_id).0)
generate_id-fresh_example = generate_id-fresh last_id (omega arith)
