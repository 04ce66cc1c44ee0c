-- ===== src/Client/Invocation.antt =====
-- class AdapterProxy: the requests of an endpoint, from invoke to the answer, the timeout or the
-- failure, for connections that are shared (tars_connection_serial() is 0). A message that lies in
-- the queue is a copy under its address, since nothing changes it there; `ended` says in order what
-- was done with each message that left. An assert that fails is `none`.
pub mod Owned
pub mod Ready
pub mod Calls
pub mod Returns
pub mod Timeouts
pub mod Runs
mod Tests
use horse_rpc.Base.{
  ℕ, zero, suc, ◌+◌, Bool, true, false, not, ◌&&◌, Option, none, some, List, [], ◌∷◌, ◌++◌, ltb,
  leb, ◌==◌, if◌then◌else◌, length,
}
use horse_rpc.Base.Int.{ℤ, pos, negsuc}
use horse_rpc.Queues.TimeoutQueue.{
  TimeoutQueue, nothing, value, aborts, new, generate_id, send_list_empty, get_send_list_size,
  get_send, pop_send, erase, push, timeout_one,
}
use horse_rpc.Client.Adapter.{CheckTimeoutInfo, Adapter, finish_invoke}
use horse_rpc.Client.Messages.{
  CallType, sync_call, async_call, one_way, thread_exit, ReqStatus, req_req, req_rsp, req_time,
  req_exc, ReqMessage, ReturnStatus, ret_error, ret_ok, ret_full, ret_not_send, is_one_way, is_exc,
  is_req, has_failed, with_status,
}

-- What finishInvoke does with a message: delete, notify of the monitor, put of the coroutine,
-- dispatch of the callback, pushAsyncThreadQueue, or insert into the parallel calls.
pub data Ending : Type 0 where
  deletes notifies puts dispatches pushes inserts : Ending

pub record Invoker (T : Type 0) : Type 0 where
  pub adapter : Adapter T
  pub queue : TimeoutQueue ReqMessage
  pub ended : List (Ending × ReqMessage)

-- How a message that is not a one-way call ends; `none` is assert(msg->pMonitor) or assert(false).
unfoldable pub ending : ReqMessage → Option Ending
ending msg = elim msg.e_type [
  | sync_call ↦
      if msg.b_coro_flag then some puts else if msg.has_monitor then some notifies else none
  | async_call ↦ some (
      if msg.b_coro_flag
      then (if msg.coro_parallel then inserts else deletes)
      else if msg.net_thread_process
      then dispatches
      else pushes)
  | one_way ↦ none
  | thread_exit ↦ none
]

module _ {T : Type 0} where
  abbrev pub ends : Ending → ReqMessage → Invoker T → Invoker T
  ends how msg σ = record σ { ended = σ.ended ++ (how, msg) ∷ [] }

  abbrev pub with_queue : TimeoutQueue ReqMessage → Invoker T → Invoker T
  with_queue q σ = record σ { queue = q }

  abbrev pub with_trans : T → Invoker T → Invoker T
  with_trans t σ = record σ { adapter = record σ.adapter { trans = t } }

  -- popSend, and the delete of a one-way call.
  unfoldable pub pop_sent : ReqMessage → Invoker T → Option (Invoker T)
  pop_sent msg σ = elim (pop_send (is_one_way msg) σ.queue) [
    | none ↦ none
    | some q ↦ some (if is_one_way msg then ends deletes msg (with_queue q σ) else with_queue q σ)
  ]

module _ {T : Type 0} (close : T → T) (info : CheckTimeoutInfo)
    (send_request : T → ReqMessage → ReturnStatus × T) where
  -- The call of finishInvoke(bool): a message that failed on this side, and a push, do not count.
  unfoldable pub count_message : ℕ → ℕ → ReqMessage → Invoker T → Invoker T
  count_message now later msg σ =
      if not (is_exc msg.e_status) && not msg.b_push
      then record σ {
        adapter = finish_invoke close info now later (has_failed msg.i_ret) σ.adapter;
      }
      else σ

  -- finishInvoke(ReqMessage*); `now` and `later` are the times that finishInvoke(bool) reads.
  unfoldable pub finish_message : ℕ → ℕ → ReqMessage → Invoker T → Option (Invoker T)
  finish_message now later msg σ =
      if is_one_way msg then some (ends deletes msg σ) else elim (ending msg) [
        | none ↦ none
        | some how ↦ some (ends how msg (count_message now later msg σ))
      ]

  -- A message that goes into the queue, or fails.
  unfoldable pub enqueue : ℕ → ℕ → Bool → ReqMessage → Invoker T → Option (ℤ × Invoker T)
  enqueue now later has_send msg σ =
      let (pushed, q) = push msg msg.i_request_id msg.deadline has_send σ.queue in
      let failed = finish_message now later (with_status req_exc msg) (with_queue q σ) in
      if pushed
      then some (pos 0, with_queue q σ)
      else elim failed [ none ↦ none | some τ ↦ some (pos 0, τ) ]

  -- invoke_connection_parallel
  unfoldable pub invoke_connection_parallel :
      ℕ → ℕ → ReqMessage → Invoker T → Option (ℤ × Invoker T)
  invoke_connection_parallel now later msg σ =
      let (ret, t) = send_request σ.adapter.trans msg in
      let σ' = with_trans t σ in
      let sent =
        if is_one_way msg
        then some (pos 0, ends deletes msg σ')
        else enqueue now later true msg σ' in
      if send_list_empty σ.queue
      then elim ret [
        | ret_ok ↦ sent
        | ret_full ↦ sent
        | ret_error ↦ elim (finish_message now later (with_status req_exc msg) σ') [
          | none ↦ none
          | some τ ↦ some (negsuc 0, τ)
        ]
        | ret_not_send ↦ enqueue now later false msg σ'
      ]
      else enqueue now later false msg σ

  -- invoke, for the limit _noSendQueueLimit.
  unfoldable pub invoke : ℕ → ℕ → ℕ → ReqMessage → Invoker T → Option (ℤ × Invoker T)
  invoke limit now later msg σ =
      let (i, q) = generate_id σ.queue in
      let named = record msg { i_request_id = i } in
      if leb limit (get_send_list_size σ.queue)
      then elim (finish_message now later (with_status req_exc msg) σ) [
        | none ↦ none
        | some τ ↦ some (pos 0, τ)
      ]
      else if msg.b_from_rpc
      then invoke_connection_parallel now later msg σ
      else invoke_connection_parallel now later named (with_queue q σ)

  -- The loop of doInvoke_parallel. `none` is also the end of the fuel.
  unfoldable pub send_loop : ℕ → Invoker T → Option (Invoker T)
  send_loop zero σ = if send_list_empty σ.queue then some σ else none
  send_loop (suc fuel) σ = elim (get_send σ.queue) [
    | nothing ↦ some σ
    | aborts ↦ none
    | value msg ↦
        let (ret, t) = send_request σ.adapter.trans msg in
        let σ' = with_trans t σ in
        elim ret [
          | ret_error ↦ some σ'
          | ret_not_send ↦ some σ'
          | ret_full ↦ pop_sent msg σ'
          | ret_ok ↦ elim (pop_sent msg σ') [ none ↦ none | some τ ↦ send_loop fuel τ ]
        ]
  ]

  unfoldable pub do_invoke : Invoker T → Option (Invoker T)
  do_invoke σ = send_loop (get_send_list_size σ.queue) σ

  -- The message of a push from the server.
  abbrev pub push_message : Bool → ReqMessage
  push_message net_thread = record {
    address = 0;
    e_status = req_rsp;
    e_type = async_call;
    b_from_rpc = true;
    b_push = true;
    b_coro_flag = false;
    i_request_id = 0;
    deadline = 0;
    i_ret = pos 0;
    net_thread_process = net_thread;
    has_monitor = false;
    coro_parallel = false;
  }

  -- finishInvoke_parallel for a response with an id and a result; the push callback, when there is
  -- one, says whether it runs in the thread of the network.
  unfoldable pub finish_response : Option Bool → ℕ → ℕ → ℕ → ℤ → Invoker T → Option (Invoker T)
  finish_response callback now later id ret σ =
      if id == 0
      then elim callback [
        | none ↦ some σ
        | some net_thread ↦
            finish_message now later (record (push_message net_thread) { i_ret = ret }) σ
      ]
      else (let (found, q) = erase id σ.queue in
          elim found [
            | none ↦ some (with_queue q σ)
            | some msg ↦
                let answered = record msg { e_status = req_rsp; i_ret = ret } in
                if is_req msg.e_status
                then finish_message now later answered (with_queue q σ)
                else none
          ])

  -- The result of a call that has timed out.
  abbrev pub timed_out : ℕ → ReqMessage → ReqMessage
  timed_out conn_exc_cnt msg = record msg {
    e_status = req_time;
    i_ret = elim msg.e_type [
      | sync_call ↦ msg.i_ret
      | async_call ↦ if ltb 0 conn_exc_cnt then negsuc 7 else negsuc 6
      | one_way ↦ msg.i_ret
      | thread_exit ↦ msg.i_ret
    ];
  }

  -- doTimeout. `clock` gives the times of each round, by what is left of the fuel: TNOWMS for the
  -- queue, and the two of finishInvoke(bool). `none` is also the end of the fuel.
  unfoldable pub timeout_rounds : (ℕ → ℕ × ℕ × ℕ) → ℕ → Invoker T → Option (Invoker T)
  timeout_rounds clock zero σ = none
  timeout_rounds clock (suc fuel) σ =
      let (now_ms, now, later) = clock fuel in
      let (found, q) = timeout_one now_ms σ.queue in
      elim found [
        | none ↦ some (with_queue q σ)
        | some msg ↦
            elim (finish_message now later (timed_out σ.adapter.conn_exc_cnt msg)
              (with_queue q σ)) [ none ↦ none | some τ ↦ timeout_rounds clock fuel τ ]
      ]

  unfoldable pub do_timeout : (ℕ → ℕ × ℕ × ℕ) → Invoker T → Option (Invoker T)
  do_timeout clock σ = timeout_rounds clock (suc (length σ.queue.entries)) σ
