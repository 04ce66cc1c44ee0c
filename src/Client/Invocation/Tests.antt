-- ===== src/Client/Invocation/Tests.antt =====
-- A request that is sent, and its answer or its timeout.
use horse_rpc.Base.{
  ℕ, ◌+◌, ◌≡◌, ◌≤◌, refl, true, false, none, some, List, [], ◌∷◌, ◌++◌, leb, arith,
}
use horse_rpc.Base.Int.{pos}
use horse_rpc.Queues.TimeoutQueue.{
  new, generate_id, find, insert_time, push, send_list_empty, get_send_list_size,
}
use horse_rpc.Client.Adapter.{CheckTimeoutInfo, Adapter}
use horse_rpc.Client.Messages.{ReqMessage, req_req, sync_call, ReturnStatus, ret_ok}
use horse_rpc.Client.Invocation.{Invoker, invoke, invoke_connection_parallel, enqueue, do_timeout}
use horse_rpc.Client.Invocation.Owned.{held, over}
use horse_rpc.Base.Succeeds.{Succeeds}
use horse_rpc.Client.Invocation.Runs.{
  Call, invokes, answers, start, invoked, perform, run_calls, run_calls-invoked, do_timeout-invoked,
}

abbrev info : CheckTimeoutInfo
info = record {
  min_timeout_invoke = 2;
  check_timeout_interval = 60;
  frequence_fail_invoke = 5;
  min_frequence_fail_time = 5;
  radio_reached = λ timeouts total. leb total (timeouts + timeouts);
  try_time_interval = 10;
  max_connect_exc = 1;
}

-- A connection is the number of messages that it was given.
abbrev close : ℕ → ℕ
close n = 0

abbrev send_request : ℕ → ReqMessage → ReturnStatus × ℕ
send_request n msg = (ret_ok, n + 1)

abbrev connected : Adapter ℕ
connected = record {
  trans = 0;
  active_status = true;
  total_invoke = 0;
  timeout_invoke = 0;
  next_finish_invoke_time = 100;
  frequence_fail = 0;
  frequence_fail_time = 0;
  next_retry_time = 0;
  conn_timeout = false;
  conn_exc = false;
  conn_exc_cnt = 0;
}

abbrev request : ℕ → ReqMessage
request id = record {
  address = 7;
  e_status = req_req;
  e_type = sync_call;
  b_from_rpc = false;
  b_push = false;
  b_coro_flag = false;
  i_request_id = id;
  deadline = 50;
  i_ret = pos 1;
  net_thread_process = false;
  has_monitor = true;
  coro_parallel = false;
}

abbrev one_call : List Call
one_call = invokes 10 10 (request 0) ∷ []

abbrev sent : Invoker ℕ
sent = record {
  adapter = record connected { trans = 1 };
  queue = record {
    uniq_id = 1;
    entries = record { id = 1; ptr = request 1; has_send = true } ∷ [];
    time = record { time = 50; data_iter = 1 } ∷ [];
    send = [];
  };
  ended = [];
}

one_call-sent : run_calls close info send_request 100 one_call (start connected) ≡ some sent
unfolding run_calls perform invoke get_send_list_size new invoke_connection_parallel send_list_empty
    generate_id enqueue push find insert_time
one_call-sent = refl

run_calls-invoked_example :
    Succeeds
      (λ (σ : Invoker ℕ).
        (p : ℕ)
        → held p σ.queue.entries + over p σ.ended
          ≡ invoked p (one_call ++ answers none 11 11 1 (pos 0) ∷ []))
      (run_calls close info send_request 100
        (one_call ++ answers none 11 11 1 (pos 0) ∷ [])
        (start connected))
run_calls-invoked_example =
    run_calls-invoked close info send_request 100 (one_call ++ answers none 11 11 1 (pos 0) ∷ [])
      connected (refl, (tt, tt))

abbrev at_60 : ℕ → ℕ × ℕ × ℕ
at_60 k = (60, 12, 12)

reached : (k : ℕ) → 50 ≤ (at_60 k).0
reached k = omega arith

do_timeout-invoked_example :
    Succeeds
      (λ (τ : Invoker ℕ). (τ.queue.entries ≡ []) × ((p : ℕ) → over p τ.ended ≡ invoked p one_call))
      (do_timeout close info send_request at_60 sent)
do_timeout-invoked_example =
    do_timeout-invoked close info send_request 100 one_call connected sent 50 at_60 (refl, tt)
      one_call-sent (omega arith, tt) reached
