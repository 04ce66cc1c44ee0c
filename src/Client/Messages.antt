-- ===== src/Client/Messages.antt =====
-- ReqMessage of src/include/client/Message.h, with what AdapterProxy asks of it.
use horse_rpc.Base.{ℕ, Bool, true, false, not, ◌==◌}
use horse_rpc.Base.Int.{ℤ, pos, negsuc}

-- ReqMessage::CallType and ReqMessage::ReqStatus
pub data CallType : Type 0 where
  sync_call async_call one_way thread_exit : CallType

pub data ReqStatus : Type 0 where
  req_req req_rsp req_time req_exc : ReqStatus

-- `deadline` is request.iTimeout + iBeginTime, `i_ret` is response->iRet, `net_thread_process` is
-- callback->getNetThreadProcess(), `has_monitor` says that pMonitor is set, and `coro_parallel` that
-- getCoroParallelBasePtr() is. The pointers `callback` and `sched` are set where they are followed.
pub record ReqMessage : Type 0 where
  pub address : ℕ
  pub e_status : ReqStatus
  pub e_type : CallType
  pub b_from_rpc : Bool
  pub b_push : Bool
  pub b_coro_flag : Bool
  pub i_request_id : ℕ
  pub deadline : ℕ
  pub i_ret : ℤ
  pub net_thread_process : Bool
  pub has_monitor : Bool
  pub coro_parallel : Bool

-- Transceiver::ReturnStatus
pub data ReturnStatus : Type 0 where
  ret_error ret_ok ret_full ret_not_send : ReturnStatus

abbrev pub is_one_way : ReqMessage → Bool
is_one_way msg = elim msg.e_type [
  | sync_call ↦ false
  | async_call ↦ false
  | one_way ↦ true
  | thread_exit ↦ false
]

abbrev pub is_exc : ReqStatus → Bool
is_exc s = elim s [ req_req ↦ false | req_rsp ↦ false | req_time ↦ false | req_exc ↦ true ]

abbrev pub is_req : ReqStatus → Bool
is_req s = elim s [ req_req ↦ true | req_rsp ↦ false | req_time ↦ false | req_exc ↦ false ]

-- iRet != TARSSERVERSUCCESS
abbrev pub has_failed : ℤ → Bool
has_failed (pos n) = not (n == 0)
has_failed (negsuc n) = true

abbrev pub with_status : ReqStatus → ReqMessage → ReqMessage
with_status s msg = record msg { e_status = s }
