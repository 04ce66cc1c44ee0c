-- ===== src/Client/Connection.antt =====
-- class Transceiver, the state of its connection, and AdapterProxy::checkActive, which reconnects.
-- The file descriptor -1 is none. The clocks TNOWMS and TNOW are arguments, and so is what the
-- sockets answer to a connect. Callbacks to the ObjectProxy and the epoll are left out.
pub mod Valid
pub mod Checks
use horse_rpc.Base.{
  ℕ, ◌+◌, Bool, true, false, not, ◌&&◌, ◌||◌, Option, none, some, ltb, if◌then◌else◌,
}
use horse_rpc.Net.Buffer.{NetWorkBuffer, new}
use horse_rpc.Client.Adapter.{CheckTimeoutInfo, Adapter, set_con_timeout, add_conn_exc}

pub data ConnectStatus : Type 0 where
  unconnected : ConnectStatus
  connecting : ConnectStatus
  connected : ConnectStatus

pub record Transceiver : Type 0 where
  pub fd : Option ℕ
  pub conn_status : ConnectStatus
  pub con_timeout_time : ℕ
  pub send_buffer : NetWorkBuffer
  pub recv_buffer : NetWorkBuffer

abbrev pub created : Transceiver
created = record {
  fd = none;
  conn_status = unconnected;
  con_timeout_time = 0;
  send_buffer = new;
  recv_buffer = new;
}

unfoldable pub has_fd : Option ℕ → Bool
has_fd none = false
has_fd (some _) = true

unfoldable pub is : ConnectStatus → ConnectStatus → Bool
is unconnected unconnected = true
is connecting connecting = true
is connected connected = true
is _ _ = false

unfoldable pub is_valid : Transceiver → Bool
is_valid t = has_fd t.fd

unfoldable pub has_connected : Transceiver → Bool
has_connected t = is_valid t && is connected t.conn_status

unfoldable pub is_connecting : Transceiver → Bool
is_connecting t = is_valid t && is connecting t.conn_status

unfoldable pub close : Transceiver → Transceiver
close t =
    if is_valid t
    then record t { fd = none; conn_status = unconnected; send_buffer = new; recv_buffer = new }
    else t

-- What the sockets answer to connect: an exception, or the descriptor of the new socket and
-- whether it is connected at once.
pub data Answer : Type 0 where
  throws : Answer
  opens : ℕ → Bool → Answer

module _ (info : CheckTimeoutInfo) where
  -- setConnected
  unfoldable pub set_connected : ℕ → Adapter Transceiver → Adapter Transceiver
  set_connected now a =
      let b = record a { trans = record a.trans { conn_status = connected } } in
      add_conn_exc close info now false (set_con_timeout close info now false b)

  -- checkTimeout; `now_ms` is the time in milliseconds.
  unfoldable pub check_timeout : ℕ → ℕ → Adapter Transceiver → Adapter Transceiver
  check_timeout now now_ms a =
      if is connecting a.trans.conn_status && ltb a.trans.con_timeout_time now_ms
      then (let b = set_con_timeout close info now true a in record b { trans = close b.trans })
      else a

  -- connect with a new socket: setConnected or the wait for it, then the descriptor.
  unfoldable pub opened : ℕ → ℕ → ℕ → Bool → Adapter Transceiver → Adapter Transceiver
  opened now deadline fd at_once a =
      let b = if at_once then set_connected now a else record a {
        trans = record a.trans { conn_status = connecting; con_timeout_time = deadline };
      } in
      record b { trans = record b.trans { fd = some fd } }

  -- connect, where it is not to return at once: reconnect and the handler of its exception.
  unfoldable pub reconnect : ℕ → ℕ → Answer → Adapter Transceiver → Adapter Transceiver
  reconnect now deadline throws a = record a { active_status = false; trans = close a.trans }
  reconnect now deadline (opens fd at_once) a = opened now deadline fd at_once a

  -- if (!isValid()) reconnect, with the test of the status in connect.
  unfoldable pub ensure : ℕ → ℕ → Answer → Adapter Transceiver → Adapter Transceiver
  ensure now deadline answer a =
      if is_valid a.trans || not (is unconnected a.trans.conn_status)
      then a
      else reconnect now deadline answer a

  -- checkActive(bForceConnect), behind the call of checkTimeout.
  unfoldable pub check_connection :
      Bool → ℕ → ℕ → Answer → Adapter Transceiver → Bool × Adapter Transceiver
  check_connection force now deadline answer a =
      if force
      then (if is_connecting a.trans || has_connected a.trans
          then (true, a)
          else (let b =
                ensure now deadline answer
                  (record a { next_retry_time = now + info.try_time_interval }) in
              (has_connected b.trans || is_connecting b.trans, b)))
      else if not a.active_status && ltb now a.next_retry_time
      then (false, a)
      else (let b = ensure now deadline answer (
            if a.active_status
            then a
            else record a { next_retry_time = now + info.try_time_interval }) in
          (has_connected b.trans, b))

  -- checkActive
  unfoldable pub check_active :
      Bool → ℕ → ℕ → ℕ → Answer → Adapter Transceiver → Bool × Adapter Transceiver
  check_active force now now_ms deadline answer a =
      check_connection force now deadline answer (check_timeout now now_ms a)

  -- The part of handleInputImp and handleOutputImp about a connection that is being made, where
  -- `fails` is whether getsockopt reports an error.
  unfoldable pub handle_connecting : ℕ → Bool → Adapter Transceiver → Adapter Transceiver
  handle_connecting now fails a =
      if is_connecting a.trans
      then (if fails
          then add_conn_exc close info now true (record a { trans = close a.trans })
          else set_connected now a)
      else a
