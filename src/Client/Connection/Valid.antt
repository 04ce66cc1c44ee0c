-- ===== src/Client/Connection/Valid.antt =====
-- The descriptor and the status of a connection agree.
use horse_rpc.Base.{ℕ, ◌+◌, ◌≡◌, refl, Bool, true, false, not, arith}
use horse_rpc.Client.Adapter.{
  CheckTimeoutInfo, Adapter, set_inactive, recover, count_call, end_interval, finish_invoke,
  set_con_timeout, add_conn_exc,
}
use horse_rpc.Client.Adapter.Flags.{initial}
use horse_rpc.Client.Connection.{
  Transceiver, created, Answer, throws, opens, is, is_valid, is_connecting, has_fd, close,
  set_connected, check_timeout, opened, reconnect, ensure, check_connection, check_active,
  handle_connecting, unconnected, connected,
}

-- One call of a member function that reads or changes the connection.
pub data Step (info : CheckTimeoutInfo) : Adapter Transceiver → Adapter Transceiver → Type 0 where
  checks :
      (a : Adapter Transceiver) (force : Bool) (now now_ms deadline : ℕ) (answer : Answer)
      → Step info a ((check_active info force now now_ms deadline answer a).1)
  handles :
      (a : Adapter Transceiver) (now : ℕ) (fails : Bool)
      → Step info a (handle_connecting info now fails a)
  finishes :
      (a : Adapter Transceiver) (now later : ℕ) (fail : Bool)
      → Step info a (finish_invoke close info now later fail a)
  shuts_off : (a : Adapter Transceiver) (now : ℕ) → Step info a (set_inactive close info now a)
  closes : (a : Adapter Transceiver) → Step info a (record a { trans = close a.trans })

pub data Reach (info : CheckTimeoutInfo) : Adapter Transceiver → Type 0 where
  start : Reach info (initial created)
  next : {a b : Adapter Transceiver} → Reach info a → Step info a b → Reach info b

-- There is a descriptor exactly when the status is not eUnconnected.
unfoldable pub Agrees : Transceiver → Type 0
Agrees t = is_valid t ≡ not (is unconnected t.conn_status)

pub close-Agrees : (t : Transceiver) → Agrees t → Agrees (close t)
unfolding Agrees close is is_valid has_fd
close-Agrees t h = ground arith

module _ (info : CheckTimeoutInfo) where
  set_inactive-Agrees :
      (now : ℕ) (a : Adapter Transceiver)
      → Agrees a.trans
      → Agrees (set_inactive close info now a).trans
  unfolding set_inactive
  set_inactive-Agrees now a h = close-Agrees a.trans h

  finish_invoke-Agrees :
      (now later : ℕ) (fail : Bool) (a : Adapter Transceiver)
      → Agrees a.trans
      → Agrees (finish_invoke close info now later fail a).trans
  unfolding finish_invoke recover count_call end_interval set_inactive
  finish_invoke-Agrees now later fail a h = ground (arith, close-Agrees a.trans h)

  add_conn_exc-Agrees :
      (now : ℕ) (exc : Bool) (a : Adapter Transceiver)
      → Agrees a.trans
      → Agrees (add_conn_exc close info now exc a).trans
  unfolding add_conn_exc set_inactive
  add_conn_exc-Agrees now exc a h = ground (arith, close-Agrees a.trans h)

  set_connected-status :
      (now : ℕ) (a : Adapter Transceiver)
      → (set_connected info now a).trans ≡ record a.trans { conn_status = connected }
  unfolding set_connected add_conn_exc set_con_timeout
  set_connected-status now a = refl

  pub check_timeout-Agrees :
      (now now_ms : ℕ) (a : Adapter Transceiver)
      → Agrees a.trans
      → Agrees (check_timeout info now now_ms a).trans
  unfolding check_timeout set_con_timeout set_inactive
  check_timeout-Agrees now now_ms a h =
      ground (arith, close-Agrees a.trans h, close-Agrees (close a.trans) (close-Agrees a.trans h))

  handle_connecting-Agrees :
      (now : ℕ) (fails : Bool) (a : Adapter Transceiver)
      → Agrees a.trans
      → Agrees (handle_connecting info now fails a).trans
  unfolding handle_connecting is_connecting set_connected add_conn_exc set_con_timeout set_inactive
      close Agrees is is_valid has_fd
  handle_connecting-Agrees now fails a h = ground arith

  opened-Agrees :
      (now deadline fd : ℕ) (at_once : Bool) (a : Adapter Transceiver)
      → Agrees (opened info now deadline fd at_once a).trans
  unfolding opened set_connected add_conn_exc set_con_timeout Agrees is is_valid has_fd
  opened-Agrees now deadline fd true a = refl
  opened-Agrees now deadline fd false a = refl

  reconnect-Agrees :
      (now deadline : ℕ) (answer : Answer) (a : Adapter Transceiver)
      → Agrees a.trans
      → Agrees (reconnect info now deadline answer a).trans
  unfolding reconnect
  reconnect-Agrees now deadline throws a h = close-Agrees a.trans h
  reconnect-Agrees now deadline (opens fd at_once) a h = opened-Agrees now deadline fd at_once a

  ensure-Agrees :
      (now deadline : ℕ) (answer : Answer) (a : Adapter Transceiver)
      → Agrees a.trans
      → Agrees (ensure info now deadline answer a).trans
  unfolding ensure
  ensure-Agrees now deadline answer a h = ground (arith, reconnect-Agrees now deadline answer a h)

  check_connection-Agrees :
      (force : Bool) (now deadline : ℕ) (answer : Answer) (a : Adapter Transceiver)
      → Agrees a.trans
      → Agrees (check_connection info force now deadline answer a).1.trans
  unfolding check_connection
  check_connection-Agrees force now deadline answer a h =
      let b : Adapter Transceiver = record a { next_retry_time = now + info.try_time_interval } in
      ground (arith, ensure-Agrees now deadline answer a h, ensure-Agrees now deadline answer b h)

  check_active-Agrees :
      (force : Bool) (now now_ms deadline : ℕ) (answer : Answer) (a : Adapter Transceiver)
      → Agrees a.trans
      → Agrees (check_active info force now now_ms deadline answer a).1.trans
  unfolding check_active
  check_active-Agrees force now now_ms deadline answer a h =
      check_connection-Agrees force now deadline answer (check_timeout info now now_ms a)
        (check_timeout-Agrees now now_ms a h)

  Step-Agrees : {a b : Adapter Transceiver} → Step info a b → Agrees a.trans → Agrees b.trans
  Step-Agrees (checks a force now now_ms deadline answer) h =
      check_active-Agrees force now now_ms deadline answer a h
  Step-Agrees (handles a now fails) h = handle_connecting-Agrees now fails a h
  Step-Agrees (finishes a now later fail) h = finish_invoke-Agrees now later fail a h
  Step-Agrees (shuts_off a now) h = set_inactive-Agrees now a h
  Step-Agrees (closes a) h = close-Agrees a.trans h

  -- In every state that a new endpoint reaches by checkActive, the handling of connects, the
  -- results of calls, setInactive and close, the transceiver has a descriptor exactly when its
  -- status is not eUnconnected.
  pub Reach-Agrees : (a : Adapter Transceiver) → Reach info a → Agrees a.trans
  unfolding initial Agrees is is_valid has_fd
  Reach-Agrees a start = refl
  Reach-Agrees a (next r s) = Step-Agrees s (Reach-Agrees _ r)
