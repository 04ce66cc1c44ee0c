-- ===== src/Client/Connection/Checks.antt =====
-- What checkActive answers, with a forced connect and without.
use horse_rpc.Base.{ℕ, ◌+◌, ◌≡◌, refl, ltb, Bool, true, false, not, ◌&&◌, ◌||◌, arith}
use horse_rpc.Client.Adapter.{CheckTimeoutInfo, Adapter, set_con_timeout, add_conn_exc}
use horse_rpc.Client.Connection.{
  Transceiver, Answer, throws, opens, is, is_valid, is_connecting, has_connected, has_fd, close,
  set_connected, check_timeout, opened, reconnect, ensure, check_connection, check_active,
}
use horse_rpc.Client.Connection.Valid.{Reach, Agrees, Reach-Agrees, check_timeout-Agrees}

-- A connection is made or being made.
unfoldable pub usable : Transceiver → Bool
usable t = is_connecting t || has_connected t

-- The sockets gave a descriptor.
unfoldable pub is_opens : Answer → Bool
is_opens throws = false
is_opens (opens _ _) = true

-- The sockets connected at once.
unfoldable pub at_once : Answer → Bool
at_once throws = false
at_once (opens _ b) = b

usable-Agrees : (t : Transceiver) → Agrees t → usable t ≡ is_valid t
unfolding usable Agrees is_connecting has_connected is is_valid has_fd
usable-Agrees t h = ground arith

module _ (info : CheckTimeoutInfo) where
  opened-usable :
      (now deadline fd : ℕ) (once : Bool) (a : Adapter Transceiver)
      → usable (opened info now deadline fd once a).trans ≡ true
  unfolding opened set_connected add_conn_exc set_con_timeout usable is_connecting has_connected is
      is_valid has_fd
  opened-usable now deadline fd true a = refl
  opened-usable now deadline fd false a = refl

  reconnect-usable :
      (now deadline : ℕ) (answer : Answer) (a : Adapter Transceiver)
      → is_valid a.trans ≡ false
      → usable (reconnect info now deadline answer a).trans ≡ is_opens answer
  unfolding reconnect usable is_connecting has_connected is is_opens close
  reconnect-usable now deadline throws a h = ground arith
  reconnect-usable now deadline (opens fd once) a h = opened-usable now deadline fd once a

  reconnect-connected :
      (now deadline : ℕ) (answer : Answer) (a : Adapter Transceiver)
      → is_valid a.trans ≡ false
      → has_connected (reconnect info now deadline answer a).trans ≡ at_once answer
  unfolding reconnect opened set_connected add_conn_exc set_con_timeout has_connected is is_valid
      has_fd at_once close
  reconnect-connected now deadline throws a h = ground arith
  reconnect-connected now deadline (opens fd true) a h = refl
  reconnect-connected now deadline (opens fd false) a h = refl

  ensure-usable :
      (now deadline : ℕ) (answer : Answer) (a : Adapter Transceiver)
      → Agrees a.trans
      → usable a.trans ≡ false
      → usable (ensure info now deadline answer a).trans ≡ is_opens answer
  unfolding ensure Agrees
  ensure-usable now deadline answer a h u =
      ground (arith, usable-Agrees a.trans h, reconnect-usable now deadline answer a)

  check_connection-forced :
      (now deadline : ℕ) (answer : Answer) (a : Adapter Transceiver)
      → Agrees a.trans
      → (check_connection info true now deadline answer a).0 ≡ usable a.trans || is_opens answer
  unfolding check_connection usable
  check_connection-forced now deadline answer a h = ground (
    arith,
    ensure-usable now deadline answer (record a { next_retry_time = now + info.try_time_interval })
        h,
  )

  -- In every reachable state, checkActive(true) says yes exactly when a connection stands or is
  -- being made, once a connect that took too long has been closed, or when the sockets open one.
  pub check_active-forced :
      (now now_ms deadline : ℕ) (answer : Answer) (a : Adapter Transceiver)
      → Reach info a
      → (check_active info true now now_ms deadline answer a).0
        ≡ usable (check_timeout info now now_ms a).trans || is_opens answer
  unfolding check_active
  check_active-forced now now_ms deadline answer a r =
      check_connection-forced now deadline answer (check_timeout info now now_ms a)
        (check_timeout-Agrees info now now_ms a (Reach-Agrees info a r))

  ensure-connected :
      (now deadline : ℕ) (answer : Answer) (a : Adapter Transceiver)
      → Agrees a.trans
      → has_connected (ensure info now deadline answer a).trans
        ≡ has_connected a.trans || (not (usable a.trans) && at_once answer)
  unfolding ensure usable Agrees is_connecting has_connected is is_valid has_fd
  ensure-connected now deadline answer a h =
      ground (arith, reconnect-connected now deadline answer a)

  check_connection-unforced :
      (now deadline : ℕ) (answer : Answer) (a : Adapter Transceiver)
      → Agrees a.trans
      → (check_connection info false now deadline answer a).0
        ≡ (a.active_status || not (ltb now a.next_retry_time))
          && (has_connected a.trans || (not (usable a.trans) && at_once answer))
  unfolding check_connection
  check_connection-unforced now deadline answer a h = ground (
    arith,
    ensure-connected now deadline answer a h,
    ensure-connected now deadline answer
        (record a { next_retry_time = now + info.try_time_interval }) h,
  )

  -- In every reachable state, once a connect that took too long has been closed, checkActive(false)
  -- says yes exactly when the endpoint is not shut off or is due for another try, and a connection
  -- stands or, where none is being made, the sockets connect at once.
  pub check_active-unforced :
      (now now_ms deadline : ℕ) (answer : Answer) (a : Adapter Transceiver)
      → Reach info a
      → let c : Adapter Transceiver = check_timeout info now now_ms a in
        (check_active info false now now_ms deadline answer a).0
        ≡ (c.active_status || not (ltb now c.next_retry_time))
          && (has_connected c.trans || (not (usable c.trans) && at_once answer))
  unfolding check_active
  check_active-unforced now now_ms deadline answer a r =
      check_connection-unforced now deadline answer (check_timeout info now now_ms a)
        (check_timeout-Agrees info now now_ms a (Reach-Agrees info a r))

  check_connection-refused :
      (now deadline : ℕ) (answer : Answer) (a : Adapter Transceiver)
      → Agrees a.trans
      → (check_connection info true now deadline answer a).0 ≡ false
      → ((check_connection info true now deadline answer a).1.active_status ≡ false)
        × (is_valid (check_connection info true now deadline answer a).1.trans ≡ false)
        × ((check_connection info true now deadline answer a).1.next_retry_time
            ≡ now + info.try_time_interval)
  unfolding check_connection ensure reconnect Agrees is_opens is_connecting has_connected is
      is_valid has_fd close
  check_connection-refused now deadline throws a h e = ground arith
  check_connection-refused now deadline (opens fd once) a h e =
      ground (arith, check_connection-forced now deadline (opens fd once) a h)

  -- In every reachable state, when checkActive(true) says no, the endpoint is shut off, its
  -- transceiver has no descriptor, and the next try is tryTimeInterval from now.
  pub check_active-refused :
      (now now_ms deadline : ℕ) (answer : Answer) (a : Adapter Transceiver)
      → Reach info a
      → (check_active info true now now_ms deadline answer a).0 ≡ false
      → ((check_active info true now now_ms deadline answer a).1.active_status ≡ false)
        × (is_valid (check_active info true now now_ms deadline answer a).1.trans ≡ false)
        × ((check_active info true now now_ms deadline answer a).1.next_retry_time
            ≡ now + info.try_time_interval)
  unfolding check_active
  check_active-refused now now_ms deadline answer a r =
      check_connection-refused now deadline answer (check_timeout info now now_ms a)
        (check_timeout-Agrees info now now_ms a (Reach-Agrees info a r))
