-- ===== src/Client/Tests.antt =====
-- Runs of the adapter on small inputs.
use horse_rpc.Base.{
  ℕ, ◌+◌, ◌%◌, ◌^◌, ◌==◌, if◌then◌else◌, ◌≡◌, refl, Bool, true, false, List, [], ◌∷◌, ◌++◌, leb,
  ltb, not, ◌&&◌, ◌||◌, arith,
}
use horse_rpc.Base.Succeeds.{Succeeds}
use horse_rpc.Client.Adapter.{
  CheckTimeoutInfo, Adapter, set_inactive, count_call, too_frequent, end_interval, finish_invoke,
  finish_all, add_conn_exc, set_con_timeout,
}
use horse_rpc.Client.Adapter.Trip.{finish_all-trip, finish_invoke-shuts_off}
use horse_rpc.Client.Adapter.Flags.{initial, Reach, start, next, excepts, Reach-shut}
use horse_rpc.Client.Connection
use horse_rpc.Client.Connection.{
  Transceiver, created, Answer, throws, opens, is, is_valid, has_fd, has_connected, is_connecting,
  set_connected, check_timeout, opened, reconnect, ensure, check_connection, check_active,
}
use horse_rpc.Client.Connection.Valid
use horse_rpc.Client.Connection.Valid.{checks, Agrees, Reach-Agrees}
use horse_rpc.Client.EndpointManager.{EndpointManager, get_next_valid_proxy}
use horse_rpc.Client.EndpointManager.Choice.{IsBelow, get_next_valid_proxy-IsBelow}
use horse_rpc.Client.Connection.Checks.{
  usable, is_opens, at_once, check_active-forced, check_active-unforced, check_active-refused,
}

-- The defaults of CheckTimeoutInfo; half of the calls is the ratio. A connection is the number of
-- times that it was closed.
abbrev info : CheckTimeoutInfo
info = record {
  min_timeout_invoke = 2;
  check_timeout_interval = 60;
  frequence_fail_invoke = 5;
  min_frequence_fail_time = 5;
  radio_reached = λ timeouts total. leb total (timeouts + timeouts);
  try_time_interval = 10;
  max_connect_exc = 1;
}

abbrev close : ℕ → ℕ
close n = n + 1

abbrev connected : Adapter ℕ
connected = record {
  trans = 0;
  active_status = true;
  total_invoke = 0;
  timeout_invoke = 0;
  next_finish_invoke_time = 100;
  frequence_fail = 0;
  frequence_fail_time = 0;
  next_retry_time = 0;
  conn_timeout = false;
  conn_exc = false;
  conn_exc_cnt = 0;
}

abbrev three_failures : List (ℕ × ℕ × Bool)
three_failures = (11, 11, true) ∷ (12, 12, true) ∷ (13, 13, true) ∷ []

abbrev five_failures : List (ℕ × ℕ × Bool)
five_failures = (10, 10, true) ∷ (three_failures ++ (15, 15, true) ∷ [])

finish_all-trip_example : (finish_all close info five_failures connected).active_status ≡ false
finish_all-trip_example =
    finish_all-trip close info connected 10 10 three_failures 15 15 refl refl
      (refl, (refl, (refl, tt))) (omega arith) (omega arith) (omega arith)

-- A failure behind the interval, as the second of two.
abbrev failing : Adapter ℕ
failing = record connected { total_invoke = 1; timeout_invoke = 1 }

shut_off : (finish_invoke close info 101 101 true failing).active_status ≡ false
unfolding finish_invoke count_call too_frequent end_interval set_inactive
shut_off = refl

finish_invoke-shuts_off_example :
    (finish_invoke close info 101 101 true failing).active_status
    ≡ not (
        true
        && ((leb info.frequence_fail_invoke ((failing.frequence_fail + 1) % 2 ^ 32)
              && leb
                  (if failing.frequence_fail == 0
                    then 101 + info.min_frequence_fail_time
                    else failing.frequence_fail_time)
                  101)
            || (ltb failing.next_finish_invoke_time 101
                && (leb info.min_timeout_invoke ((failing.timeout_invoke + 1) % 2 ^ 32)
                    && info.radio_reached
                        ((failing.timeout_invoke + 1) % 2 ^ 32)
                        ((failing.total_invoke + 1) % 2 ^ 32)))))
finish_invoke-shuts_off_example = finish_invoke-shuts_off close info 101 101 true failing refl

abbrev refused : Adapter ℕ
refused = add_conn_exc close info 20 true (initial 0)

refused-Reach : Reach close info 0 refused
refused-Reach = next start (excepts (initial 0) 20 true)

refused_flag : refused.conn_exc ≡ true
unfolding add_conn_exc initial set_inactive
refused_flag = refl

Reach-shut_example : refused.active_status ≡ false
Reach-shut_example = Reach-shut close info 0 refused refused-Reach refused_flag

-- A connect that begins at second 20 and may take three seconds.
abbrev trying : Adapter Transceiver
trying = (check_active info true 20 20000 23000 (opens 7 false) (initial created)).1

trying-Reach : Valid.Reach info trying
trying-Reach = Valid.next Valid.start (checks (initial created) true 20 20000 23000 (opens 7 false))

trying_connects : is_connecting trying.trans ≡ true
unfolding check_active check_connection check_timeout ensure reconnect opened initial is_connecting
    has_connected is is_valid has_fd
trying_connects = refl

Reach-Agrees_example : Agrees trying.trans
Reach-Agrees_example = Reach-Agrees info trying trying-Reach

check_active-forced_example :
    (check_active info true 22 22000 25000 throws trying).0
    ≡ usable (check_timeout info 22 22000 trying).trans || is_opens throws
check_active-forced_example = check_active-forced info 22 22000 25000 throws trying trying-Reach

check_active-unforced_example :
    (check_active info false 22 22000 25000 throws trying).0
    ≡ ((check_timeout info 22 22000 trying).active_status
        || not (ltb 22 (check_timeout info 22 22000 trying).next_retry_time))
      && (has_connected (check_timeout info 22 22000 trying).trans
          || (not (usable (check_timeout info 22 22000 trying).trans) && at_once throws))
check_active-unforced_example = check_active-unforced info 22 22000 25000 throws trying trying-Reach

-- The connect took too long, and the next one throws.
late : (check_active info true 24 24000 27000 throws trying).0 ≡ false
unfolding check_active check_connection check_timeout ensure reconnect opened initial is_connecting
    has_connected is is_valid has_fd set_con_timeout set_inactive Connection.close
late = refl

check_active-refused_example :
    ((check_active info true 24 24000 27000 throws trying).1.active_status ≡ false)
    × (is_valid (check_active info true 24 24000 27000 throws trying).1.trans ≡ false)
    × ((check_active info true 24 24000 27000 throws trying).1.next_retry_time
        ≡ 24 + info.try_time_interval)
check_active-refused_example =
    check_active-refused info 24 24000 27000 throws trying trying-Reach late

-- Two endpoints, with a place left over from a longer list.
abbrev answers : Bool → Adapter Transceiver → Bool × Adapter Transceiver
answers force a = check_active info force 22 22000 25000 throws a

abbrev failed : Adapter Transceiver → Bool
failed a = a.conn_timeout || a.conn_exc

abbrev two_proxies : EndpointManager (Adapter Transceiver)
two_proxies = record { active_proxys = initial created ∷ trying ∷ []; last_round_position = 7 }

get_next_valid_proxy-IsBelow_example :
    Succeeds (λ r. IsBelow 2 r.0) (get_next_valid_proxy answers failed 5 two_proxies)
get_next_valid_proxy-IsBelow_example =
    get_next_valid_proxy-IsBelow answers failed 5 two_proxies (omega arith)
