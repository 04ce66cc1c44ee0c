-- ===== src/Client/Adapter.antt =====
-- class AdapterProxy: when an endpoint is shut off after failed calls, and when it comes back.
-- Times are the seconds of TNOW, an argument of each call; where a function reads TNOW again, the
-- second value is an argument too. The comparison with the float `radio` and the close of the
-- Transceiver are parameters.
pub mod Trip
pub mod Flags
use horse_rpc.Base.{
  ℕ, ◌+◌, ◌%◌, ◌^◌, Bool, true, false, not, ◌&&◌, ◌||◌, List, [], ◌∷◌, ltb, leb, ◌==◌,
  if◌then◌else◌,
}

-- `radio_reached timeouts total` is timeouts >= radio * total.
pub record CheckTimeoutInfo : Type 0 where
  pub min_timeout_invoke : ℕ
  pub check_timeout_interval : ℕ
  pub frequence_fail_invoke : ℕ
  pub min_frequence_fail_time : ℕ
  pub radio_reached : ℕ → ℕ → Bool
  pub try_time_interval : ℕ
  pub max_connect_exc : ℕ

pub record Adapter (T : Type 0) : Type 0 where
  pub trans : T
  pub active_status : Bool
  pub total_invoke : ℕ
  pub timeout_invoke : ℕ
  pub next_finish_invoke_time : ℕ
  pub frequence_fail : ℕ
  pub frequence_fail_time : ℕ
  pub next_retry_time : ℕ
  pub conn_timeout : Bool
  pub conn_exc : Bool
  pub conn_exc_cnt : ℕ

-- ++ on a uint32_t.
abbrev pub increment : ℕ → ℕ
increment n = (n + 1) % 2 ^ 32

module _ {T : Type 0} (close : T → T) (info : CheckTimeoutInfo) where
  -- setInactive and onSetInactive
  unfoldable pub set_inactive : ℕ → Adapter T → Adapter T
  set_inactive now a = record a {
    active_status = false;
    next_retry_time = now + info.try_time_interval;
    trans = close a.trans;
  }

  -- A call that succeeds on an endpoint that is shut off.
  unfoldable pub recover : ℕ → Adapter T → Adapter T
  recover now a = record a {
    active_status = true;
    frequence_fail = 0;
    next_finish_invoke_time = now + info.check_timeout_interval;
    total_invoke = 1;
    timeout_invoke = 0;
    conn_timeout = false;
    conn_exc = false;
  }

  -- The counts of a call on an active endpoint.
  unfoldable pub count_call : ℕ → Bool → Adapter T → Adapter T
  count_call now fail a =
      if fail
      then record a {
        total_invoke = increment a.total_invoke;
        timeout_invoke = increment a.timeout_invoke;
        frequence_fail_time =
            if a.frequence_fail == 0
            then now + info.min_frequence_fail_time
            else a.frequence_fail_time;
        frequence_fail = increment a.frequence_fail;
      }
      else record a { total_invoke = increment a.total_invoke; frequence_fail = 0 }

  -- Enough failures in a row, over enough time.
  unfoldable pub too_frequent : ℕ → Adapter T → Bool
  too_frequent now a =
      leb info.frequence_fail_invoke a.frequence_fail && leb a.frequence_fail_time now

  -- The end of an interval: shut off by the ratio of failures, or start to count again.
  unfoldable pub end_interval : ℕ → ℕ → Bool → Adapter T → Adapter T
  end_interval now later fail a =
      let b = record a { next_finish_invoke_time = now + info.check_timeout_interval } in
      if fail
        && leb info.min_timeout_invoke b.timeout_invoke
        && info.radio_reached b.timeout_invoke b.total_invoke
      then set_inactive later b
      else record b { total_invoke = 0; timeout_invoke = 0 }

  -- finishInvoke(bFail), where `later` is what TNOW gives at the end.
  unfoldable pub finish_invoke : ℕ → ℕ → Bool → Adapter T → Adapter T
  finish_invoke now later fail a =
      if not a.active_status
      then (if fail then a else recover now a)
      else (let b = count_call now fail a in
          if fail && too_frequent now b
          then record b { active_status = false; next_retry_time = later + info.try_time_interval }
          else if ltb a.next_finish_invoke_time now
          then end_interval now later fail b
          else b)

  -- setConTimeout
  unfoldable pub set_con_timeout : ℕ → Bool → Adapter T → Adapter T
  set_con_timeout now timeout a =
      if timeout
      then (if a.conn_timeout then a else set_inactive now (record a { conn_timeout = true }))
      else record a { conn_timeout = false }

  -- addConnExc: `!_connExc && ++_connExcCnt >= maxConnectExc`.
  unfoldable pub add_conn_exc : ℕ → Bool → Adapter T → Adapter T
  add_conn_exc now exc a =
      if exc
      then (if a.conn_exc
          then a
          else (let b = record a { conn_exc_cnt = increment a.conn_exc_cnt } in
              if leb info.max_connect_exc b.conn_exc_cnt
              then record (set_inactive now b) { conn_exc = true }
              else b))
      else record a { conn_exc = false; conn_exc_cnt = 0; active_status = true }

  -- The results of calls, in order: the two times, and whether the call failed.
  unfoldable pub finish_all : List (ℕ × ℕ × Bool) → Adapter T → Adapter T
  finish_all [] a = a
  finish_all ((now, later, fail) ∷ calls) a = finish_all calls (finish_invoke now later fail a)
