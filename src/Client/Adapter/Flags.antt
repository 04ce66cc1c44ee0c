-- ===== src/Client/Adapter/Flags.antt =====
-- The flags of an AdapterProxy: setConTimeout, addConnExc and finishInvoke together.
use horse_rpc.Base.{ℕ, ◌≡◌, Bool, true, false, arith}
use horse_rpc.Client.Adapter.{
  CheckTimeoutInfo, Adapter, set_inactive, recover, count_call, end_interval, finish_invoke,
  set_con_timeout, add_conn_exc,
}

-- The state behind the constructor.
unfoldable pub initial : {T : Type 0} → T → Adapter T
initial trans = record {
  trans = trans;
  active_status = true;
  total_invoke = 0;
  timeout_invoke = 0;
  next_finish_invoke_time = 0;
  frequence_fail = 0;
  frequence_fail_time = 0;
  next_retry_time = 0;
  conn_timeout = false;
  conn_exc = false;
  conn_exc_cnt = 0;
}

-- One call of a member function that sets the flags.
pub data Step {T : Type 0} (close : T → T) (info : CheckTimeoutInfo)
    : Adapter T → Adapter T → Type 0 where
  finishes :
      (a : Adapter T) (now later : ℕ) (fail : Bool)
      → Step close info a (finish_invoke close info now later fail a)
  times_out :
      (a : Adapter T) (now : ℕ) (timeout : Bool)
      → Step close info a (set_con_timeout close info now timeout a)
  excepts :
      (a : Adapter T) (now : ℕ) (exc : Bool) → Step close info a (add_conn_exc close info now exc a)
  shuts_off : (a : Adapter T) (now : ℕ) → Step close info a (set_inactive close info now a)

pub data Reach {T : Type 0} (close : T → T) (info : CheckTimeoutInfo) (trans : T)
    : Adapter T → Type 0 where
  start : Reach close info trans (initial trans)
  next :
      {a b : Adapter T} → Reach close info trans a → Step close info a b → Reach close info trans b

module _ {T : Type 0} (close : T → T) (info : CheckTimeoutInfo) where
  Step-shut :
      {a b : Adapter T}
      → Step close info a b
      → (a.conn_exc ≡ true → a.active_status ≡ false)
      → b.conn_exc ≡ true
      → b.active_status ≡ false
  unfolding finish_invoke recover count_call end_interval set_con_timeout add_conn_exc set_inactive
  Step-shut (finishes a now later fail) i h = ground arith
  Step-shut (times_out a now timeout) i h = ground arith
  Step-shut (excepts a now exc) i h = ground arith
  Step-shut (shuts_off a now) i h = ground arith

  -- In every state that the constructor, finishInvoke, setConTimeout, addConnExc and setInactive
  -- lead to, an endpoint whose connects have failed too often is shut off.
  pub Reach-shut :
      (trans : T) (a : Adapter T)
      → Reach close info trans a
      → a.conn_exc ≡ true
      → a.active_status ≡ false
  unfolding initial
  Reach-shut trans a start h = ground arith
  Reach-shut trans a (next r s) h = Step-shut s (Reach-shut trans _ r) h
