-- ===== src/Client/Invocation/Runs.antt =====
-- Calls of an AdapterProxy in any order, from its construction.
use horse_rpc.Base.{
  ℕ, ◌+◌, ◌≡◌, ◌≤◌, refl, ap, subst, Bool, true, ◌&&◌, Option, none, some, List, [], ◌∷◌, ◌==◌,
  ==_refl, All, arith,
}
use horse_rpc.Base.Int.{ℤ}
use horse_rpc.Queues.TimeoutQueue.{TimeoutQueue, Entry, Node, new}
use horse_rpc.Queues.TimeoutQueue.Counts.{bit}
use horse_rpc.Queues.TimeoutQueue.Valid.{IsValid, new-IsValid, timed, stored}
use horse_rpc.Client.Adapter.{CheckTimeoutInfo, Adapter}
use horse_rpc.Client.Messages.{ReqMessage, ReturnStatus}
use horse_rpc.Client.Invocation.{Invoker, invoke, do_invoke, finish_response, do_timeout}
use horse_rpc.Client.Invocation.Owned.{is_waiting, held, over, owned}
use horse_rpc.Base.Succeeds.{Succeeds, Succeeds-weaken, Succeeds-bind, Succeeds-map}
use horse_rpc.Client.Invocation.Ready.{Keeps, IsReady}
use horse_rpc.Client.Invocation.Calls.{same, Keeps-IsReady, invoke-Keeps, do_invoke-Keeps}
use horse_rpc.Client.Invocation.Returns.{finish_response-Keeps}
use horse_rpc.Client.Invocation.Timeouts.{not_due, IsBelow, Drained, do_timeout-Drained}

-- A call with its arguments and with what the clock and the server say.
pub data Call : Type 0 where
  invokes : (now later : ℕ) → ReqMessage → Call
  sends : Call
  answers : (callback : Option Bool) (now later id : ℕ) (ret : ℤ) → Call
  times_out : (ℕ → ℕ × ℕ × ℕ) → Call

-- The state behind the constructor.
abbrev pub start : {T : Type 0} → Adapter T → Invoker T
start a = record { adapter = a; queue = new; ended = [] }

-- How often the message at `p` is passed to invoke.
abbrev pub invoked : ℕ → List Call → ℕ
invoked p [] = 0
invoked p (invokes now later msg ∷ calls) = bit (msg.address == p) + invoked p calls
invoked p (sends ∷ calls) = invoked p calls
invoked p (answers callback now later id ret ∷ calls) = invoked p calls
invoked p (times_out clock ∷ calls) = invoked p calls

-- Only requests are passed to invoke: their status is REQ_REQ, they are no pushes or exits, and a
-- synchronous one has a coroutine or a monitor.
abbrev pub IsCall : Call → Type 0
IsCall (invokes now later msg) = is_waiting msg ≡ true
IsCall sends = Unit
IsCall (answers callback now later id ret) = Unit
IsCall (times_out clock) = Unit

module _ {T : Type 0} (close : T → T) (info : CheckTimeoutInfo)
    (send_request : T → ReqMessage → ReturnStatus × T) (limit : ℕ) where
  unfoldable pub perform : Call → Invoker T → Option (Invoker T)
  perform (invokes now later msg) σ = elim (invoke close info send_request limit now later msg σ) [
    | none ↦ none
    | some r ↦ some r.1
  ]
  perform sends σ = do_invoke close info send_request σ
  perform (answers callback now later id ret) σ =
      finish_response close info send_request callback now later id ret σ
  perform (times_out clock) σ = do_timeout close info send_request clock σ

  unfoldable pub run_calls : List Call → Invoker T → Option (Invoker T)
  run_calls [] σ = some σ
  run_calls (c ∷ calls) σ = elim (perform c σ) [ none ↦ none | some τ ↦ run_calls calls τ ]

  perform-Keeps :
      (c : Call) (σ : Invoker T)
      → IsReady σ
      → IsCall c
      → Succeeds (Keeps (λ p. invoked p (c ∷ [])) σ) (perform c σ)
  unfolding perform
  perform-Keeps (invokes now later msg) σ v w =
      Succeeds-map (Keeps (λ p. invoked p (invokes now later msg ∷ [])) σ)
        (λ (r : ℤ × Invoker T). r.1) _
        (invoke-Keeps close info send_request limit now later msg σ v w)
        (λ r k. record {
          valid = k.valid;
          waiting = k.waiting;
          all = λ p. ground (arith, k.all p, w);
        })
  perform-Keeps sends σ v w = do_invoke-Keeps close info send_request σ v
  perform-Keeps (answers callback now later id ret) σ v w =
      finish_response-Keeps close info send_request callback now later id ret σ v
  perform-Keeps (times_out clock) σ v w =
      Succeeds-weaken (Drained clock σ) (Keeps same σ) _ (λ τ d. d.keeps)
        (do_timeout-Drained close info send_request clock σ v)

  run_calls-Keeps :
      (calls : List Call) (σ : Invoker T)
      → IsReady σ
      → All IsCall calls
      → Succeeds (Keeps (λ p. invoked p calls) σ) (run_calls calls σ)
  unfolding run_calls
  run_calls-Keeps [] σ v a = record { valid = v.valid; waiting = v.waiting; all = λ p. omega arith }
  run_calls-Keeps (c ∷ calls) σ v a =
      Succeeds-bind (Keeps (λ p. invoked p (c ∷ calls)) σ) (run_calls calls) (perform c σ)
        (perform-Keeps c σ v a.0)
        (λ τ k.
          Succeeds-weaken (Keeps (λ p. invoked p calls) τ) (Keeps (λ p. invoked p (c ∷ calls)) σ) _
            (λ ρ j. record {
              valid = j.valid;
              waiting = j.waiting;
              all = λ p. omega (arith, j.all p, k.all p, invoked_cons p c calls);
            })
            (run_calls-Keeps calls τ (Keeps-IsReady k) a.1))
    where
      invoked_cons :
          (p : ℕ) (c : Call) (calls : List Call)
          → invoked p (c ∷ calls) ≡ invoked p (c ∷ []) + invoked p calls
      invoked_cons p (invokes now later msg) calls = omega arith
      invoked_cons p sends calls = omega arith
      invoked_cons p (answers callback now later id ret) calls = omega arith
      invoked_cons p (times_out clock) calls = omega arith

  start-IsReady : (a : Adapter T) → IsReady (start a)
  unfolding new
  start-IsReady a = record { valid = new-IsValid; waiting = tt }

  start-owned : (p : ℕ) (a : Adapter T) → owned p (start a) ≡ 0
  unfolding new
  start-owned p a = refl

  -- Whatever calls are made, when each message that is passed to invoke has the status REQ_REQ, is
  -- no push and no THREAD_EXIT, and has a coroutine or a monitor if it is synchronous: no assert
  -- fails and no loop runs out of fuel, and each request that was passed to invoke either lies in
  -- the queue or has ended, exactly as often as it was passed: none is lost, and none is finished
  -- twice.
  pub run_calls-invoked :
      (calls : List Call) (a : Adapter T)
      → All IsCall calls
      → Succeeds
          (λ (σ : Invoker T). (p : ℕ) → held p σ.queue.entries + over p σ.ended ≡ invoked p calls)
          (run_calls calls (start a))
  run_calls-invoked calls a ok =
      Succeeds-weaken (Keeps (λ p. invoked p calls) (start a)) _ _
        (λ τ k p. omega (arith, k.all p, start-owned p a))
        (run_calls-Keeps calls (start a) (start-IsReady a) ok)

-- A valid queue without deadlines has no entries.
no_entries :
    (q : TimeoutQueue ReqMessage) (es : List (Entry ReqMessage))
    → IsValid q
    → q.entries ≡ es
    → q.time ≡ []
    → q.entries ≡ []
no_entries q [] v e t = e
no_entries q (x ∷ es) v e t =
    let one : bit ((x.id == x.id) && true) ≡ 1 = rw (==_refl x.id) refl in
    let there : stored x.id q.entries ≡ stored x.id (x ∷ es) = ap (stored x.id) e in
    absurd (omega (arith, v.times x.id, ap (timed x.id) t, there, one))

all_late :
    (now bound : ℕ) (ns : List Node)
    → bound ≤ now
    → IsBelow bound ns
    → not_due now ns ≡ true
    → ns ≡ []
all_late now bound [] h b e = refl
all_late now bound (n ∷ ns) h b e = absurd (ground (arith, b.0))

module _ {T : Type 0} (close : T → T) (info : CheckTimeoutInfo)
    (send_request : T → ReqMessage → ReturnStatus × T) (limit : ℕ) where
  -- When calls that pass only requests to invoke, as above, have led to `σ`, no deadline in its
  -- queue lies behind `bound`, and the clock of doTimeout has reached `bound`, doTimeout leaves the
  -- queue empty, and each request that was ever passed to invoke has ended exactly as often as it
  -- was passed.
  pub do_timeout-invoked :
      (calls : List Call) (a : Adapter T) (σ : Invoker T) (bound : ℕ) (clock : ℕ → ℕ × ℕ × ℕ)
      → All IsCall calls
      → run_calls close info send_request limit calls (start a) ≡ some σ
      → IsBelow bound σ.queue.time
      → ((k : ℕ) → bound ≤ (clock k).0)
      → Succeeds
          (λ (τ : Invoker T). (τ.queue.entries ≡ []) × ((p : ℕ) → over p τ.ended ≡ invoked p calls))
          (do_timeout close info send_request clock σ)
  do_timeout-invoked calls a σ bound clock ok e below reached =
      let k = subst (Succeeds (Keeps (λ p. invoked p calls) (start a))) e (
        run_calls-Keeps close info send_request limit calls (start a)
          (start-IsReady close info send_request limit a) ok) in
      Succeeds-weaken (Drained clock σ) _ _
        (λ τ d.
          let empty = no_entries τ.queue τ.queue.entries d.keeps.valid refl (
            all_late (clock d.round).0 bound τ.queue.time (reached d.round) (d.below bound below)
              d.late) in
          (
            empty,
            λ p. omega (
              arith,
              d.keeps.all p,
              k.all p,
              start-owned close info send_request limit p a,
              ap (held p) empty,
            ),
          ))
        (do_timeout-Drained close info send_request clock σ (Keeps-IsReady k))
