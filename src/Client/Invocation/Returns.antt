-- ===== src/Client/Invocation/Returns.antt =====
-- The answers to requests: finishInvoke.
use horse_rpc.Base.{
  ℕ, ◌≡◌, refl, sym, ap, subst, Bool, true, Option, none, some, ◌==◌, arith, Option-cases, inl, inr,
}
use horse_rpc.Queues.TimeoutQueue.{TimeoutQueue, Entry, find, push, erase, discard, remove}
use horse_rpc.Queues.TimeoutQueue.Counts.{bit}
use horse_rpc.Queues.TimeoutQueue.Valid.{IsValid, discard-IsValid}
use horse_rpc.Base.Int.{ℤ}
use horse_rpc.Client.Adapter.{CheckTimeoutInfo}
use horse_rpc.Client.Messages.{ReqMessage, ReturnStatus, req_rsp, is_req}
use horse_rpc.Client.Invocation.{Invoker, with_queue, finish_message, push_message, finish_response}
use horse_rpc.Client.Invocation.Owned.{
  is_request, held, over, AllWaiting, held-remove, find-AllWaiting, remove-AllWaiting,
}
use horse_rpc.Base.Succeeds.{Succeeds, Succeeds-weaken, if-Succeeds}
use horse_rpc.Client.Invocation.Ready.{
  Keeps, IsReady, Ends, Ends-Keeps, waiting-endless, finish_message-Ends,
}
use horse_rpc.Client.Invocation.Calls.{same, Keeps-refl}

module _ {T : Type 0} where
  -- A request that is taken out of the queue and ends is still counted once.
  pub taken-Keeps :
      (σ ρ τ : Invoker T) (id : ℕ) (e : Entry ReqMessage) (msg : ReqMessage)
      → IsReady σ
      → find id σ.queue.entries ≡ some e
      → IsValid ρ.queue
      → ρ.queue.entries ≡ remove (λ x. x.id) id σ.queue.entries
      → ρ.ended ≡ σ.ended
      → ((p : ℕ) → is_request p msg ≡ is_request p e.ptr)
      → Ends msg ρ τ
      → Keeps same σ τ
  taken-Keeps σ ρ τ id e msg v f valid rest none_over alike ending =
      let ready : IsReady ρ = record {
        valid = valid;
        waiting = subst AllWaiting (sym rest) (remove-AllWaiting id σ.queue.entries v.waiting);
      } in
      let k = Ends-Keeps msg ρ τ ready ending in
      record {
        valid = k.valid;
        waiting = k.waiting;
        all = λ p. omega (
          arith,
          k.all p,
          held-remove p id σ.queue.entries e f,
          ap (held p) rest,
          ap (over p) none_over,
          ap bit (alike p),
        );
      }

  push-Keeps :
      (msg : ReqMessage) (σ τ : Invoker T)
      → IsReady σ
      → msg.b_push ≡ true
      → Ends msg σ τ
      → Keeps same σ τ
  push-Keeps msg σ τ v push e =
      let k = Ends-Keeps msg σ τ v e in
      record { valid = k.valid; waiting = k.waiting; all = λ p. ground (arith, k.all p, push) }

erase_missing :
    (id : ℕ) (q : TimeoutQueue ReqMessage) → find id q.entries ≡ none → erase id q ≡ (none, q)
unfolding erase
erase_missing id q f = rw (erase, f) refl

erase_found :
    (id : ℕ) (q : TimeoutQueue ReqMessage) (e : Entry ReqMessage)
    → find id q.entries ≡ some e
    → erase id q ≡ (some e.ptr, discard id e q)
unfolding erase
erase_found id q e f = rw (erase, f) refl

entries-discard :
    (id : ℕ) (q : TimeoutQueue ReqMessage) (e : Entry ReqMessage)
    → (discard id e q).entries ≡ remove (λ x. x.id) id q.entries
unfolding discard
entries-discard id q e = refl

module _ {T : Type 0} (close : T → T) (info : CheckTimeoutInfo)
    (send_request : T → ReqMessage → ReturnStatus × T) where
  -- The answer to a request ends it, and its assert holds; an answer that comes late, and a push,
  -- change nothing of the requests.
  pub finish_response-Keeps :
      (callback : Option Bool) (now later id : ℕ) (ret : ℤ) (σ : Invoker T)
      → IsReady σ
      → Succeeds
          (Keeps same σ)
          (finish_response close info send_request callback now later id ret σ)
  unfolding finish_response
  finish_response-Keeps callback now later id ret σ v =
      if-Succeeds (Keeps same σ) (id == 0) _ _ (pushed callback)
        (elim (Option-cases (find id σ.queue.entries)) [
          | inl f ↦
              rw (erase_missing id σ.queue f) (rw (erase_missing id σ.queue f) (Keeps-refl σ v))
          | inr (e, f) ↦
              let w = find-AllWaiting id σ.queue.entries e v.waiting f in
              let req : is_req e.ptr.e_status ≡ true = ground (arith, w) in
              let answered = record e.ptr { e_status = req_rsp; i_ret = ret } in
              let ρ = with_queue (discard id e σ.queue) σ in
              rw (erase_found id σ.queue e f) (
                rw (erase_found id σ.queue e f, req)
                  (Succeeds-weaken (Ends answered ρ) (Keeps same σ) _
                    (λ τ.
                      taken-Keeps σ ρ τ id e answered v f (discard-IsValid σ.queue v.valid id e f)
                        (entries-discard id σ.queue e) refl (λ p. refl))
                    (finish_message-Ends close info send_request now later answered ρ
                      (waiting-endless e.ptr w))))
        ])
    where
      pushed :
          (callback : Option Bool)
          → Succeeds (Keeps same σ) (elim callback [
            | none ↦ some σ
            | some net_thread ↦
                finish_message close info send_request now later
                  (record (push_message close info send_request net_thread) { i_ret = ret })
                  σ
          ])
      pushed none = Keeps-refl σ v
      pushed (some net_thread) =
          Succeeds-weaken _ (Keeps same σ) _ (λ τ. push-Keeps _ σ τ v refl)
            (finish_message-Ends close info send_request now later
              (record (push_message close info send_request net_thread) { i_ret = ret }) σ refl)
