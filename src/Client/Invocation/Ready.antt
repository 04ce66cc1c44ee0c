-- ===== src/Client/Invocation/Ready.antt =====
-- What each part of a call keeps of the requests.
use horse_rpc.Base.{
  ℕ, ◌+◌, ◌≡◌, refl, sym, ap, subst, Bool, true, false, not, ◌&&◌, some, [], ◌∷◌, ◌++◌, arith,
  Bool-cases, Option-cases, inl, inr, ◌⊎◌,
}
use horse_rpc.Base.Succeeds.{Succeeds, Succeeds-map}
use horse_rpc.Queues.TimeoutQueue.{TimeoutQueue, find, push}
use horse_rpc.Queues.TimeoutQueue.Counts.{bit}
use horse_rpc.Queues.TimeoutQueue.Valid.{IsValid, push-IsValid}
use horse_rpc.Base.Int.{ℤ, pos}
use horse_rpc.Client.Adapter.{CheckTimeoutInfo}
use horse_rpc.Client.Messages.{
  req_exc, ReqMessage, ReturnStatus, ret_error, ret_ok, ret_full, ret_not_send, is_one_way,
  with_status, is_exc,
}
use horse_rpc.Client.Invocation.{
  Ending, deletes, Invoker, ending, ends, finish_message, enqueue, count_message,
}
use horse_rpc.Client.Invocation.Owned.{
  is_request, is_endless, is_waiting, held, over, over-append, owned, AllWaiting,
}

-- No assert has failed; the queue is in order; and the requests are those of `σ`, and `more`.
pub record Keeps {T : Type 0} (more : ℕ → ℕ) (σ τ : Invoker T) : Type 0 where
  pub valid : IsValid τ.queue
  pub waiting : AllWaiting τ.queue.entries
  pub all : (p : ℕ) → owned p τ ≡ owned p σ + more p

pub record IsReady {T : Type 0} (σ : Invoker T) : Type 0 where
  pub valid : IsValid σ.queue
  pub waiting : AllWaiting σ.queue.entries

pub ReturnStatus-cases :
    (s : ReturnStatus) → (s ≡ ret_error) ⊎ (s ≡ ret_not_send) ⊎ (s ≡ ret_full) ⊎ (s ≡ ret_ok)
ReturnStatus-cases ret_error = inl refl
ReturnStatus-cases ret_not_send = inr (inl refl)
ReturnStatus-cases ret_full = inr (inr (inl refl))
ReturnStatus-cases ret_ok = inr (inr (inr refl))

pub waiting-endless : (msg : ReqMessage) → is_waiting msg ≡ true → is_endless msg ≡ false
waiting-endless msg w = ground (arith, w)

-- The message is all that ended.
pub record Ends {T : Type 0} (msg : ReqMessage) (σ τ : Invoker T) : Type 0 where
  pub how : Ending
  pub queue : τ.queue ≡ σ.queue
  pub ended : τ.ended ≡ σ.ended ++ (how, msg) ∷ []

ending-some :
    (msg : ReqMessage)
    → is_one_way msg ≡ false
    → is_endless msg ≡ false
    → (how : Ending) × (ending msg ≡ some how)
unfolding ending
ending-some msg a b = elim (Option-cases (ending msg)) [
  | inl n ↦ absurd (ground (arith, n))
  | inr (how, e) ↦ (how, e)
]

module _ {T : Type 0} where
  Ends-all :
      (msg : ReqMessage) (σ τ : Invoker T)
      → Ends msg σ τ
      → (p : ℕ) → owned p τ ≡ owned p σ + bit (is_request p msg)
  Ends-all msg σ τ e p = omega (
    arith,
    ap (λ (q : TimeoutQueue ReqMessage). held p q.entries) e.queue,
    ap (over p) e.ended,
    over-append p σ.ended e.how msg,
  )

  pub Ends-Keeps :
      (msg : ReqMessage) (σ τ : Invoker T)
      → IsReady σ
      → Ends msg σ τ
      → Keeps (λ p. bit (is_request p msg)) σ τ
  Ends-Keeps msg σ τ v e = record {
    valid = subst IsValid (sym e.queue) v.valid;
    waiting = subst (λ (q : TimeoutQueue ReqMessage). AllWaiting q.entries) (sym e.queue) v.waiting;
    all = Ends-all msg σ τ e;
  }

  pub deletes-Ends : (msg : ReqMessage) (σ : Invoker T) → Ends msg σ (ends deletes msg σ)
  deletes-Ends msg σ = record { how = deletes; queue = refl; ended = refl }

module _ {T : Type 0} (close : T → T) (info : CheckTimeoutInfo)
    (send_request : T → ReqMessage → ReturnStatus × T) where
  count_message-same :
      (now later : ℕ) (msg : ReqMessage) (σ : Invoker T)
      → ((count_message close info send_request now later msg σ).queue ≡ σ.queue)
        × ((count_message close info send_request now later msg σ).ended ≡ σ.ended)
  unfolding count_message
  count_message-same now later msg σ =
      elim (Bool-cases (not (is_exc msg.e_status) && not msg.b_push)) [
        | inl e ↦ rw e (refl, refl)
        | inr e ↦ rw e (refl, refl)
      ]

  -- finishInvoke ends the message, whatever its status, when it is not endless.
  pub finish_message-Ends :
      (now later : ℕ) (msg : ReqMessage) (σ : Invoker T)
      → is_endless msg ≡ false
      → Succeeds (Ends msg σ) (finish_message close info send_request now later msg σ)
  unfolding finish_message
  finish_message-Ends now later msg σ exit = elim (Bool-cases (is_one_way msg)) [
    | inl one ↦ rw (finish_message, one) (deletes-Ends msg σ)
    | inr two ↦
        let (how, e) = ending-some msg two exit in
        let (queue, ended) = count_message-same now later msg σ in
        rw (finish_message, two, e)
          (record { how = how; queue = queue; ended = ap (λ xs. xs ++ (how, msg) ∷ []) ended })
  ]

  -- A message that is pushed is in the queue, and one that is not has ended.
  pub enqueue-Keeps :
      (now later : ℕ) (has_send : Bool) (msg : ReqMessage) (σ : Invoker T)
      → IsReady σ
      → is_waiting msg ≡ true
      → Succeeds
          (λ r. Keeps (λ p. bit (is_request p msg)) σ r.1)
          (enqueue close info send_request now later has_send msg σ)
  unfolding enqueue push
  enqueue-Keeps now later has_send msg σ v w =
      let valid = push-IsValid σ.queue msg msg.i_request_id msg.deadline has_send v.valid in
      elim (Option-cases (find msg.i_request_id σ.queue.entries)) [
        | inl new ↦
            rw (enqueue, push, new)
              (record {
                valid = rw (push, new) at valid;
                waiting = (w, v.waiting);
                all = λ p. omega arith;
              })
        | inr (e, old) ↦
            rw (enqueue, push, old)
              (Succeeds-map (λ (r : ℤ × Invoker T). Keeps (λ p. bit (is_request p msg)) σ r.1)
                (λ τ. (pos 0, τ)) _
                (finish_message-Ends now later (with_status req_exc msg) σ (waiting-endless msg w))
                (λ τ. Ends-Keeps (with_status req_exc msg) σ τ v))
      ]
