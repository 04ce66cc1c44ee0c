-- ===== src/Client/Invocation/Timeouts.antt =====
-- The timeouts of requests: doTimeout.
use horse_rpc.Base.{
  ℕ, zero, suc, ◌≡◌, ◌≤◌, ◌<◌, refl, sym, ap, subst, ◌∙◌, Bool, true, none, some, List, [], ◌∷◌,
  ltb, ◌⊎◌, All, arith, Bool-cases, Option-cases, inl, inr, length,
}
use horse_rpc.Queues.TimeoutQueue.{TimeoutQueue, Entry, Node, find, remove, timeout_one, expire}
use horse_rpc.Queues.TimeoutQueue.Counts.{find-none}
use horse_rpc.Queues.TimeoutQueue.Valid.{IsValid, expire-IsValid, expire-time, timed_front}
use horse_rpc.Client.Adapter.{CheckTimeoutInfo}
use horse_rpc.Client.Messages.{ReqMessage, ReturnStatus}
use horse_rpc.Client.Invocation.{Invoker, with_queue, timed_out, timeout_rounds, do_timeout}
use horse_rpc.Client.Invocation.Owned.{is_request, is_endless, length-remove, find-AllWaiting}
use horse_rpc.Base.Succeeds.{Succeeds, Succeeds-bind, Succeeds-weaken}
use horse_rpc.Client.Invocation.Ready.{Keeps, IsReady, waiting-endless, finish_message-Ends}
use horse_rpc.Client.Invocation.Calls.{same, Keeps-IsReady, Keeps-refl, Keeps-trans}
use horse_rpc.Client.Invocation.Returns.{taken-Keeps}

-- No deadline has passed at a time.
abbrev pub not_due : ℕ → List Node → Bool
not_due now [] = true
not_due now (n ∷ ns) = ltb now n.time

abbrev pub IsBelow : ℕ → List Node → Type 0
IsBelow bound ns = All (λ (n : Node). n.time ≤ bound) ns

-- What timeout(t) takes out of a valid queue.
pub record Expired (q r : TimeoutQueue ReqMessage) (msg : ReqMessage) : Type 0 where
  pub id : ℕ
  pub entry : Entry ReqMessage
  pub found : find id q.entries ≡ some entry
  pub message : msg ≡ entry.ptr
  pub valid : IsValid r
  pub node : Node
  pub times : q.time ≡ node ∷ r.time
  pub rest : r.entries ≡ remove (λ x. x.id) id q.entries

entries-expire :
    (q : TimeoutQueue ReqMessage) (id : ℕ) (ns : List Node) (e : Entry ReqMessage)
    → find id q.entries ≡ some e
    → (expire id ns q).entries ≡ remove (λ x. x.id) id q.entries
unfolding expire
entries-expire q id ns e f = rw (expire, f) refl

timeout_one-Expired :
    (now : ℕ) (q : TimeoutQueue ReqMessage)
    → IsValid q
    → ((timeout_one now q ≡ (none, q)) × (not_due now q.time ≡ true))
      ⊎ ((msg : ReqMessage) × (r : TimeoutQueue ReqMessage) × (timeout_one now q ≡ (some msg, r))
          × Expired q r msg)
unfolding timeout_one
timeout_one-Expired now q v = by_front q.time refl
  where
    by_front :
        (ns : List Node)
        → q.time ≡ ns
        → ((timeout_one now q ≡ (none, q)) × (not_due now q.time ≡ true))
          ⊎ ((msg : ReqMessage) × (r : TimeoutQueue ReqMessage) × (timeout_one now q
                ≡ (some msg, r))
              × Expired q r msg)
    by_front [] t = inl (simp (timeout_one, t) refl, ap (not_due now) t)
    by_front (n ∷ ns) t = elim (Bool-cases (ltb now n.time)) [
      | inl e ↦ inl (simp (timeout_one, t, e) refl, ap (not_due now) t ∙ e)
      | inr e ↦ elim (Option-cases (find n.data_iter q.entries)) [
        | inl f ↦ absurd (omega (arith, find-none n.data_iter q.entries f, timed_front q n ns v t))
        | inr (x, f) ↦ inr (
          x.ptr,
          expire n.data_iter ns q,
          simp (timeout_one, t, e, f) refl,
          record {
            id = n.data_iter;
            entry = x;
            found = f;
            message = refl;
            valid = expire-IsValid q n ns v t;
            node = n;
            times = t ∙ ap (◌∷◌ n) (sym (expire-time n.data_iter ns q));
            rest = entries-expire q n.data_iter ns x f;
          },
        )
      ]
    ]

-- What doTimeout leaves: the last round found no deadline that had passed.
pub record Drained {T : Type 0} (clock : ℕ → ℕ × ℕ × ℕ) (σ τ : Invoker T) : Type 0 where
  pub keeps : Keeps same σ τ
  pub below : (bound : ℕ) → IsBelow bound σ.queue.time → IsBelow bound τ.queue.time
  pub round : ℕ
  pub late : not_due (clock round).0 τ.queue.time ≡ true

module _ {T : Type 0} where
  Drained-trans :
      {clock : ℕ → ℕ × ℕ × ℕ} {σ ρ τ : Invoker T}
      → Keeps same σ ρ
      → ((bound : ℕ) → IsBelow bound σ.queue.time → IsBelow bound ρ.queue.time)
      → Drained clock ρ τ
      → Drained clock σ τ
  Drained-trans k b d = record {
    keeps = Keeps-trans k d.keeps;
    below = λ bound h. d.below bound (b bound h);
    round = d.round;
    late = d.late;
  }

  rest-IsBelow :
      (σ τ : Invoker T) (r : TimeoutQueue ReqMessage) (msg : ReqMessage)
      → Expired σ.queue r msg
      → τ.queue ≡ r
      → (bound : ℕ) → IsBelow bound σ.queue.time
      → IsBelow bound τ.queue.time
  rest-IsBelow σ τ r msg x e bound h =
      subst (λ (q : TimeoutQueue ReqMessage). IsBelow bound q.time) (sym e)
        (subst (IsBelow bound) x.times h).1

module _ {T : Type 0} (close : T → T) (info : CheckTimeoutInfo)
    (send_request : T → ReqMessage → ReturnStatus × T) where
  -- Every round ends a request, and the loop ends when no deadline has passed.
  timeout_rounds-Drained :
      (clock : ℕ → ℕ × ℕ × ℕ) (fuel : ℕ) (σ : Invoker T)
      → IsReady σ
      → length σ.queue.entries < fuel
      → Succeeds (Drained clock σ) (timeout_rounds close info send_request clock fuel σ)
  unfolding timeout_rounds
  timeout_rounds-Drained clock zero σ v h = absurd (omega arith)
  timeout_rounds-Drained clock (suc fuel) σ v h =
      elim (timeout_one-Expired (clock fuel).0 σ.queue v.valid) [
        | inl (e, late) ↦
            rw (timeout_rounds, e)
              (rw e (record {
                keeps = Keeps-refl σ v;
                below = λ bound b. b;
                round = fuel;
                late = late;
              }))
        | inr (msg, r, e, x) ↦
            rw (timeout_rounds, e)
              (rw e (
                Succeeds-bind (Drained clock σ) _ _
                  (finish_message-Ends close info send_request (clock fuel).1 (clock fuel).2
                    (timed_out close info send_request σ.adapter.conn_exc_cnt msg) (with_queue r σ)
                    (ap is_endless x.message
                      ∙ waiting-endless x.entry.ptr
                          (find-AllWaiting x.id σ.queue.entries x.entry v.waiting x.found)))
                  (λ τ ending.
                    let one =
                      taken-Keeps σ (with_queue r σ) τ x.id x.entry _ v x.found x.valid x.rest refl
                        (λ p. ap (is_request p) x.message) ending in
                    let left =
                      ap (λ (q : TimeoutQueue ReqMessage). length q.entries) ending.queue
                      ∙ ap length x.rest in
                    Succeeds-weaken (Drained clock τ) (Drained clock σ) _
                      (λ π. Drained-trans one (rest-IsBelow σ τ r msg x ending.queue))
                      (timeout_rounds-Drained clock fuel τ (Keeps-IsReady one) (
                        omega
                          (arith, h, left, length-remove x.id σ.queue.entries x.entry x.found))))))
      ]

  pub do_timeout-Drained :
      (clock : ℕ → ℕ × ℕ × ℕ) (σ : Invoker T)
      → IsReady σ
      → Succeeds (Drained clock σ) (do_timeout close info send_request clock σ)
  unfolding do_timeout
  do_timeout-Drained clock σ v =
      timeout_rounds-Drained clock (suc (length σ.queue.entries)) σ v (omega arith)
