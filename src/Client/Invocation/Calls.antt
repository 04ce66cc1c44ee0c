-- ===== src/Client/Invocation/Calls.antt =====
-- invoke, doInvoke, finishInvoke and doTimeout: what each keeps of the requests.
use horse_rpc.Base.{
  ℕ, zero, suc, ◌≡◌, ◌≤◌, refl, true, false, none, some, List, [], ◌∷◌, leb, if◌then◌else◌, arith,
  Bool-cases, inl, inr, length,
}
use horse_rpc.Queues.TimeoutQueue.{
  nothing, TimeoutQueue, Entry, find, send_list_empty, get_send_list_size, get_send, pop_send,
  pop_back, generate_id,
}
use horse_rpc.Queues.TimeoutQueue.Counts.{bit}
use horse_rpc.Queues.TimeoutQueue.Sends.{pop_back-IsValid, get_send-front}
use horse_rpc.Base.Int.{ℤ, pos, negsuc}
use horse_rpc.Client.Adapter.{CheckTimeoutInfo}
use horse_rpc.Client.Messages.{req_exc, ReqMessage, ReturnStatus, is_one_way, with_status}
use horse_rpc.Client.Invocation.{
  deletes, Invoker, ends, with_queue, with_trans, pop_sent, finish_message, enqueue,
  invoke_connection_parallel, invoke, send_loop, do_invoke,
}
use horse_rpc.Client.Invocation.Owned.{
  is_request, is_waiting, over-append, held-remove, held-mark_sent, remove-AllWaiting,
  mark_sent-AllWaiting,
}
use horse_rpc.Base.Succeeds.{Succeeds, Succeeds-map, Succeeds-bind, Succeeds-weaken, if-Succeeds}
use horse_rpc.Client.Invocation.Ready.{
  Keeps, IsReady, ReturnStatus-cases, Ends-Keeps, deletes-Ends, waiting-endless,
  finish_message-Ends, enqueue-Keeps,
}

abbrev pub same : ℕ → ℕ
same p = 0

module _ {T : Type 0} where
  -- The state of the connection does not matter.
  trans-IsReady : (t : T) (σ : Invoker T) → IsReady σ → IsReady (with_trans t σ)
  trans-IsReady t σ v = record { valid = v.valid; waiting = v.waiting }

  trans-Keeps : (d : ℕ → ℕ) (t : T) (σ τ : Invoker T) → Keeps d (with_trans t σ) τ → Keeps d σ τ
  trans-Keeps d t σ τ k = record { valid = k.valid; waiting = k.waiting; all = k.all }

  pub Keeps-IsReady : {d : ℕ → ℕ} {σ τ : Invoker T} → Keeps d σ τ → IsReady τ
  Keeps-IsReady k = record { valid = k.valid; waiting = k.waiting }

  pub Keeps-refl : (σ : Invoker T) → IsReady σ → Keeps same σ σ
  Keeps-refl σ v = record { valid = v.valid; waiting = v.waiting; all = λ p. omega arith }

  pub Keeps-trans : {d : ℕ → ℕ} {σ ρ τ : Invoker T} → Keeps same σ ρ → Keeps d ρ τ → Keeps d σ τ
  Keeps-trans j k = record {
    valid = k.valid;
    waiting = k.waiting;
    all = λ p. omega (arith, j.all p, k.all p);
  }

  -- popSend for the message that getSend gave.
  pop_sent-Keeps :
      (σ : Invoker T) (id : ℕ) (ids : List ℕ) (e : Entry ReqMessage)
      → IsReady σ
      → σ.queue.send ≡ id ∷ ids
      → find id σ.queue.entries ≡ some e
      → Succeeds (λ τ. Keeps same σ τ × (τ.queue.send ≡ ids)) (pop_sent e.ptr σ)
  unfolding pop_sent pop_send pop_back
  pop_sent-Keeps σ id ids e v s f = elim (Bool-cases (is_one_way e.ptr)) [
    | inl one ↦
        rw (pop_sent, pop_send, s, one, pop_back)
          (
            record {
              valid = pop_back-IsValid σ.queue id ids v.valid s true;
              waiting = remove-AllWaiting id σ.queue.entries v.waiting;
              all = λ p. omega (
                arith,
                held-remove p id σ.queue.entries e f,
                over-append p σ.ended deletes e.ptr,
              );
            },
            refl,
          )
    | inr two ↦
        rw (pop_sent, pop_send, s, two, pop_back)
          (
            record {
              valid = pop_back-IsValid σ.queue id ids v.valid s false;
              waiting = mark_sent-AllWaiting id σ.queue.entries v.waiting;
              all = λ p. omega (arith, held-mark_sent p id σ.queue.entries);
            },
            refl,
          )
  ]

-- An empty send list has nothing to send.
nothing_queued :
    (q : TimeoutQueue ReqMessage)
    → q.send ≡ []
    → (send_list_empty q ≡ true) × (get_send q ≡ nothing)
unfolding send_list_empty get_send
nothing_queued q s = (rw (send_list_empty, s) refl, rw (get_send, s) refl)

module _ {T : Type 0} (close : T → T) (info : CheckTimeoutInfo)
    (send_request : T → ReqMessage → ReturnStatus × T) where
  -- A message that fails is over.
  failed-Keeps :
      (code : ℤ) (now later : ℕ) (msg : ReqMessage) (σ : Invoker T)
      → IsReady σ
      → is_waiting msg ≡ true
      → Succeeds
          (λ (r : ℤ × Invoker T). Keeps (λ p. bit (is_request p msg)) σ r.1)
          (elim (finish_message close info send_request now later (with_status req_exc msg) σ) [
            | none ↦ none
            | some τ ↦ some (code, τ)
          ])
  failed-Keeps code now later msg σ v w =
      Succeeds-map (λ (r : ℤ × Invoker T). Keeps (λ p. bit (is_request p msg)) σ r.1)
        (λ τ. (code, τ)) _
        (finish_message-Ends close info send_request now later (with_status req_exc msg) σ
          (waiting-endless msg w))
        (λ τ. Ends-Keeps (with_status req_exc msg) σ τ v)

  -- invoke takes the request over: it is in the queue, or has ended.
  invoke_connection_parallel-Keeps :
      (now later : ℕ) (msg : ReqMessage) (σ : Invoker T)
      → IsReady σ
      → is_waiting msg ≡ true
      → Succeeds
          (λ (r : ℤ × Invoker T). Keeps (λ p. bit (is_request p msg)) σ r.1)
          (invoke_connection_parallel close info send_request now later msg σ)
  unfolding invoke_connection_parallel
  invoke_connection_parallel-Keeps now later msg σ v w =
      let Result =
        λ (ρ : Invoker T) (r : ℤ × Invoker T). Keeps (λ p. bit (is_request p msg)) ρ r.1 in
      let t = (send_request σ.adapter.trans msg).1 in
      let σ' = with_trans t σ in
      let v' = trans-IsReady t σ v in
      let over_trans = λ (r : ℤ × Invoker T) (k : Result σ' r).
        trans-Keeps (λ p. bit (is_request p msg)) t σ r.1 k in
      let sent : Succeeds (Result σ) (
          if is_one_way msg
          then some (pos 0, ends deletes msg σ')
          else enqueue close info send_request now later true msg σ') =
        if-Succeeds (Result σ) (is_one_way msg) _ _
          (over_trans (pos 0, ends deletes msg σ') (Ends-Keeps msg σ' _ v' (deletes-Ends msg σ')))
          (Succeeds-weaken (Result σ') (Result σ) _ over_trans
            (enqueue-Keeps close info send_request now later true msg σ' v' w)) in
      let queued = enqueue-Keeps close info send_request now later false msg σ v w in
      if-Succeeds (Result σ) (send_list_empty σ.queue) _ _
        (elim (ReturnStatus-cases (send_request σ.adapter.trans msg).0) [
          | inl e ↦ rw e (
              Succeeds-weaken (Result σ') (Result σ) _ over_trans
                (failed-Keeps (negsuc 0) now later msg σ' v' w))
          | inr (inl e) ↦ rw e (
              Succeeds-weaken (Result σ') (Result σ) _ over_trans
                (enqueue-Keeps close info send_request now later false msg σ' v' w))
          | inr (inr (inl e)) ↦ rw e sent
          | inr (inr (inr e)) ↦ rw e sent
        ])
        queued

  -- A new request is taken over whole: it is in the queue, or has ended.
  pub invoke-Keeps :
      (limit now later : ℕ) (msg : ReqMessage) (σ : Invoker T)
      → IsReady σ
      → is_waiting msg ≡ true
      → Succeeds
          (λ (r : ℤ × Invoker T). Keeps (λ p. bit (is_request p msg)) σ r.1)
          (invoke close info send_request limit now later msg σ)
  unfolding invoke generate_id
  invoke-Keeps limit now later msg σ v w =
      let i = (generate_id σ.queue).0 in
      let q = (generate_id σ.queue).1 in
      let v' : IsReady (with_queue q σ) = record {
        valid = record { once = v.valid.once; times = v.valid.times; sends = v.valid.sends };
        waiting = v.waiting;
      } in
      let named =
        invoke_connection_parallel-Keeps now later (record msg { i_request_id = i })
          (with_queue q σ) v' w in
      let Result =
        λ (ρ : Invoker T) (r : ℤ × Invoker T). Keeps (λ p. bit (is_request p msg)) ρ r.1 in
      if-Succeeds (Result σ) (leb limit (get_send_list_size σ.queue)) _ _
        (failed-Keeps (pos 0) now later msg σ v w)
        (if-Succeeds (Result σ) msg.b_from_rpc _ _
          (invoke_connection_parallel-Keeps now later msg σ v w)
          (Succeeds-weaken (Result (with_queue q σ)) (Result σ) _
            (λ r k. record { valid = k.valid; waiting = k.waiting; all = k.all }) named))

  -- The asserts of getSend and popSend hold, and the loop ends.
  send_loop-Keeps :
      (fuel : ℕ) (xs : List ℕ) (σ : Invoker T)
      → IsReady σ
      → σ.queue.send ≡ xs
      → length xs ≤ fuel
      → Succeeds (Keeps same σ) (send_loop close info send_request fuel σ)
  unfolding send_loop
  send_loop-Keeps zero [] σ v s h = rw (send_loop, (nothing_queued σ.queue s).0) (Keeps-refl σ v)
  send_loop-Keeps zero (id ∷ ids) σ v s h = absurd (omega arith)
  send_loop-Keeps (suc fuel) [] σ v s h =
      rw (send_loop, (nothing_queued σ.queue s).1) (Keeps-refl σ v)
  send_loop-Keeps (suc fuel) (id ∷ ids) σ v s h =
      let (e, f, w, g) = get_send-front σ.queue id ids v.valid s in
      let t = (send_request σ.adapter.trans e.ptr).1 in
      let σ' = with_trans t σ in
      let popped = pop_sent-Keeps σ' id ids e (trans-IsReady t σ v) s f in
      let stopped = trans-Keeps same t σ σ' (Keeps-refl σ' (trans-IsReady t σ v)) in
      rw (send_loop, g)
        (elim (ReturnStatus-cases (send_request σ.adapter.trans e.ptr).0) [
          | inl r ↦ rw r stopped
          | inr (inl r) ↦ rw r stopped
          | inr (inr (inl r)) ↦
              rw r (Succeeds-weaken _ (Keeps same σ) _ (λ τ k. trans-Keeps same t σ τ k.0) popped)
          | inr (inr (inr r)) ↦ rw r (
              Succeeds-bind (Keeps same σ) _ _ popped (λ τ k.
                let one = trans-Keeps same t σ τ k.0 in
                Succeeds-weaken (Keeps same τ) (Keeps same σ) _ (λ ρ. Keeps-trans one)
                  (send_loop-Keeps fuel ids τ (Keeps-IsReady one) k.1 (omega (arith, h)))))
        ])

  pub do_invoke-Keeps :
      (σ : Invoker T) → IsReady σ → Succeeds (Keeps same σ) (do_invoke close info send_request σ)
  unfolding do_invoke get_send_list_size
  do_invoke-Keeps σ v =
      send_loop-Keeps (get_send_list_size σ.queue) σ.queue.send σ v refl (omega arith)
