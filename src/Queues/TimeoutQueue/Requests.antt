-- ===== src/Queues/TimeoutQueue/Requests.antt =====
-- What the member functions of a TC_TimeoutQueueNew promise for the requests in it.
use horse_rpc.Base.{
  ℕ, ◌+◌, ◌^◌, ◌≤◌, ◌<◌, ◌≡◌, ◌≢◌, refl, ap, ◌∙◌, Bool, true, false, ◌&&◌, none, some, List, [],
  ◌∷◌, ◌++◌, ltb, ◌==◌, if◌then◌else◌, arith, Bool-cases, inl, inr, ==_refl,
}
use horse_rpc.Queues.TimeoutQueue.{
  Node, TimeoutQueue, remove, insert_time, find, generate_id, discard, get, push, timeout,
}
use horse_rpc.Queues.TimeoutQueue.Counts.{bit, find-none, count-le, unsent}
use horse_rpc.Queues.TimeoutQueue.Valid.{timed, queued}
use horse_rpc.Queues.TimeoutQueue.Expiry.{due, timeout_loop-find}
use horse_rpc.Queues.TimeoutQueue.Reach.{Reach, Reach-Inv}

zero_split : (b : Bool) (k : ℕ) → bit (b && true) + k ≡ 0 → (b ≡ false) × (k ≡ 0)
zero_split true k h = absurd (omega arith)
zero_split false k h = (refl, omega arith)

remove-insert_time :
    (n : Node) (ns : List Node)
    → timed n.data_iter ns ≡ 0
    → remove (λ n. n.data_iter) n.data_iter (insert_time n ns) ≡ ns
unfolding remove insert_time
remove-insert_time n [] h = rw (==_refl n.data_iter)
remove-insert_time n (m ∷ ms) h =
    let (miss, z) = zero_split (m.data_iter == n.data_iter) (timed n.data_iter ms) h in
    elim (Bool-cases (ltb n.time m.time)) [
      | inl e ↦ rw (e, ==_refl n.data_iter)
      | inr e ↦ rw (e, miss) (ap (◌∷◌ m) (remove-insert_time n ms z))
    ]

remove-append : (id : ℕ) (xs : List ℕ) → queued id xs ≡ 0 → remove (λ x. x) id (xs ++ id ∷ []) ≡ xs
unfolding remove
remove-append id [] h = rw (==_refl id)
remove-append id (x ∷ xs) h =
    let (miss, z) = zero_split (x == id) (queued id xs) h in
    rw miss (ap (◌∷◌ x) (remove-append id xs z))

module _ {ℓ} {A : Type ℓ} where
  -- The queue behind a push.
  pushed : A → ℕ → ℕ → Bool → TimeoutQueue A → TimeoutQueue A
  pushed ptr id time has_send q = record q {
    entries = record { id = id; ptr = ptr; has_send = has_send } ∷ q.entries;
    time = insert_time (record { time = time; data_iter = id }) q.time;
    send = if has_send then q.send else q.send ++ id ∷ [];
  }

  get-pushed :
      (q : TimeoutQueue A) (ptr : A) (id time : ℕ) (has_send : Bool)
      → get id true (pushed ptr id time has_send q) ≡ (
        some ptr,
        discard id
            (record { id = id; ptr = ptr; has_send = has_send })
            (pushed ptr id time has_send q),
      )
  unfolding get find pushed
  get-pushed q ptr id time has_send = rw (get, ==_refl id)

  discard-pushed :
      (q : TimeoutQueue A) (ptr : A) (id time : ℕ) (has_send : Bool)
      → timed id q.time ≡ 0
      → queued id q.send ≡ 0
      → discard id
          (record { id = id; ptr = ptr; has_send = has_send })
          (pushed ptr id time has_send q)
        ≡ q
  unfolding discard remove pushed
  discard-pushed q ptr id time true t s =
      rw (==_refl id, remove-insert_time (record { time = time; data_iter = id }) q.time t) refl
  discard-pushed q ptr id time false t s =
      rw
        (
          ==_refl id,
          remove-insert_time (record { time = time; data_iter = id }) q.time t,
          remove-append id q.send s,
        )
        refl

  -- In every reachable state, a request that is pushed under an id that is not stored, and fetched
  -- with bErase, comes back and leaves the queue as it was.
  pub get-push :
      (q : TimeoutQueue A) (ptr : A) (id time : ℕ) (has_send : Bool)
      → Reach q
      → find id q.entries ≡ none
      → get id true (push ptr id time has_send q).1 ≡ (some ptr, q)
  unfolding push pushed
  get-push q ptr id time has_send r n =
      let v = (Reach-Inv q r).valid in
      let z = find-none id q.entries n in
      rw (n, push)
        (get-pushed q ptr id time has_send
          ∙ ap (λ q'. (some ptr, q'))
              (discard-pushed q ptr id time has_send (v.times id ∙ z)
                (omega (arith, v.sends id, count-le (λ e. e.id) unsent id q.entries, z))))

  -- In every reachable state, timeout removes exactly the requests with a deadline of at most now,
  -- and leaves the others as they are.
  pub find-timeout :
      (q : TimeoutQueue A) (now id : ℕ)
      → Reach q
      → find id (timeout now q).entries ≡ (if due now id q.time then none else find id q.entries)
  unfolding timeout
  find-timeout q now id r =
      let i = Reach-Inv q r in timeout_loop-find now id q.time q i.valid refl i.sorted

  -- A generated id is a uint32_t, is not 0, and differs from the last one, also where the counter
  -- wraps.
  pub generate_id-fresh :
      (q : TimeoutQueue A)
      → q.uniq_id < 2 ^ 32
      → (1 ≤ (generate_id q).0)
        × ((generate_id q).0 < 2 ^ 32)
        × ((generate_id q).0 ≢ q.uniq_id)
        × ((generate_id q).1.uniq_id ≡ (generate_id q).0)
  unfolding generate_id
  generate_id-fresh q h = ground arith
