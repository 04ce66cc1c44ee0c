-- ===== src/Queues/TimeoutQueue/Order.antt =====
-- The order in which getSend and popSend of a TC_TimeoutQueueNew give the requests.
use horse_rpc.Base.{
  ℕ, zero, suc, ◌≡◌, refl, ap, ◌∙◌, Bool, true, false, Option, none, some, List, [], ◌∷◌, ◌++◌,
  ◌==◌, length, length-append, arith, Bool-cases, inl, inr, ==_refl,
}
use horse_rpc.Queues.TimeoutQueue.{
  Entry, TimeoutQueue, nothing, value, aborts, remove, find, mark_sent, get_send_list_size,
  get_send, pop_back, pop_send, push,
}
use horse_rpc.Queues.TimeoutQueue.Counts.{eq-of}
use horse_rpc.Queues.TimeoutQueue.Valid.{IsValid}
use horse_rpc.Queues.TimeoutQueue.Sends.{pop_back-IsValid, get_send-front}
use horse_rpc.Queues.TimeoutQueue.Reach.{Reach, Reach-Inv}

module _ {ℓ} {A : Type ℓ} where
  other_id :
      (i j : ℕ) (es : List (Entry A)) {e : Entry A}
      → find i es ≡ none
      → find j es ≡ some e
      → (i == j) ≡ false
  other_id i j es n f = elim (Bool-cases (i == j)) [
    | inl same ↦ absurd (clash (ap (λ k. find k es) (eq-of j i same)))
    | inr other ↦ other
  ]
    where
      clash : find i es ≡ find j es → ⊥
      clash same = cc

  find-remove-none :
      (i j : ℕ) (es : List (Entry A)) → find i es ≡ none → find i (remove (λ e. e.id) j es) ≡ none
  unfolding find remove
  find-remove-none i j [] n = refl
  find-remove-none i j (e ∷ es) n = ground (arith, find-remove-none i j es)

  find-mark_sent-none :
      (i j : ℕ) (es : List (Entry A)) → find i es ≡ none → find i (mark_sent j es) ≡ none
  unfolding find mark_sent
  find-mark_sent-none i j [] n = refl
  find-mark_sent-none i j (e ∷ es) n = ground (arith, find-mark_sent-none i j es)

  find-pop_back :
      (i j : ℕ) (d : Bool) (ids : List ℕ) (q : TimeoutQueue A)
      → find i q.entries ≡ none
      → find i (pop_back d j ids q).entries ≡ none
  unfolding pop_back
  find-pop_back i j true ids q n = find-remove-none i j q.entries n
  find-pop_back i j false ids q n = find-mark_sent-none i j q.entries n

  -- A new entry in front stays when another one is popped.
  entries-pop_back :
      (j : ℕ) (d : Bool) (ids jds : List ℕ) (q r : TimeoutQueue A) (x : Entry A)
      → r.entries ≡ x ∷ q.entries
      → (x.id == j) ≡ false
      → (pop_back d j jds r).entries ≡ x ∷ (pop_back d j ids q).entries
  unfolding pop_back remove mark_sent
  entries-pop_back j true ids jds q r x e other = rw (e, other) refl
  entries-pop_back j false ids jds q r x e other = rw (e, other) refl

  send-pop_back :
      (j : ℕ) (d : Bool) (ids : List ℕ) (q : TimeoutQueue A) → (pop_back d j ids q).send ≡ ids
  unfolding pop_back
  send-pop_back j true ids q = refl
  send-pop_back j false ids q = refl

-- Which requests popSend deletes, as it does for one-way calls.
module _ {ℓ} {A : Type ℓ} (del : A → Bool) where
  -- The requests that getSend and popSend give in at most so many rounds; `none` is a failed assert.
  unfoldable pub send_all : ℕ → TimeoutQueue A → Option (List A)
  send_all zero q = some []
  send_all (suc k) q = elim (get_send q) [
    | nothing ↦ some []
    | aborts ↦ none
    | value a ↦ elim (pop_send (del a) q) [
      | none ↦ none
      | some r ↦ elim (send_all k r) [ none ↦ none | some sent ↦ some (a ∷ sent) ]
    ]
  ]

  send_all-value :
      (k : ℕ) (q : TimeoutQueue A) (a : A) (id : ℕ) (ids : List ℕ) (sent : List A)
      → q.send ≡ id ∷ ids
      → get_send q ≡ value a
      → send_all k (pop_back (del a) id ids q) ≡ some sent
      → send_all (suc k) q ≡ some (a ∷ sent)
  unfolding send_all pop_send
  send_all-value k q a id ids sent s g h = rw (send_all, g) (rw (pop_send, s) (rw h refl))

  -- The request of an entry that was added at the end of the send list is sent last.
  send_all-behind :
      (ids : List ℕ) (q r : TimeoutQueue A) (x : Entry A)
      → IsValid q
      → x.has_send ≡ false
      → find x.id q.entries ≡ none
      → r.entries ≡ x ∷ q.entries
      → q.send ≡ ids
      → r.send ≡ ids ++ x.id ∷ []
      → (sent : List A) × (send_all (length ids) q ≡ some sent)
        × (send_all (suc (length ids)) r ≡ some (sent ++ x.ptr ∷ []))
  unfolding send_all get_send find
  send_all-behind [] q r x v w n e s t =
      let front : get_send r ≡ value x.ptr = rw (get_send, t, e, ==_refl x.id, w) refl in
      ([], refl, send_all-value zero r x.ptr x.id [] [] t front refl)
  send_all-behind (j ∷ ids) q r x v w n e s t =
      let (y, f, waits, g) = get_send-front q j ids v s in
      let other = other_id x.id j q.entries n f in
      let front : get_send r ≡ value y.ptr = rw (get_send, t, e, other, f, waits) refl in
      let d = del y.ptr in
      let jds = ids ++ x.id ∷ [] in
      let (sent, first, then) =
        send_all-behind ids (pop_back d j ids q) (pop_back d j jds r) x
          (pop_back-IsValid q j ids v s d) w (find-pop_back x.id j d ids q n)
          (entries-pop_back j d ids jds q r x e other) (send-pop_back j d ids q)
          (send-pop_back j d jds r) in
      (
        y.ptr ∷ sent,
        send_all-value (length ids) q y.ptr j ids sent s g first,
        send_all-value (suc (length ids)) r y.ptr j jds (sent ++ x.ptr ∷ []) t front then,
      )

  pushed-new :
      (q : TimeoutQueue A) (ptr : A) (id time : ℕ)
      → find id q.entries ≡ none
      → ((push ptr id time false q).1.entries
          ≡ record { id = id; ptr = ptr; has_send = false } ∷ q.entries)
        × ((push ptr id time false q).1.send ≡ q.send ++ id ∷ [])
  unfolding push
  pushed-new q ptr id time n = rw (push, n) (refl, refl)

  -- In every reachable state, rounds of getSend and popSend, as many as the send list is long and
  -- whichever requests popSend deletes, give a list of requests, and no assert of theirs fails. When
  -- a request is first pushed unsent, under an id that is not stored, they give the same list and
  -- then this request: the requests are sent in the order in which they were pushed.
  pub send_all-push :
      (q : TimeoutQueue A) (ptr : A) (id time : ℕ)
      → Reach q
      → find id q.entries ≡ none
      → (sent : List A) × (send_all (get_send_list_size q) q ≡ some sent)
        × (send_all (get_send_list_size (push ptr id time false q).1) (push ptr id time false q).1
            ≡ some (sent ++ ptr ∷ []))
  unfolding get_send_list_size
  send_all-push q ptr id time r n =
      let x : Entry A = record { id = id; ptr = ptr; has_send = false } in
      let after = (push ptr id time false q).1 in
      let (entries, send) = pushed-new q ptr id time n in
      let rounds : length after.send ≡ suc (length q.send) =
        ap length send ∙ length-append q.send (id ∷ []) ∙ omega arith in
      let (sent, before, behind) =
        send_all-behind q.send q after x (Reach-Inv q r).valid refl n entries refl send in
      (sent, before, ap (λ k. send_all k after) rounds ∙ behind)
