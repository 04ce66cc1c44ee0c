-- ===== src/Queues/TimeoutQueue/Valid.antt =====
-- The invariant of a TC_TimeoutQueueNew, and that every operation keeps it.
use horse_rpc.Base.{
  ℕ, ◌+◌, ◌≤◌, ◌≡◌, refl, ap, sym, ◌∙◌, Bool, true, false, not, ◌&&◌, some, List, [], ◌∷◌, ◌++◌,
  ltb, ◌==◌, if◌then◌else◌, arith, Bool-cases, Option-cases, inl, inr, ==_refl,
}
use horse_rpc.Queues.TimeoutQueue.{
  Entry, Node, TimeoutQueue, remove, find, new, discard, get, erase, push, expire, timeout_loop,
  timeout,
}
use horse_rpc.Queues.TimeoutQueue.Counts.{
  bit, eq-of, count, all, unsent, count-le, count-remove, count-append, count-insert_time,
  find-none, find-some,
}

abbrev pub timed : ℕ → List Node → ℕ
timed id ns = count (λ n. n.data_iter) all id ns

abbrev pub queued : ℕ → List ℕ → ℕ
queued id xs = count (λ x. x) all id xs

module _ {ℓ} {A : Type ℓ} where
  abbrev pub stored : ℕ → List (Entry A) → ℕ
  stored id es = count (λ e. e.id) all id es

  abbrev pub waiting : ℕ → List (Entry A) → ℕ
  waiting id es = count (λ e. e.id) unsent id es

  -- An id is stored once at most; it has a deadline exactly when it is stored, and is in the send
  -- list exactly when it is stored and not sent.
  pub record IsValid (q : TimeoutQueue A) : Type ℓ where
    pub once : (id : ℕ) → stored id q.entries ≤ 1
    pub times : (id : ℕ) → timed id q.time ≡ stored id q.entries
    pub sends : (id : ℕ) → queued id q.send ≡ waiting id q.entries

  pub new-IsValid : IsValid new
  unfolding new
  new-IsValid = record { once = λ id. omega arith; times = λ id. refl; sends = λ id. refl }

  -- Each id is counted once in each container.
  module _ (q : TimeoutQueue A) (v : IsValid q) (id : ℕ) (e : Entry A)
      (found : find id q.entries ≡ some e) where
    one_timed : timed id q.time ≤ 1
    one_timed = omega (arith, v.times id, v.once id)

    one_queued : queued id q.send ≤ 1
    one_queued = omega (arith, v.sends id, v.once id, count-le (λ e. e.id) unsent id q.entries)

    nothing_waits : (j : ℕ) → e.has_send ≡ true → (j == id) ≡ true → waiting j q.entries ≡ 0
    nothing_waits j s h =
        ap (λ i. waiting i q.entries) (eq-of id j h)
        ∙ (find-some id q.entries e found (v.once id)).1
        ∙ ap (λ b. bit (not b)) s

    -- The send list without the node of `e`.
    pub sends_without :
        (j : ℕ)
        → queued j (if e.has_send then q.send else remove (λ x. x) id q.send)
          ≡ waiting j (remove (λ e. e.id) id q.entries)
    sends_without j = elim (Bool-cases e.has_send) [
      | inl s ↦
          rw (s, count-remove (λ e. e.id) unsent id j q.entries (v.once id))
            (ground (arith, v.sends j, nothing_waits j s))
      | inr s ↦ rw (
        s,
        count-remove (λ e. e.id) unsent id j q.entries (v.once id),
        count-remove (λ x. x) all id j q.send one_queued,
        v.sends j,
      )
    ]

    pub discard-IsValid : IsValid (discard id e q)
    unfolding discard
    discard-IsValid = record {
      once = λ j.
          rw (count-remove (λ e. e.id) all id j q.entries (v.once id)) (ground (arith, v.once j));
      times = λ j. rw (
        count-remove (λ e. e.id) all id j q.entries (v.once id),
        count-remove (λ n. n.data_iter) all id j q.time one_timed,
        v.times j,
      );
      sends = sends_without;
    }

  pub erase-IsValid : (q : TimeoutQueue A) (id : ℕ) → IsValid q → IsValid (erase id q).1
  unfolding erase
  erase-IsValid q id v = elim (Option-cases (find id q.entries)) [
    | inl n ↦ rw (n, erase) v
    | inr (e, f) ↦ rw (f, erase) (discard-IsValid q v id e f)
  ]

  pub get-IsValid :
      (q : TimeoutQueue A) (id : ℕ) (b_erase : Bool) → IsValid q → IsValid (get id b_erase q).1
  unfolding get
  get-IsValid q id b_erase v = elim (Option-cases (find id q.entries)) [
    | inl n ↦ rw (n, get) v
    | inr (e, f) ↦ rw (f, get) (pick b_erase e (discard-IsValid q v id e f))
  ]
    where
      pick :
          (b : Bool) (e : Entry A)
          → IsValid (discard id e q)
          → IsValid (if b then discard id e q else q)
      pick true e w = w
      pick false e w = v

  pub push-IsValid :
      (q : TimeoutQueue A) (ptr : A) (id time : ℕ) (has_send : Bool)
      → IsValid q
      → IsValid (push ptr id time has_send q).1
  unfolding push
  push-IsValid q ptr id time has_send v = elim (Option-cases (find id q.entries)) [
    | inl n ↦
        rw (n, push)
          (record {
            once = λ j. ground (arith, v.once j, none_stored j (find-none id q.entries n));
            times = λ j.
                rw (count-insert_time (record { time = time; data_iter = id }) j q.time, v.times j)
                  (ground arith);
            sends = λ j. sends j has_send;
          })
    | inr (e, f) ↦ rw (f, push) v
  ]
    where
      none_stored : (j : ℕ) → stored id q.entries ≡ 0 → (id == j) ≡ true → stored j q.entries ≡ 0
      none_stored j z h = ap (λ i. stored i q.entries) (sym (eq-of j id h)) ∙ z

      sends :
          (j : ℕ) (b : Bool)
          → queued j (if b then q.send else q.send ++ id ∷ [])
            ≡ bit (id == j && not b) + waiting j q.entries
      sends j true = v.sends j ∙ ground arith
      sends j false = rw (count-append (λ x. x) all j q.send (id ∷ []), v.sends j) (ground arith)

  pub timed_front :
      (q : TimeoutQueue A) (n : Node) (ns : List Node)
      → IsValid q
      → q.time ≡ n ∷ ns
      → 1 ≤ stored n.data_iter q.entries
  timed_front q n ns v t =
      let front : timed n.data_iter q.time ≡ timed n.data_iter (n ∷ ns) =
        ap (timed n.data_iter) t in
      let one : bit (n.data_iter == n.data_iter && true) ≡ 1 = rw (==_refl n.data_iter) in
      omega (arith, v.times n.data_iter, front, one)

  removed :
      (q : TimeoutQueue A) (n : Node) (ns : List Node)
      → q.time ≡ n ∷ ns
      → ns ≡ remove (λ n. n.data_iter) n.data_iter q.time
  unfolding remove
  removed q n ns t = rw (t, ==_refl n.data_iter) refl

  -- A node at the front of the multimap belongs to a stored entry.
  pub expire-IsValid :
      (q : TimeoutQueue A) (n : Node) (ns : List Node)
      → IsValid q
      → q.time ≡ n ∷ ns
      → IsValid (expire n.data_iter ns q)
  unfolding expire remove discard
  expire-IsValid q n ns v t = elim (Option-cases (find n.data_iter q.entries)) [
    | inl f ↦ absurd (omega (arith, find-none n.data_iter q.entries f, timed_front q n ns v t))
    | inr (e, f) ↦
        rw (f, expire)
          (record {
            once = (discard-IsValid q v n.data_iter e f).once;
            times = λ j.
                ap (timed j) (removed q n ns t) ∙ (discard-IsValid q v n.data_iter e f).times j;
            sends = sends_without q v n.data_iter e f;
          })
  ]

  pub expire-time : (id : ℕ) (ns : List Node) (q : TimeoutQueue A) → (expire id ns q).time ≡ ns
  unfolding expire
  expire-time id ns q = elim (Option-cases (find id q.entries)) [
    | inl f ↦ rw (f, expire)
    | inr (e, f) ↦ rw (f, expire)
  ]

  pub timeout_loop-IsValid :
      (now : ℕ) (nodes : List Node) (q : TimeoutQueue A)
      → IsValid q
      → q.time ≡ nodes
      → IsValid (timeout_loop now nodes q)
  unfolding timeout_loop
  timeout_loop-IsValid now [] q v e = v
  timeout_loop-IsValid now (n ∷ ns) q v e = elim (Bool-cases (ltb now n.time)) [
    | inl t ↦ rw t v
    | inr t ↦ rw t (
        timeout_loop-IsValid now ns (expire n.data_iter ns q) (expire-IsValid q n ns v e)
          (expire-time n.data_iter ns q))
  ]

  pub timeout-IsValid : (now : ℕ) (q : TimeoutQueue A) → IsValid q → IsValid (timeout now q)
  unfolding timeout
  timeout-IsValid now q v = timeout_loop-IsValid now q.time q v refl
