-- ===== src/Queues/TimeoutQueue/Expiry.antt =====
-- The deadlines are sorted, and timeout removes exactly the requests whose deadline has passed.
use horse_rpc.Base.{
  ℕ, ◌≤◌, ◌<◌, ◌≡◌, refl, ap, sym, ◌∙◌, Bool, true, false, Option, none, some, List, [], ◌∷◌, ltb,
  ◌==◌, if◌then◌else◌, arith, subst, All, Bool-cases, Option-cases, inl, inr, not, ◌&&◌, ◌||◌,
  ltb→lt, ltb_false→le,
}
use horse_rpc.Queues.TimeoutQueue.{
  Entry, Node, TimeoutQueue, remove, insert_time, find, expire, timeout_loop,
}
use horse_rpc.Queues.TimeoutQueue.Counts.{bit, count, all, eq-of, tail_bound, find-none}
use horse_rpc.Queues.TimeoutQueue.Valid.{IsValid, stored, expire-IsValid, expire-time, timed_front}

-- By rising time.
abbrev pub IsSorted : List Node → Type 0
IsSorted [] = Unit
IsSorted (n ∷ ns) = All (λ m. n.time ≤ m.time) ns × IsSorted ns

All-insert_time :
    (t : ℕ) (n : Node) (ns : List Node)
    → t ≤ n.time
    → All (λ m. t ≤ m.time) ns
    → All (λ m. t ≤ m.time) (insert_time n ns)
unfolding insert_time
All-insert_time t n [] h hs = (h, tt)
All-insert_time t n (m ∷ ms) h (hm, hs) = elim (Bool-cases (ltb n.time m.time)) [
  | inl e ↦ rw e (h, (hm, hs))
  | inr e ↦ rw e (hm, All-insert_time t n ms h hs)
]

All-weaken :
    (t u : ℕ) (ns : List Node) → t ≤ u → All (λ m. u ≤ m.time) ns → All (λ m. t ≤ m.time) ns
All-weaken t u [] h hs = tt
All-weaken t u (n ∷ ns) h (hn, hs) = (omega arith, All-weaken t u ns h hs)

pub insert_time-IsSorted : (n : Node) (ns : List Node) → IsSorted ns → IsSorted (insert_time n ns)
unfolding insert_time
insert_time-IsSorted n [] s = (tt, tt)
insert_time-IsSorted n (m ∷ ms) (h, s) = elim (Bool-cases (ltb n.time m.time)) [
  | inl e ↦
      let lt = ltb→lt n.time m.time e in
      rw e ((omega arith, All-weaken n.time m.time ms (omega arith) h), (h, s))
  | inr e ↦
      rw e
        (All-insert_time m.time n ms (ltb_false→le n.time m.time e) h, insert_time-IsSorted n ms s)
]

All-remove :
    (t id : ℕ) (ns : List Node)
    → All (λ m. t ≤ m.time) ns
    → All (λ m. t ≤ m.time) (remove (λ n. n.data_iter) id ns)
unfolding remove
All-remove t id [] h = tt
All-remove t id (n ∷ ns) (h, hs) = elim (Bool-cases (n.data_iter == id)) [
  | inl e ↦ rw e hs
  | inr e ↦ rw e (h, All-remove t id ns hs)
]

pub remove-IsSorted :
    (id : ℕ) (ns : List Node) → IsSorted ns → IsSorted (remove (λ n. n.data_iter) id ns)
unfolding remove
remove-IsSorted id [] s = tt
remove-IsSorted id (n ∷ ns) (h, s) = elim (Bool-cases (n.data_iter == id)) [
  | inl e ↦ rw e s
  | inr e ↦ rw e (All-remove n.time id ns h, remove-IsSorted id ns s)
]

-- A node of `id` has a deadline of at most `now`.
unfoldable pub due : ℕ → ℕ → List Node → Bool
due now id [] = false
due now id (n ∷ ns) = n.data_iter == id && not (ltb now n.time) || due now id ns

none_due :
    (now t id : ℕ) (ns : List Node) → now < t → All (λ m. t ≤ m.time) ns → due now id ns ≡ false
unfolding due
none_due now t id [] h hs = refl
none_due now t id (n ∷ ns) h (hn, hs) = ground (arith, none_due now t id ns h hs)

==_sym : (a b : ℕ) → (a == b) ≡ (b == a)
==_sym a b = ground arith

kept {ℓ} : {A : Type ℓ} (b : Bool) (o : Option A) → o ≡ (if b && not true || false then none else o)
kept true o = refl
kept false o = refl

merged {ℓ} :
    {A : Type ℓ} (b d : Bool) (o : Option A)
    → (if d then none else if b then none else o) ≡ (if b && true || d then none else o)
merged true true o = refl
merged true false o = refl
merged false true o = refl
merged false false o = refl

other : (a id j : ℕ) → (a == id) ≡ true → (j == id) ≡ false → (a == j) ≡ false
other a id j f g = ground arith

other' : (a id j : ℕ) → (a == id) ≡ false → (j == id) ≡ true → (a == j) ≡ false
other' a id j f g = ground arith

module _ {ℓ} {A : Type ℓ} where
  absent : (id : ℕ) (es : List (Entry A)) → stored id es ≡ 0 → find id es ≡ none
  unfolding find
  absent id [] h = refl
  absent id (e ∷ es) h = ground (arith, absent id es)

  nothing_behind :
      (id j : ℕ) (e : Entry A) (es : List (Entry A))
      → count (λ e. e.id) all id (e ∷ es) ≤ 1
      → (e.id == id) ≡ true
      → (j == id) ≡ true
      → find j es ≡ none
  nothing_behind id j e es h f g =
      let one : bit ((e.id == id) && true) ≡ 1 = rw f in
      ap (λ i. find i es) (eq-of id j g) ∙ absent id es (omega (arith, one))

  pub find-remove :
      (id j : ℕ) (es : List (Entry A))
      → stored id es ≤ 1
      → find j (remove (λ e. e.id) id es) ≡ (if j == id then none else find j es)
  unfolding find remove
  find-remove id j [] h = ground arith
  find-remove id j (e ∷ es) h = elim (Bool-cases (e.id == id)) [
    | inl f ↦ elim (Bool-cases (j == id)) [
      | inl g ↦ rw (f, g) (nothing_behind id j e es h f g)
      | inr g ↦ rw (f, g, other e.id id j f g)
    ]
    | inr f ↦
        let ih = find-remove id j es (tail_bound (λ e. e.id) all id e es h) in
        elim (Bool-cases (j == id)) [
          | inl g ↦ rw (f, g, other' e.id id j f g) (ih ∙ rw g refl)
          | inr g ↦ rw (f, g) (ap (λ o. if e.id == j then some e else o) (ih ∙ rw g refl))
        ]
  ]

  find-expire :
      (q : TimeoutQueue A) (n : Node) (ns : List Node) (j : ℕ)
      → IsValid q
      → q.time ≡ n ∷ ns
      → find j (expire n.data_iter ns q).entries
        ≡ (if j == n.data_iter then none else find j q.entries)
  unfolding expire
  find-expire q n ns j v t = elim (Option-cases (find n.data_iter q.entries)) [
    | inl f ↦ absurd (omega (arith, find-none n.data_iter q.entries f, timed_front q n ns v t))
    | inr (e, f) ↦ rw (f, expire) (find-remove n.data_iter j q.entries (v.once n.data_iter))
  ]

  pub timeout_loop-find :
      (now j : ℕ) (nodes : List Node) (q : TimeoutQueue A)
      → IsValid q
      → q.time ≡ nodes
      → IsSorted nodes
      → find j (timeout_loop now nodes q).entries
        ≡ (if due now j nodes then none else find j q.entries)
  unfolding timeout_loop due
  timeout_loop-find now j [] q v t s = refl
  timeout_loop-find now j (n ∷ ns) q v t (h, s) = elim (Bool-cases (ltb now n.time)) [
    | inl e ↦
        rw (e, none_due now n.time j ns (ltb→lt now n.time e) h)
          (kept (n.data_iter == j) (find j q.entries))
    | inr e ↦
        let ih =
          timeout_loop-find now j ns (expire n.data_iter ns q) (expire-IsValid q n ns v t)
            (expire-time n.data_iter ns q) s in
        rw (e, ih, find-expire q n ns j v t, ==_sym j n.data_iter)
          (merged (n.data_iter == j) (due now j ns) (find j q.entries))
  ]

  pub timeout_loop-IsSorted :
      (now : ℕ) (nodes : List Node) (q : TimeoutQueue A)
      → q.time ≡ nodes
      → IsSorted nodes
      → IsSorted (timeout_loop now nodes q).time
  unfolding timeout_loop
  timeout_loop-IsSorted now [] q t s = subst IsSorted (sym t) s
  timeout_loop-IsSorted now (n ∷ ns) q t s = elim (Bool-cases (ltb now n.time)) [
    | inl e ↦ rw e (subst IsSorted (sym t) s)
    | inr e ↦
        rw e (
          timeout_loop-IsSorted now ns (expire n.data_iter ns q) (expire-time n.data_iter ns q) s.1)
  ]
