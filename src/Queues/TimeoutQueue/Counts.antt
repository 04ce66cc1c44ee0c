-- ===== src/Queues/TimeoutQueue/Counts.antt =====
-- How often an id stands in a container, and what the changes of a container do to that.
use horse_rpc.Base.{
  ℕ, ◌+◌, ◌≤◌, ◌≡◌, refl, ap, Bool, true, not, ◌&&◌, none, some, List, [], ◌∷◌, ◌++◌, ◌==◌,
  if◌then◌else◌, arith, Bool-cases, inl, inr, ==_refl, some-injective,
}
use horse_rpc.Queues.TimeoutQueue.{Entry, Node, remove, insert_time, find, mark_sent}

abbrev pub bit : Bool → ℕ
bit b = if b then 1 else 0

-- The elements of key `id` that the test keeps.
abbrev pub count {ℓ} : {A : Type ℓ} → (A → ℕ) → (A → Bool) → ℕ → List A → ℕ
count key keep id [] = 0
count key keep id (x ∷ xs) = bit (key x == id && keep x) + count key keep id xs

abbrev pub all {ℓ} : {A : Type ℓ} → A → Bool
all x = true

abbrev pub unsent {ℓ} : {A : Type ℓ} → Entry A → Bool
unsent e = not e.has_send

pub eq-of : (id j : ℕ) → (j == id) ≡ true → j ≡ id
eq-of id j h = ground arith

module _ {ℓ} {A : Type ℓ} (key : A → ℕ) (keep : A → Bool) where
  pub count-le : (id : ℕ) (xs : List A) → count key keep id xs ≤ count key all id xs
  count-le id [] = omega arith
  count-le id (x ∷ xs) = ground (arith, count-le id xs)

  pub tail_bound :
      (id : ℕ) (x : A) (xs : List A) → count key all id (x ∷ xs) ≤ 1 → count key all id xs ≤ 1
  tail_bound id x xs h = omega arith

  -- Behind an element of key `id` there is no other one.
  none_behind :
      (id j : ℕ) (x : A) (xs : List A)
      → count key all id (x ∷ xs) ≤ 1
      → (key x == id) ≡ true
      → (j == id) ≡ true
      → count key keep j xs ≡ 0
  none_behind id j x xs h e f = rw (eq-of id j f) (ground (arith, count-le id xs))

  pub count-remove :
      (id j : ℕ) (xs : List A)
      → count key all id xs ≤ 1
      → count key keep j (remove key id xs) ≡ (if j == id then 0 else count key keep j xs)
  unfolding remove
  count-remove id j [] h = ground arith
  count-remove id j (x ∷ xs) h = elim (Bool-cases (key x == id)) [
    | inl e ↦ rw e (ground (arith, none_behind id j x xs h e))
    | inr e ↦ rw e (ground (arith, count-remove id j xs (tail_bound id x xs h)))
  ]

  pub count-append :
      (j : ℕ) (xs ys : List A)
      → count key keep j (xs ++ ys) ≡ count key keep j xs + count key keep j ys
  count-append j [] ys = omega arith
  count-append j (x ∷ xs) ys = omega (arith, count-append j xs ys)

pub count-insert_time :
    (n : Node) (j : ℕ) (ns : List Node)
    → count (λ n. n.data_iter) all j (insert_time n ns)
      ≡ bit (n.data_iter == j) + count (λ n. n.data_iter) all j ns
unfolding insert_time
count-insert_time n j [] = ground arith
count-insert_time n j (m ∷ ms) = ground (arith, count-insert_time n j ms)

module _ {ℓ} {A : Type ℓ} where
  pub count-mark_sent :
      (id j : ℕ) (es : List (Entry A))
      → count (λ e. e.id) all j (mark_sent id es) ≡ count (λ e. e.id) all j es
  unfolding mark_sent
  count-mark_sent id j [] = refl
  count-mark_sent id j (e ∷ es) = ground (arith, count-mark_sent id j es)

  pub unsent-mark_sent :
      (id j : ℕ) (es : List (Entry A))
      → count (λ e. e.id) all id es ≤ 1
      → count (λ e. e.id) unsent j (mark_sent id es)
        ≡ (if j == id then 0 else count (λ e. e.id) unsent j es)
  unfolding mark_sent
  unsent-mark_sent id j [] h = ground arith
  unsent-mark_sent id j (e ∷ es) h = elim (Bool-cases (e.id == id)) [
    | inl f ↦ rw f (ground (arith, none_behind (λ e. e.id) unsent id j e es h f))
    | inr f ↦
        rw f (ground (arith, unsent-mark_sent id j es (tail_bound (λ e. e.id) unsent id e es h)))
  ]

  pub find-id : (id : ℕ) (es : List (Entry A)) (e : Entry A) → find id es ≡ some e → e.id ≡ id
  unfolding find
  find-id id [] e h = ground arith
  find-id id (x ∷ es) e h = ground (arith, find-id id es e)

  pub find-none :
      (id : ℕ) (es : List (Entry A)) → find id es ≡ none → count (λ e. e.id) all id es ≡ 0
  unfolding find
  find-none id [] h = refl
  find-none id (x ∷ es) h = ground (arith, find-none id es)

  -- The entry that is found is counted, and it is the only one.
  pub find-some :
      (id : ℕ) (es : List (Entry A)) (e : Entry A)
      → find id es ≡ some e
      → count (λ e. e.id) all id es ≤ 1
      → (count (λ e. e.id) all id es ≡ 1) × (count (λ e. e.id) unsent id es ≡ bit (not e.has_send))
  unfolding find
  find-some id [] e h le = ground arith
  find-some id (x ∷ es) e h le = elim (Bool-cases (x.id == id)) [
    | inl f ↦
        let behind = none_behind (λ e. e.id) unsent id id x es le f (==_refl id) in
        let same : bit (not x.has_send) ≡ bit (not e.has_send) =
          ap (λ y. bit (not y.has_send)) (some-injective (rw f at h)) in
        let no_other = none_behind (λ e. e.id) all id id x es le f (==_refl id) in
        rw f (omega (arith, no_other), rw behind (omega (arith, same)))
    | inr f ↦
        let (a, b) = find-some id es e (rw f at h) (tail_bound (λ e. e.id) unsent id x es le) in
        rw f (omega (arith, a), omega (arith, b))
  ]
