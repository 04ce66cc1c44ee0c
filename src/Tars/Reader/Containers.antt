-- ===== src/Tars/Reader/Containers.antt =====
-- read(std::vector<T>&) and read(std::map<std::string, V>&) at a field of their kind. A map is
-- written by rising key, and reading it back inserts every pair at the end.
use Prim.Native.Nat.{Ordering}
use horse_rpc.Base.{
  ℕ, suc, ◌+◌, ◌^◌, ◌<◌, ◌≤◌, ◌≡◌, refl, sym, ap, ap₂, subst, ◌∙◌, Bool, true, List, [], ◌∷◌, ◌++◌,
  length, length-append, append_assoc, append-nil, arith, All,
}
use horse_rpc.Base.Int.{pos}
use horse_rpc.Tars.Wire.{M, ok, ◌>>=◌, >>=_ok, head_map, head_list}
use horse_rpc.Tars.Layout.{head_bytes, int_bytes, string_bytes, each_bytes, list_bytes, map_bytes}
use horse_rpc.Tars.Reader.Skip.{Input}
use horse_rpc.Tars.Reader.Fields.{
  max_string_length, read_string, checked_size, collect, vector_case, read_vector, compare_bytes,
  map_insert, read_pairs, map_case, read_map,
}
use horse_rpc.Tars.Reader.At.{At, At-head, At-tail, At-length}
use horse_rpc.Tars.Reader.Takes.{Takes}
use horse_rpc.Tars.Reader.Values.{field-At, checked_size-At, read_string-At}

module _ {ℓ} {A : Type ℓ} where
  length-each_bytes :
      (bytes : A → List ℕ) (xs : List A)
      → All (λ x. 1 ≤ length (bytes x)) xs
      → length xs ≤ length (each_bytes bytes xs)
  unfolding each_bytes
  length-each_bytes bytes [] h = omega arith
  length-each_bytes bytes (x ∷ xs) (h, hs) =
      omega (arith, length-append (bytes x) (each_bytes bytes xs), length-each_bytes bytes xs hs)

  collect-At :
      (buf : List ℕ) (f : M A) (bytes : A → List ℕ) (xs : List A) (cur : ℕ)
      → All (λ x. Takes buf f (bytes x) x) xs
      → At buf cur (each_bytes bytes xs)
      → collect (length xs) f cur ≡ ok xs (cur + length (each_bytes bytes xs))
  unfolding collect each_bytes
  collect-At buf f bytes [] cur h a = ap (ok []) (omega arith)
  collect-At buf f bytes (x ∷ xs) cur (h, hs) a =
      >>=_ok f _ (h cur (At-head (bytes x) (each_bytes bytes xs) a))
      ∙ >>=_ok (collect (length xs) f) _ (
          collect-At buf f bytes xs (cur + length (bytes x)) hs
            (At-tail (bytes x) (each_bytes bytes xs) a))
      ∙ ap (ok (x ∷ xs)) (omega (arith, length-append (bytes x) (each_bytes bytes xs)))

-- A container: its size, then what the rounds of its loop read.
sized-At {κ} :
    {B : Type κ} (is : Input) (rounds n : ℕ) (load : List ℕ) (body : ℕ → M B) (v : B) (cur : ℕ)
    → is.rounds ≡ suc rounds
    → n < 2 ^ 31
    → n ≤ length load
    → Takes is.buf (body n) load v
    → At is.buf cur (int_bytes (pos n) 0 ++ load)
    → (checked_size is >>= body) cur ≡ ok v (cur + length (int_bytes (pos n) 0 ++ load))
sized-At is rounds n load body v cur e h le t a =
    let size : List ℕ = int_bytes (pos n) 0 in
    >>=_ok (checked_size is) _ (
      checked_size-At is rounds e n cur h (omega (arith, At-length a, length-append size load))
        (At-head size load a))
    ∙ t (cur + length size) (At-tail size load a)
    ∙ ap (ok v) (omega (arith, length-append size load))

module _ {ℓ} {A : Type ℓ} (is : Input) (rounds : ℕ) (e : is.rounds ≡ suc rounds) where
  -- A vector of elements that each take a byte at least.
  pub read_vector-At :
      (element : ℕ → M A) (bytes : A → ℕ → List ℕ) (v old : List A) (tag cur : ℕ) (require : Bool)
      → length v < 2 ^ 31
      → tag < 256
      → All (λ x. 1 ≤ length (bytes x 0)) v
      → All (λ x. Takes is.buf (element 0) (bytes x 0) x) v
      → At is.buf cur (list_bytes bytes v tag)
      → read_vector is element old tag require cur ≡ ok v (cur + length (list_bytes bytes v tag))
  unfolding read_vector list_bytes vector_case
  read_vector-At element bytes v old tag cur require h hg ne t a =
      field-At is (vector_case is element) head_list tag cur rounds _ require old v e (omega arith)
        hg (omega arith) a
        (λ c b.
          sized-At is rounds (length v) (each_bytes (λ x. bytes x 0) v)
            (λ size. collect size (element 0)) v c e h (length-each_bytes (λ x. bytes x 0) v ne)
            (λ d b'. collect-At is.buf (element 0) (λ x. bytes x 0) v d t b') b)

-- The order of keys is antisymmetric.
compare_bytes-swap :
    (xs ys : List ℕ) → compare_bytes xs ys ≡ Ordering.lt → compare_bytes ys xs ≡ Ordering.gt
unfolding compare_bytes
compare_bytes-swap [] [] h = cc
compare_bytes-swap [] (y ∷ ys) h = refl
compare_bytes-swap (x ∷ xs) [] h = cc
compare_bytes-swap (x ∷ xs) (y ∷ ys) h = ground (arith, compare_bytes-swap xs ys)

module _ {ℓ} {V : Type ℓ} where
  -- The keys rise strictly, as in a std::map.
  abbrev pub IsSorted : List (List ℕ × V) → Type 0
  IsSorted [] = Unit
  IsSorted ((k, v) ∷ m) = All (λ (p : List ℕ × V). compare_bytes k p.0 ≡ Ordering.lt) m × IsSorted m

  last_of_All :
      (P : List ℕ × V → Type 0) (p : List ℕ × V) (m l : List (List ℕ × V))
      → All P (m ++ p ∷ l)
      → P p
  last_of_All P p [] l h = h.0
  last_of_All P p (q ∷ m) l h = last_of_All P p m l h.1

  map_insert_last :
      (k : List ℕ) (v : V) (m l : List (List ℕ × V))
      → IsSorted (m ++ (k, v) ∷ l)
      → map_insert k v m ≡ m ++ (k, v) ∷ []
  unfolding map_insert
  map_insert_last k v [] l s = refl
  map_insert_last k v ((j, w) ∷ m) l s =
      rw (compare_bytes-swap j k (last_of_All _ (k, v) m l s.0), map_insert)
        (ap (◌∷◌ (j, w)) (map_insert_last k v m l s.1))

  read_pairs-At :
      (is : Input) (rounds : ℕ) (value : ℕ → M V) (bytes : V → ℕ → List ℕ)
      (done m : List (List ℕ × V)) (cur : ℕ)
      → is.rounds ≡ suc rounds
      → IsSorted (done ++ m)
      → All (λ p. length p.0 ≤ max_string_length) m
      → All (λ p. Takes is.buf (value 1) (bytes p.1 1) p.1) m
      → At is.buf cur (each_bytes (λ p. string_bytes p.0 0 ++ bytes p.1 1) m)
      → read_pairs is value (length m) done cur
        ≡ ok (done ++ m) (cur + length (each_bytes (λ p. string_bytes p.0 0 ++ bytes p.1 1) m))
  unfolding read_pairs each_bytes
  read_pairs-At is rounds value bytes done [] cur e s h t a =
      ap₂ ok (sym (append-nil done)) (omega arith)
  read_pairs-At is rounds value bytes done ((k, v) ∷ m) cur e s (hk, h) (tv, t) a =
      let key : List ℕ = string_bytes k 0 in
      let load : List ℕ = bytes v 1 in
      let more : List ℕ = each_bytes (λ p. string_bytes p.0 0 ++ bytes p.1 1) m in
      let pair : At is.buf cur (key ++ load) = At-head (key ++ load) more a in
      >>=_ok (read_string is [] 0 true) _
        (read_string-At is rounds e k [] 0 cur true hk (omega arith) (At-head key load pair))
      ∙ >>=_ok (value 1) _ (tv (cur + length key) (At-tail key load pair))
      ∙ ap₂ (λ d c. read_pairs is value (length m) d c) (map_insert_last k v done m s)
          (omega (arith, length-append key load))
      ∙ read_pairs-At is rounds value bytes (done ++ (k, v) ∷ []) m (cur + length (key ++ load)) e
          (subst IsSorted (sym (append_assoc done ((k, v) ∷ []) m)) s) h t
          (At-tail (key ++ load) more a)
      ∙ ap₂ ok (append_assoc done ((k, v) ∷ []) m) (omega (arith, length-append (key ++ load) more))

  pairs_long :
      (bytes : V → ℕ → List ℕ) (m : List (List ℕ × V))
      → All (λ (p : List ℕ × V). 1 ≤ length (string_bytes p.0 0 ++ bytes p.1 1)) m
  unfolding string_bytes head_bytes
  pairs_long bytes [] = tt
  pairs_long bytes ((k, v) ∷ m) = (ground arith, pairs_long bytes m)

  -- A map of at most 2^31 - 1 pairs, in the order of its keys.
  pub read_map-At :
      (is : Input) (rounds : ℕ) (value : ℕ → M V) (bytes : V → ℕ → List ℕ)
      (m old : List (List ℕ × V)) (tag cur : ℕ) (require : Bool)
      → is.rounds ≡ suc rounds
      → length m < 2 ^ 31
      → tag < 256
      → IsSorted m
      → All (λ p. length p.0 ≤ max_string_length) m
      → All (λ p. Takes is.buf (value 1) (bytes p.1 1) p.1) m
      → At is.buf cur (map_bytes bytes m tag)
      → read_map is value old tag require cur ≡ ok m (cur + length (map_bytes bytes m tag))
  unfolding read_map map_bytes map_case
  read_map-At is rounds value bytes m old tag cur require e h hg s hk t a =
      field-At is (map_case is value) head_map tag cur rounds _ require old m e (omega arith) hg
        (omega arith) a
        (λ c b.
          sized-At is rounds (length m) (each_bytes (λ p. string_bytes p.0 0 ++ bytes p.1 1) m)
            (λ size. read_pairs is value size []) m c e h
            (length-each_bytes (λ p. string_bytes p.0 0 ++ bytes p.1 1) m (pairs_long bytes m))
            (λ d b'. read_pairs-At is rounds value bytes [] m d e s hk t b') b)
