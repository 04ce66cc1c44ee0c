-- ===== src/Tars/Writer/Fields.antt =====
-- Strings, byte vectors and containers: what write(const std::string&), write(const
-- std::vector<Char>&), write(const std::vector<T>&), write(const std::map<K, V>&) and the write of
-- a struct append.
use horse_rpc.Base.{
  ℕ, ◌^◌, ◌<◌, ◌≤◌, ◌≡◌, List, [], ◌∷◌, ◌++◌, ltb, length, arith, All, append_assoc, ltb_false→le,
  le→ltb_false,
}
use horse_rpc.Base.Int.{pos, to_word, of_word-to_word}
use horse_rpc.Base.Bytes.{be_bytes}
use horse_rpc.Tars.Wire.{
  head_char, head_string1, head_string4, head_map, head_list, head_simple_list,
}
use horse_rpc.Tars.Reader.Fields.{max_string_length}
use horse_rpc.Tars.Layout.{
  head_bytes, int_bytes, string_bytes, chars_bytes, each_bytes, list_bytes, map_bytes,
}
use horse_rpc.Tars.Writer.{
  Write, ◌>>◌, cast, write_int32, write_string, write_string1, write_string4, write_chars,
  write_each, write_vector, write_map,
}
use horse_rpc.Tars.Writer.Appends.{
  Appends, >>-Appends, done-Appends, if-Appends, write_head-Appends, write_type-Appends,
  write_buf-Appends,
}
use horse_rpc.Tars.Writer.Ints.{write_int32-Appends}

-- A size below 2^31 is written as it is.
size-Appends :
    (n : ℕ) → n < 2 ^ 31 → Appends (write_int32 (cast (2 ^ 32) (pos n)) 0) (int_bytes (pos n) 0)
size-Appends n h =
    rw (of_word-to_word (2 ^ 31) (pos n) (omega arith) h)
      (write_int32-Appends (pos n) 0 (ground arith) (omega arith))

size_word : (k n : ℕ) → n < k → to_word k (pos n) ≡ n
unfolding to_word
size_word k n h = grind arith

-- Four writes in a row, as the fields are made of.
three-Appends :
    (f g h : Write) (xs ys zs : List ℕ)
    → Appends f xs
    → Appends g ys
    → Appends h zs
    → Appends (f >> g >> h) (xs ++ (ys ++ zs))
three-Appends f g h xs ys zs p q r =
    rw (← append_assoc xs ys zs) (>>-Appends _ _ _ _ (>>-Appends _ _ _ _ p q) r)

write_string1-Appends :
    (s : List ℕ) (tag : ℕ)
    → length s < 256
    → tag < 256
    → Appends (write_string1 s tag) (head_bytes head_string1 tag ++ (be_bytes 1 (length s) ++ s))
unfolding write_string1
write_string1-Appends s tag hs hg = rw (size_word (2 ^ 8) (length s) hs) (
    three-Appends _ _ _ _ _ _ (write_head-Appends head_string1 tag (omega arith) hg)
      (write_type-Appends 1 (length s)) (write_buf-Appends s))

write_string4-Appends :
    (s : List ℕ) (tag : ℕ)
    → length s ≤ max_string_length
    → tag < 256
    → Appends (write_string4 s tag) (head_bytes head_string4 tag ++ (be_bytes 4 (length s) ++ s))
unfolding write_string4
write_string4-Appends s tag hs hg =
    rw (le→ltb_false max_string_length (length s) hs, size_word (2 ^ 32) (length s) (omega arith))
      (three-Appends _ _ _ _ _ _ (write_head-Appends head_string4 tag (omega arith) hg)
        (write_type-Appends 4 (length s)) (write_buf-Appends s))

-- A string of at most TARS_MAX_STRING_LENGTH bytes.
pub write_string-Appends :
    (s : List ℕ) (tag : ℕ)
    → length s ≤ max_string_length
    → tag < 256
    → Appends (write_string s tag) (string_bytes s tag)
unfolding write_string string_bytes
write_string-Appends s tag hs hg =
    if-Appends (ltb 255 (length s)) _ _ _ _ (λ e. write_string4-Appends s tag hs hg)
      (λ e. write_string1-Appends s tag (omega (arith, ltb_false→le 255 (length s) e)) hg)

pub write_chars-Appends :
    (v : List ℕ) (tag : ℕ)
    → length v < 2 ^ 31
    → tag < 256
    → Appends (write_chars v tag) (chars_bytes v tag)
unfolding write_chars chars_bytes
write_chars-Appends v tag hv hg =
    rw
      (← append_assoc (head_bytes head_simple_list tag) (head_bytes head_char 0)
        (int_bytes (pos (length v)) 0 ++ v))
      (three-Appends _ _ _ _ _ _
        (>>-Appends _ _ _ _ (write_head-Appends head_simple_list tag (omega arith) hg)
          (write_head-Appends head_char 0 (omega arith) (omega arith)))
        (size-Appends (length v) hv) (write_buf-Appends v))

module _ {ℓ} {A : Type ℓ} where
  pub write_each-Appends :
      (f : A → Write) (bytes : A → List ℕ) (xs : List A)
      → All (λ x. Appends (f x) (bytes x)) xs
      → Appends (write_each f xs) (each_bytes bytes xs)
  unfolding write_each each_bytes
  write_each-Appends f bytes [] h = done-Appends
  write_each-Appends f bytes (x ∷ xs) (h, hs) =
      >>-Appends _ _ _ _ h (write_each-Appends f bytes xs hs)

  pub write_vector-Appends :
      (element : A → ℕ → Write) (bytes : A → ℕ → List ℕ) (v : List A) (tag : ℕ)
      → length v < 2 ^ 31
      → tag < 256
      → All (λ x. Appends (element x 0) (bytes x 0)) v
      → Appends (write_vector element v tag) (list_bytes bytes v tag)
  unfolding write_vector list_bytes
  write_vector-Appends element bytes v tag hv hg hs =
      three-Appends _ _ _ _ _ _ (write_head-Appends head_list tag (omega arith) hg)
        (size-Appends (length v) hv) (write_each-Appends _ (λ x. bytes x 0) v hs)

module _ {ℓ} {A : Type ℓ} where
  pub write_map-Appends :
      (value : A → ℕ → Write) (bytes : A → ℕ → List ℕ) (m : List (List ℕ × A)) (tag : ℕ)
      → length m < 2 ^ 31
      → tag < 256
      → All (λ p. (length p.0 ≤ max_string_length) × Appends (value p.1 1) (bytes p.1 1)) m
      → Appends (write_map value m tag) (map_bytes bytes m tag)
  unfolding write_map map_bytes
  write_map-Appends value bytes m tag hm hg hs =
      three-Appends _ _ _ _ _ _ (write_head-Appends head_map tag (omega arith) hg)
        (size-Appends (length m) hm)
        (write_each-Appends _ (λ p. string_bytes p.0 0 ++ bytes p.1 1) m (pairs m hs))
    where
      pairs :
          (m : List (List ℕ × A))
          → All (λ p. (length p.0 ≤ max_string_length) × Appends (value p.1 1) (bytes p.1 1)) m
          → All
              (λ p. Appends (write_string p.0 0 >> value p.1 1) (string_bytes p.0 0 ++ bytes p.1 1))
              m
      pairs [] h = tt
      pairs (p ∷ m) (h, hs) =
          (>>-Appends _ _ _ _ (write_string-Appends p.0 0 h.0 (omega arith)) h.1, pairs m hs)
