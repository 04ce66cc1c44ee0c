-- ===== src/Tars/Layout.antt =====
-- The bytes of the wire format, stated without a stream: what one field of each kind looks like.
use horse_rpc.Base.{ℕ, ◌+◌, ◌*◌, ◌^◌, List, [], ◌∷◌, ◌++◌, ltb, ◌==◌, if◌then◌else◌, length}
use horse_rpc.Base.Int.{ℤ, pos, negsuc, to_word}
use horse_rpc.Base.Bytes.{be_bytes}
use horse_rpc.Tars.Wire.{
  head_char, head_short, head_int32, head_int64, head_string1, head_string4, head_map, head_list,
  head_zero_tag, head_simple_list,
}

-- A head: one byte for a tag below 15, two for the others.
unfoldable pub head_bytes : ℕ → ℕ → List ℕ
head_bytes type tag = if ltb tag 15 then (type + tag * 16) ∷ [] else (type + 240) ∷ tag ∷ []

-- The bytes that an integer takes behind its head: the narrowest of 0, 1, 2, 4 and 8.
unfoldable pub int_width : ℤ → ℕ
int_width (pos n) =
    if n == 0
    then 0
    else if ltb n (2 ^ 7)
    then 1
    else if ltb n (2 ^ 15)
    then 2
    else if ltb n (2 ^ 31)
    then 4
    else 8
int_width (negsuc n) =
    if ltb n (2 ^ 7) then 1 else if ltb n (2 ^ 15) then 2 else if ltb n (2 ^ 31) then 4 else 8

-- The wire type of each width.
unfoldable pub int_type : ℕ → ℕ
int_type k =
    if k == 0
    then head_zero_tag
    else if k == 1
    then head_char
    else if k == 2
    then head_short
    else if k == 4
    then head_int32
    else head_int64

unfoldable pub int_bytes : ℤ → ℕ → List ℕ
int_bytes n tag =
    head_bytes (int_type (int_width n)) tag
    ++ be_bytes (int_width n) (to_word (2 ^ (8 * int_width n)) n)

-- A string: its length in one byte, or in four above 255.
unfoldable pub string_bytes : List ℕ → ℕ → List ℕ
string_bytes s tag =
    if ltb 255 (length s)
    then head_bytes head_string4 tag ++ (be_bytes 4 (length s) ++ s)
    else head_bytes head_string1 tag ++ (be_bytes 1 (length s) ++ s)

-- A vector of bytes: SimpleList of Char, the length as an integer field, the bytes.
unfoldable pub chars_bytes : List ℕ → ℕ → List ℕ
chars_bytes v tag =
    head_bytes head_simple_list tag
    ++ (head_bytes head_char 0 ++ (int_bytes (pos (length v)) 0 ++ v))

-- A container: its size as an integer field, then its parts.
unfoldable pub each_bytes {ℓ} : {A : Type ℓ} → (A → List ℕ) → List A → List ℕ
each_bytes f [] = []
each_bytes f (x ∷ xs) = f x ++ each_bytes f xs

module _ {ℓ} {A : Type ℓ} where
  unfoldable pub list_bytes : (A → ℕ → List ℕ) → List A → ℕ → List ℕ
  list_bytes element v tag =
      head_bytes head_list tag ++ (int_bytes (pos (length v)) 0 ++ each_bytes (λ x. element x 0) v)

  unfoldable pub map_bytes : (A → ℕ → List ℕ) → List (List ℕ × A) → ℕ → List ℕ
  map_bytes value m tag =
      head_bytes head_map tag
      ++ (int_bytes (pos (length m)) 0 ++ each_bytes (λ p. string_bytes p.0 0 ++ value p.1 1) m)
