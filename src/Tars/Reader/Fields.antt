-- ===== src/Tars/Reader/Fields.antt =====
-- TarsInputStream::read for the field types of Tars.h. `old` is what the C++ reference holds
-- before the call, and what it keeps when an optional field is absent. What an out parameter holds
-- after a throw is not modelled.
use horse_rpc.Base.{
  ℕ, zero, suc, ◌*◌, ◌^◌, Bool, true, not, List, [], ◌∷◌, ltb, ◌==◌, if◌then◌else◌, length,
}
use Prim.Native.Nat.{compare, Ordering}
use horse_rpc.Base.Int.{ℤ, pos, negsuc, to_word}
use horse_rpc.Tars.Wire.{
  M, mismatch, invalid_value, ◌>>=◌, ◌>>◌, return, throw, head_char, head_short, head_int32,
  head_string1, head_string4, head_map, head_list, head_struct_begin, head_zero_tag,
  head_simple_list,
}
use horse_rpc.Tars.Reader.{read_type, read_head, read_buf, read_string_buf}
use horse_rpc.Tars.Reader.Skip.{Input, seek, field, read_signed, read_uint32, skip_to_struct_end}

-- TARS_MAX_STRING_LENGTH
abbrev pub max_string_length : ℕ
max_string_length = 100 * 1024 * 1024

-- read(Char& c, tag, isRequire)
unfoldable pub char_case : Input → ℕ → M ℤ
char_case is type =
    if type == head_zero_tag
    then return (pos 0)
    else if type == head_char
    then read_signed is 1
    else throw mismatch

unfoldable pub read_char : Input → ℤ → ℕ → Bool → M ℤ
read_char is old tag require = do found ← seek is tag; field found (char_case is) require old

-- read(Short& n, tag, isRequire)
unfoldable pub short_case : Input → ℕ → M ℤ
short_case is type =
    if type == head_zero_tag
    then return (pos 0)
    else if type == head_char
    then read_signed is 1
    else if type == head_short
    then read_signed is 2
    else throw mismatch

unfoldable pub read_short : Input → ℤ → ℕ → Bool → M ℤ
read_short is old tag require = do found ← seek is tag; field found (short_case is) require old

-- read(Int32& n, tag, isRequire)
unfoldable pub int32_case : Input → ℕ → M ℤ
int32_case is type =
    if type == head_zero_tag
    then return (pos 0)
    else if type == head_char
    then read_signed is 1
    else if type == head_short
    then read_signed is 2
    else if type == head_int32
    then read_signed is 4
    else throw mismatch

unfoldable pub read_int32 : Input → ℤ → ℕ → Bool → M ℤ
read_int32 is old tag require = do found ← seek is tag; field found (int32_case is) require old

-- read(Bool& b, tag, isRequire): `b = c ? true : false`
unfoldable pub is_nonzero : ℤ → Bool
is_nonzero (pos n) = not (n == 0)
is_nonzero (negsuc n) = true

unfoldable pub read_bool : Input → Bool → ℕ → Bool → M Bool
read_bool is old tag require = do
  c ← read_char is (pos (if old then 1 else 0)) tag require
  return (is_nonzero c)

-- read(UInt8& n, tag, isRequire) and read(UInt16& n, tag, isRequire)
unfoldable pub read_uint8 : Input → ℕ → ℕ → Bool → M ℕ
read_uint8 is old tag require = do
  i ← read_short is (pos old) tag require
  return (to_word (2 ^ 8) i)

unfoldable pub read_uint16 : Input → ℕ → ℕ → Bool → M ℕ
read_uint16 is old tag require = do
  i ← read_int32 is (pos old) tag require
  return (to_word (2 ^ 16) i)

-- read(std::string& s, tag, isRequire)
unfoldable pub string4_size : Input → M ℕ
string4_size is = do
  size ← read_type is.buf 4
  if ltb max_string_length size then throw invalid_value else return size

unfoldable pub string_size : Input → ℕ → M ℕ
string_size is type =
    if type == head_string1
    then read_type is.buf 1
    else if type == head_string4
    then string4_size is
    else throw mismatch

unfoldable pub string_case : Input → ℕ → M (List ℕ)
string_case is type = do size ← string_size is type; read_string_buf is.buf size

unfoldable pub read_string : Input → List ℕ → ℕ → Bool → M (List ℕ)
read_string is old tag require = do found ← seek is tag; field found (string_case is) require old

-- for (UInt32 i = 0; i < size; ++i) read(v[i], 0);
unfoldable pub collect {ℓ} : {A : Type ℓ} → ℕ → M A → M (List A)
collect zero element = return []
collect (suc n) element = do x ← element; xs ← λ c. collect n element c; return (x ∷ xs)

-- The size of a container, and the test `size > this->size()`.
unfoldable pub checked_size : Input → M ℕ
checked_size is = do
  size ← read_uint32 is 0 0 true
  if ltb (length is.buf) size then throw invalid_value else return size

-- read(std::vector<Char>& v, tag, isRequire). A Char is kept as its byte.
unfoldable pub simple_list_case : Input → M (List ℕ)
simple_list_case is = do
  (type, _) ← read_head is.buf
  if type == head_char then (checked_size is >>= read_buf is.buf) else throw mismatch

unfoldable pub chars_case : Input → ℕ → M (List ℕ)
chars_case is type =
    if type == head_simple_list
    then simple_list_case is
    else if type == head_list
    then (checked_size is >>= λ size.
        collect size (read_char is (pos 0) 0 true >>= λ c. return (to_word (2 ^ 8) c)))
    else throw mismatch

unfoldable pub read_chars : Input → List ℕ → ℕ → Bool → M (List ℕ)
read_chars is old tag require = do found ← seek is tag; field found (chars_case is) require old

-- read(std::vector<T>& v, tag, isRequire) over the read of an element.
module _ {ℓ} {A : Type ℓ} where
  unfoldable pub vector_case : Input → (ℕ → M A) → ℕ → M (List A)
  vector_case is element type =
      if type == head_list
      then (checked_size is >>= λ size. collect size (element 0))
      else throw mismatch

  unfoldable pub read_vector : Input → (ℕ → M A) → List A → ℕ → Bool → M (List A)
  read_vector is element old tag require = do
    found ← seek is tag
    field found (vector_case is element) require old

  -- read(T& v, tag, isRequire) for a struct: `body` is its readFrom.
  unfoldable pub struct_case : Input → M A → ℕ → M A
  struct_case is body type =
      if type == head_struct_begin
      then (body >>= λ v. skip_to_struct_end is is.rounds >> return v)
      else throw mismatch

  unfoldable pub read_struct : Input → M A → A → ℕ → Bool → M A
  read_struct is body old tag require = do
    found ← seek is tag
    field found (struct_case is body) require old

-- std::string's order: byte by byte, a prefix first.
unfoldable pub compare_bytes : List ℕ → List ℕ → Ordering
compare_bytes [] [] = Ordering.eq
compare_bytes [] (b ∷ bs) = Ordering.lt
compare_bytes (a ∷ as') [] = Ordering.gt
compare_bytes (a ∷ as') (b ∷ bs) =
    let rest = compare_bytes as' bs in
    elim (compare a b) [
      | Ordering.lt ↦ Ordering.lt
      | Ordering.eq ↦ rest
      | Ordering.gt ↦ Ordering.gt
    ]

-- std::map<std::string, V>: pairs by rising key. A key that is there is not overwritten.
module _ {ℓ} {V : Type ℓ} where
  unfoldable pub map_insert : List ℕ → V → List (List ℕ × V) → List (List ℕ × V)
  map_insert k v [] = (k, v) ∷ []
  map_insert k v ((j, w) ∷ m) = elim (compare_bytes k j) [
    | Ordering.lt ↦ (k, v) ∷ (j, w) ∷ m
    | Ordering.eq ↦ (j, w) ∷ m
    | Ordering.gt ↦ (j, w) ∷ map_insert k v m
  ]

  -- The loop of read(std::map<K, V>& m, tag, isRequire), for K a string.
  unfoldable pub read_pairs : Input → (ℕ → M V) → ℕ → List (List ℕ × V) → M (List (List ℕ × V))
  read_pairs is value zero m = return m
  read_pairs is value (suc n) m = do
    k ← read_string is [] 0 true
    v ← value 1
    λ c. read_pairs is value n (map_insert k v m) c

  unfoldable pub map_case : Input → (ℕ → M V) → ℕ → M (List (List ℕ × V))
  map_case is value type =
      if type == head_map
      then (checked_size is >>= λ size. read_pairs is value size [])
      else throw mismatch

  unfoldable pub read_map : Input → (ℕ → M V) → List (List ℕ × V) → ℕ → Bool → M (List (List ℕ × V))
  read_map is value old tag require = do
    found ← seek is tag
    field found (map_case is value) require old
