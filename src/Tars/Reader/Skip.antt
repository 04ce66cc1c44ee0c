-- ===== src/Tars/Reader/Skip.antt =====
-- TarsInputStream: TarsSkipToTag, the reads of a size, and skipField with what it calls.
use horse_rpc.Base.{
  ℕ, zero, suc, ◌*◌, ◌^◌, ◌%◌, Bool, true, ◌||◌, Option, none, some, List, ltb, ◌==◌, if◌then◌else◌,
  length,
}
use horse_rpc.Base.Int.{ℤ, pos, to_word, of_word}
use horse_rpc.Tars.Wire.{
  M, stuck, mismatch, require_not_exist, ◌>>=◌, ◌>>◌, return, throw, catch, head_char, head_short,
  head_int32, head_int64, head_float, head_double, head_string1, head_string4, head_map, head_list,
  head_struct_begin, head_struct_end, head_zero_tag, head_simple_list,
}
use horse_rpc.Tars.Reader.{peek_head, head_skip, has_end, read_type, read_head, read_head_no_tag}

-- An input stream: the buffer, the skipField that its loops call, and the rounds that they have.
pub record Input : Type 0 where
  pub buf : List ℕ
  pub skip_value : ℕ → M (Unit {0})
  pub rounds : ℕ

-- The loop of TarsSkipToTag: `some type` when the head of `tag` has been read.
unfoldable pub seek_loop : Input → ℕ → ℕ → M (Option ℕ)
seek_loop is tag zero cur = stuck
seek_loop is tag (suc rounds) cur =
    (do
      over ← has_end is.buf
      if over then return none else do
        (type, head_tag, len) ← peek_head is.buf
        if type == head_struct_end || ltb tag head_tag
            then return none
            else if tag == head_tag
            then (head_skip is.buf len >> return (some type))
            else do head_skip is.buf len; is.skip_value type; λ c. seek_loop is tag rounds c)
      cur

-- TarsSkipToTag: decode exceptions are swallowed, and leave the cursor where they were thrown.
unfoldable pub seek : Input → ℕ → M (Option ℕ)
seek is tag cur = catch none (seek_loop is tag is.rounds cur)

-- What follows TarsSkipToTag in each `read`: the switch on the type, or the absent field.
abbrev pub field {ℓ} : {A : Type ℓ} → Option ℕ → (ℕ → M A) → Bool → A → M A
field (some type) body require old = body type
field none body require old = if require then throw require_not_exist else return old

-- read(Int64& n, tag, isRequire): every narrower integer is widened with its sign.
unfoldable pub read_signed : Input → ℕ → M ℤ
read_signed is n = do v ← read_type is.buf n; return (of_word (2 ^ (8 * n)) v)

unfoldable pub int64_case : Input → ℕ → M ℤ
int64_case is type =
    if type == head_zero_tag
    then return (pos 0)
    else if type == head_char
    then read_signed is 1
    else if type == head_short
    then read_signed is 2
    else if type == head_int32
    then read_signed is 4
    else if type == head_int64
    then read_signed is 8
    else throw mismatch

unfoldable pub read_int64 : Input → ℤ → ℕ → Bool → M ℤ
read_int64 is old tag require = do found ← seek is tag; field found (int64_case is) require old

-- read(UInt32& n, tag, isRequire)
unfoldable pub read_uint32 : Input → ℕ → ℕ → Bool → M ℕ
read_uint32 is old tag require = do
  i ← read_int64 is (pos old) tag require
  return (to_word (2 ^ 32) i)

-- for (UInt32 i = 0; i < n; ++i)
unfoldable pub repeat : ℕ → M (Unit {0}) → M (Unit {0})
repeat zero body = return tt
repeat (suc n) body = body >> λ c. repeat n body c

-- skipToStructEnd
unfoldable pub skip_to_struct_end : Input → ℕ → M (Unit {0})
skip_to_struct_end is zero cur = stuck
skip_to_struct_end is (suc rounds) cur =
    (do
      type ← read_head_no_tag is.buf
      is.skip_value type
      if type == head_struct_end then return tt else λ c. skip_to_struct_end is rounds c)
      cur

-- skipField()
unfoldable pub skip_any : Input → M (Unit {0})
skip_any is = do type ← read_head_no_tag is.buf; is.skip_value type

-- The cases of skipField(type) that read on.
unfoldable pub skip_string1 : Input → M (Unit {0})
skip_string1 is = read_type is.buf 1 >>= head_skip is.buf

unfoldable pub skip_string4 : Input → M (Unit {0})
skip_string4 is = read_type is.buf 4 >>= head_skip is.buf

-- `size * 2` is a product of UInt32 values.
unfoldable pub skip_map : Input → M (Unit {0})
skip_map is = do size ← read_uint32 is 0 0 true; repeat (size * 2 % 2 ^ 32) (skip_any is)

unfoldable pub skip_list : Input → M (Unit {0})
skip_list is = do size ← read_uint32 is 0 0 true; repeat size (skip_any is)

unfoldable pub skip_simple_list : Input → M (Unit {0})
skip_simple_list is = do
  (type, _) ← read_head is.buf
  if type == head_char then (read_uint32 is 0 0 true >>= head_skip is.buf) else throw mismatch

-- The switch of skipField(type).
unfoldable pub skip_case : Input → ℕ → M (Unit {0})
skip_case is type =
    if type == head_char
    then head_skip is.buf 1
    else if type == head_short
    then head_skip is.buf 2
    else if type == head_int32
    then head_skip is.buf 4
    else if type == head_int64
    then head_skip is.buf 8
    else if type == head_float
    then head_skip is.buf 4
    else if type == head_double
    then head_skip is.buf 8
    else if type == head_string1
    then skip_string1 is
    else if type == head_string4
    then skip_string4 is
    else if type == head_map
    then skip_map is
    else if type == head_list
    then skip_list is
    else if type == head_simple_list
    then skip_simple_list is
    else if type == head_struct_begin
    then skip_to_struct_end is is.rounds
    else if type == head_struct_end || type == head_zero_tag
    then return tt
    else throw mismatch

-- skipField(type). The fuel bounds the nesting and the rounds of each loop; every nested call and
-- every round has read the byte of a head.
unfoldable pub skip_field : List ℕ → ℕ → ℕ → M (Unit {0})
skip_field buf zero type cur = stuck
skip_field buf (suc fuel) type cur =
    skip_case (record { buf = buf; skip_value = λ t c. skip_field buf fuel t c; rounds = suc fuel })
      type cur

-- The stream over a whole buffer, with fuel for any cursor.
unfoldable pub input : List ℕ → Input
input buf = record {
  buf = buf;
  skip_value = skip_field buf (suc (length buf));
  rounds = suc (length buf);
}
