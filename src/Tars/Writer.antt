-- ===== src/Tars/Writer.antt =====
-- class BufferWriter, the encoding macros and TarsOutputStream::write of Tars.h.
pub mod Appends
pub mod Ints
pub mod Fields
use horse_rpc.Base.{
  ℕ, zero, suc, ◌+◌, ◌*◌, ◌^◌, ◌≤◌, Bool, true, false, Option, none, some, List, [], ◌∷◌, ◌++◌, ltb,
  ◌==◌, if◌then◌else◌, length, max,
}
use horse_rpc.Base.Int.{ℤ, pos, negsuc, to_word, of_word, fits}
use horse_rpc.Base.Bytes.{be_bytes}
use horse_rpc.Tars.Wire.{
  head_char, head_short, head_int32, head_int64, head_string1, head_string4, head_map, head_list,
  head_struct_begin, head_struct_end, head_zero_tag, head_simple_list,
}
use horse_rpc.Tars.Reader.Fields.{max_string_length}

-- `bytes` is _buf up to _len, and `buf_len` the room behind _buf.
pub record Writer : Type 0 where
  pub bytes : List ℕ
  pub buf_len : ℕ

-- A step of the output stream; `none` is a throw, after which the stream is not used.
abbrev pub Write : Type 0
Write = Writer → Option Writer

infixl 5 ◌>>◌
abbrev pub ◌>>◌ : Write → Write → Write
◌>>◌ f g w = elim (f w) [ none ↦ none | some w' ↦ g w' ]

abbrev pub throws : Write
throws w = none

abbrev pub done : Write
done w = some w

-- TarsReserveBuf(os, len): at least twice what is needed, and 128 bytes.
unfoldable pub reserve : Writer → ℕ → Writer
reserve w len =
    if ltb w.buf_len len
    then record w { buf_len = if ltb (len * 2) 128 then 128 else len * 2 }
    else w

-- BufferWriter::writeBuf, and the TarsWrite…TypeBuf macros over the bytes that they store.
unfoldable pub write_buf : List ℕ → Write
write_buf bs w = some (record (reserve w (length w.bytes + length bs)) { bytes = w.bytes ++ bs })

-- TarsWriteUInt8TTypeBuf and its kin: the `n` bytes of a number after its hton.
unfoldable pub write_type : ℕ → ℕ → Write
write_type n v = write_buf (be_bytes n v)

-- TarsWriteToHead
unfoldable pub write_head : ℕ → ℕ → Write
write_head type tag =
    if ltb tag 15
    then write_type 1 (type + tag * 16)
    else (write_type 1 (type + 240) >> write_type 1 tag)

-- A conversion to a signed type of `m` values.
abbrev pub cast : ℕ → ℤ → ℤ
cast m n = of_word m (to_word m n)

unfoldable pub is_zero : ℤ → Bool
is_zero (pos n) = n == 0
is_zero (negsuc n) = false

-- write(Char n, tag)
unfoldable pub write_char : ℤ → ℕ → Write
write_char n tag =
    if is_zero n
    then write_head head_zero_tag tag
    else (write_head head_char tag >> write_type 1 (to_word (2 ^ 8) n))

-- write(Short n, tag)
unfoldable pub write_short : ℤ → ℕ → Write
write_short n tag =
    if fits (2 ^ 8) n
    then write_char (cast (2 ^ 8) n) tag
    else (write_head head_short tag >> write_type 2 (to_word (2 ^ 16) n))

-- write(Int32 n, tag)
unfoldable pub write_int32 : ℤ → ℕ → Write
write_int32 n tag =
    if fits (2 ^ 16) n
    then write_short (cast (2 ^ 16) n) tag
    else (write_head head_int32 tag >> write_type 4 (to_word (2 ^ 32) n))

-- write(Int64 n, tag)
unfoldable pub write_int64 : ℤ → ℕ → Write
write_int64 n tag =
    if fits (2 ^ 32) n
    then write_int32 (cast (2 ^ 32) n) tag
    else (write_head head_int64 tag >> write_type 8 (to_word (2 ^ 64) n))

-- write(Bool b, tag), write(UInt8 n, tag), write(UInt16 n, tag), write(UInt32 n, tag)
unfoldable pub write_bool : Bool → ℕ → Write
write_bool b tag = write_char (pos (if b then 1 else 0)) tag

unfoldable pub write_uint8 : ℕ → ℕ → Write
write_uint8 n tag = write_short (pos n) tag

unfoldable pub write_uint16 : ℕ → ℕ → Write
write_uint16 n tag = write_int32 (pos n) tag

unfoldable pub write_uint32 : ℕ → ℕ → Write
write_uint32 n tag = write_int64 (pos n) tag

-- write(const std::string& s, tag), for more than 255 bytes and for less.
unfoldable pub write_string4 : List ℕ → ℕ → Write
write_string4 s tag =
    if ltb max_string_length (length s)
    then throws
    else (write_head head_string4 tag
        >> write_type 4 (to_word (2 ^ 32) (pos (length s)))
        >> write_buf s)

unfoldable pub write_string1 : List ℕ → ℕ → Write
write_string1 s tag =
    write_head head_string1 tag >> write_type 1 (to_word (2 ^ 8) (pos (length s))) >> write_buf s

unfoldable pub write_string : List ℕ → ℕ → Write
write_string s tag = if ltb 255 (length s) then write_string4 s tag else write_string1 s tag

-- write(const std::vector<Char>& v, tag): `(Int32) v.size()`
unfoldable pub write_chars : List ℕ → ℕ → Write
write_chars v tag =
    write_head head_simple_list tag
    >> write_head head_char 0
    >> write_int32 (cast (2 ^ 32) (pos (length v))) 0
    >> write_buf v

-- for (i = v.begin(); i != v.end(); ++i) write(*i, ...)
unfoldable pub write_each {ℓ} : {A : Type ℓ} → (A → Write) → List A → Write
write_each f [] = done
write_each f (x ∷ xs) = f x >> write_each f xs

module _ {ℓ} {A : Type ℓ} where
  -- write(const std::vector<T>& v, tag) over the write of an element.
  unfoldable pub write_vector : (A → ℕ → Write) → List A → ℕ → Write
  write_vector element v tag =
      write_head head_list tag
      >> write_int32 (cast (2 ^ 32) (pos (length v))) 0
      >> write_each (λ x. element x 0) v

  -- write(const std::map<K, V>& m, tag) for K a string, in the order of the map.
  unfoldable pub write_map : (A → ℕ → Write) → List (List ℕ × A) → ℕ → Write
  write_map value m tag =
      write_head head_map tag
      >> write_int32 (cast (2 ^ 32) (pos (length m))) 0
      >> write_each (λ p. write_string p.0 0 >> value p.1 1) m

  -- write(const T& v, tag) for a struct: `body` is its writeTo.
  unfoldable pub write_struct : (A → Write) → A → ℕ → Write
  write_struct body v tag =
      write_head head_struct_begin tag >> body v >> write_head head_struct_end 0
