-- ===== src/Tars/Reader.antt =====
-- class BufferReader and the decoding macros of Tars.h. A buffer is the list of its bytes; the
-- cursor is a size_t, and Tars.Reader.Bounds shows that it stays within 2^32 of the buffer's end,
-- so its additions do not wrap. Bytes are read on a little-endian host, so ntohs, ntohl and
-- tars_ntohll give the big-endian value of the bytes in the buffer.
pub mod Skip
pub mod At
pub mod Absent
pub mod Widths
pub mod Ints
pub mod Takes
pub mod Values
pub mod Containers
pub mod Fields
pub mod Bounds
use horse_rpc.Base.{
  ℕ, zero, suc, ◌+◌, ◌*◌, ◌/◌, ◌%◌, Bool, true, false, ◌&&◌, ◌||◌, Option, none, some, List, ltb,
  leb, ◌==◌, if◌then◌else◌, length, take, drop,
}
use horse_rpc.Base.Bytes.{be_value}
use horse_rpc.Tars.Wire.{M, ok, err, overflow, ◌>>=◌, ◌>>◌, return, throw}

module _ (buf : List ℕ) where
  -- TarsPeekTypeBuf and TarsPeekBuf: `n` bytes at an offset, or a throw when they pass the end.
  unfoldable pub peek_buf : ℕ → ℕ → M (List ℕ)
  peek_buf n offset cur =
      if ltb (length buf) (cur + offset + n)
      then err overflow cur
      else ok (take n (drop (cur + offset) buf)) cur

  unfoldable pub peek_u8 : ℕ → M ℕ
  peek_u8 offset = do b ← peek_buf 1 offset; return (be_value b)

  -- TarsReadHeadSkip: no test against the end of the buffer.
  unfoldable pub head_skip : ℕ → M (Unit {0})
  head_skip n cur = ok tt (cur + n)

  -- TarsReadTypeBuf for a type of `n` bytes, with the ntoh that follows it.
  unfoldable pub read_type : ℕ → M ℕ
  read_type n = do bs ← peek_buf n 0; head_skip n; return (be_value bs)

  -- TarsPeekFromHead: type, tag and length of the head at the cursor.
  unfoldable pub peek_head : M (ℕ × ℕ × ℕ)
  peek_head = do
    type_tag ← peek_u8 0
    if type_tag / 16 == 15
        then (peek_u8 1 >>= λ tag. return (type_tag % 16, tag, 2))
        else return (type_tag % 16, type_tag / 16, 1)

  -- readFromHead
  unfoldable pub read_head : M (ℕ × ℕ)
  read_head = do (type, tag, n) ← peek_head; head_skip n; return (type, tag)

  -- TarsPeekFromHeadNoTag and readFromHeadNoTag
  unfoldable pub read_head_no_tag : M ℕ
  read_head_no_tag = do
    type_tag ← peek_u8 0
    if type_tag / 16 == 15
        then (peek_buf 1 1 >> head_skip 2 >> return (type_tag % 16))
        else (head_skip 1 >> return (type_tag % 16))

  -- BufferReader::readBuf
  unfoldable pub read_buf : ℕ → M (List ℕ)
  read_buf n cur =
      if leb n (length buf) && leb (cur + n) (length buf)
      then (peek_buf n 0 >>= λ bs _. ok bs (cur + n)) cur
      else err overflow cur

  -- TarsReadStringBuf
  unfoldable pub read_string_buf : ℕ → M (List ℕ)
  read_string_buf n cur =
      if ltb (length buf) (cur + n) then err overflow cur else ok (take n (drop cur buf)) (cur + n)

  -- BufferReader::skip
  unfoldable pub skip : ℕ → M (Unit {0})
  skip n cur =
      if leb n (length buf) && leb (cur + n) (length buf) then ok tt (cur + n) else err overflow cur

  -- BufferReader::hasEnd
  unfoldable pub has_end : M Bool
  has_end cur = if ltb (length buf) cur then err overflow cur else ok (leb (length buf) cur) cur
