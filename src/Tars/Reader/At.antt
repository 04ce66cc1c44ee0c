-- ===== src/Tars/Reader/At.antt =====
-- Reading at a place of the buffer whose bytes are known.
use horse_rpc.Base.{
  drop-drop, ◌≢◌, ℕ, suc, ◌+◌, ◌*◌, ◌^◌, ◌<◌, ◌≤◌, ◌≡◌, refl, ap, ◌∙◌, false, none, some, List, [],
  ◌∷◌, ◌++◌, ltb, length, take, drop, length-append, length-drop, append_assoc, arith, Bool-cases,
  ltb→lt, inl, inr, le→ltb_false, take-length_append, drop-length_append,
}
use native.Mathlib.Nat.{add-zero}
use horse_rpc.Base.Bytes.{be_value, be_from, be_bytes}
use horse_rpc.Base.Int.{ℤ, to_word}
use horse_rpc.Tars.Wire.{ok, ◌>>=◌, >>=_ok, catch, head_struct_end}
use horse_rpc.Tars.Layout.{head_bytes, int_bytes, int_type, int_width}
use horse_rpc.Tars.Reader.{
  peek_buf, peek_u8, head_skip, read_type, peek_head, read_head, read_buf, read_string_buf, has_end,
}
use horse_rpc.Tars.Reader.Skip.{Input, seek_loop, seek}

-- From `cur` on the buffer holds `bs`, and then `rest`.
pub record At (buf : List ℕ) (cur : ℕ) (bs : List ℕ) : Type 0 where
  pub rest : List ℕ
  pub here : drop cur buf ≡ bs ++ rest
  pub within : cur ≤ length buf

pub At-start : (pre bs rest : List ℕ) → At (pre ++ (bs ++ rest)) (length pre) bs
At-start pre bs rest = record {
  rest = rest;
  here = drop-length_append pre (bs ++ rest);
  within = omega (arith, length-append pre (bs ++ rest));
}

pub At-length : {buf bs : List ℕ} {cur : ℕ} → At buf cur bs → cur + length bs ≤ length buf
At-length {buf} {bs} {cur} a =
    omega (arith, a.within, ap length a.here, length-drop cur buf, length-append bs a.rest)

pub At-head : {buf : List ℕ} {cur : ℕ} (xs ys : List ℕ) → At buf cur (xs ++ ys) → At buf cur xs
At-head xs ys a = record {
  rest = ys ++ a.rest;
  here = a.here ∙ append_assoc xs ys a.rest;
  within = a.within;
}

pub At-tail :
    {buf : List ℕ} {cur : ℕ} (xs ys : List ℕ) → At buf cur (xs ++ ys) → At buf (cur + length xs) ys
At-tail {buf} {cur} xs ys a = record {
  rest = a.rest;
  here =
      drop-drop cur (length xs) buf
      ∙ ap (drop (length xs)) (a.here ∙ append_assoc xs ys a.rest)
      ∙ drop-length_append xs (ys ++ a.rest);
  within = omega (arith, At-length a, length-append xs ys);
}

take-At : {buf bs : List ℕ} {cur : ℕ} → At buf cur bs → take (length bs) (drop cur buf) ≡ bs
take-At {buf} {bs} {cur} a = rw a.here (take-length_append bs a.rest)

-- The bytes at an offset of the cursor.
pub peek_buf-At :
    {buf bs : List ℕ} (n offset cur : ℕ)
    → length bs ≡ n
    → At buf (cur + offset) bs
    → peek_buf buf n offset cur ≡ ok bs cur
unfolding peek_buf
peek_buf-At {buf} {bs} n offset cur e a =
    rw (← e, le→ltb_false (length buf) (cur + offset + length bs) (At-length a), take-At a)

pub peek_u8-At :
    {buf bs : List ℕ} (b offset cur : ℕ)
    → At buf (cur + offset) (b ∷ bs)
    → peek_u8 buf offset cur ≡ ok b cur
unfolding peek_u8 be_value be_from
peek_u8-At {buf} {bs} b offset cur a =
    rw (peek_buf-At 1 offset cur refl (At-head (b ∷ []) bs a), ◌>>=◌)
      (ap (λ v. ok v cur) (omega arith))

pub read_type-At :
    {buf bs : List ℕ} (n cur : ℕ)
    → length bs ≡ n
    → At buf cur bs
    → read_type buf n cur ≡ ok (be_value bs) (cur + n)
unfolding read_type head_skip
read_type-At {buf} {bs} n cur e a =
    >>=_ok (peek_buf buf n 0) _ (peek_buf-At {buf = buf} {bs = bs} n 0 cur e (rw add-zero a))

pub read_string_buf-At :
    {buf bs : List ℕ} (n cur : ℕ)
    → length bs ≡ n
    → At buf cur bs
    → read_string_buf buf n cur ≡ ok bs (cur + n)
unfolding read_string_buf
read_string_buf-At {buf} {bs} n cur e a =
    rw (← e, le→ltb_false (length buf) (cur + length bs) (At-length a), take-At a)

pub read_buf-At :
    {buf bs : List ℕ} (n cur : ℕ)
    → length bs ≡ n
    → At buf cur bs
    → read_buf buf n cur ≡ ok bs (cur + n)
unfolding read_buf
read_buf-At {buf} {bs} n cur e a =
    ground (arith, At-length a, peek_buf-At {buf = buf} n 0 cur e (rw add-zero a))

-- The first byte of a head is its type and a tag of at most 15.
first_byte : {buf bs : List ℕ} (b cur : ℕ) → At buf cur (b ∷ bs) → peek_u8 buf 0 cur ≡ ok b cur
first_byte {buf} {bs} b cur a = peek_u8-At {bs = bs} b 0 cur (rw add-zero a)

peek_short :
    {buf bs : List ℕ} (type tag cur : ℕ)
    → type < 16
    → tag < 15
    → At buf cur ((type + tag * 16) ∷ bs)
    → peek_head buf cur ≡ ok (type, tag, 1) cur
unfolding peek_head
peek_short {buf} {bs} type tag cur ht h a =
    >>=_ok (peek_u8 buf 0) _ (first_byte (type + tag * 16) cur a) ∙ ground arith

peek_long :
    {buf bs : List ℕ} (type tag cur : ℕ)
    → type < 16
    → At buf cur ((type + 240) ∷ tag ∷ bs)
    → peek_head buf cur ≡ ok (type, tag, 2) cur
unfolding peek_head
peek_long {buf} {bs} type tag cur ht a =
    >>=_ok (peek_u8 buf 0) _ (first_byte (type + 240) cur a)
    ∙ ground (arith, peek_u8-At {bs = bs} tag 1 cur (At-tail ((type + 240) ∷ []) (tag ∷ bs) a))

-- TarsPeekFromHead reads back the type, the tag and the length of a head.
pub peek_head-At :
    {buf : List ℕ} (type tag cur : ℕ)
    → type < 16
    → tag < 256
    → At buf cur (head_bytes type tag)
    → peek_head buf cur ≡ ok (type, tag, length (head_bytes type tag)) cur
unfolding head_bytes
peek_head-At {buf} type tag cur ht hg a = elim (Bool-cases (ltb tag 15)) [
  | inl e ↦ rw e (peek_short type tag cur ht (ltb→lt tag 15 e) (rw e at a))
  | inr e ↦ rw e (peek_long type tag cur ht (rw e at a))
]

pub read_head-At :
    {buf : List ℕ} (type tag cur : ℕ)
    → type < 16
    → tag < 256
    → At buf cur (head_bytes type tag)
    → read_head buf cur ≡ ok (type, tag) (cur + length (head_bytes type tag))
unfolding read_head head_skip
read_head-At {buf} type tag cur ht hg a =
    >>=_ok (peek_head buf) _ (peek_head-At type tag cur ht hg a)

pub length-head_bytes_pos : (type tag : ℕ) → 1 ≤ length (head_bytes type tag)
unfolding head_bytes
length-head_bytes_pos type tag = ground arith

pub length-int_bytes_append :
    (n : ℤ) (tag : ℕ) (rest : List ℕ) → 1 ≤ length (int_bytes n tag ++ rest)
unfolding int_bytes
length-int_bytes_append n tag rest =
    let head = head_bytes (int_type (int_width n)) tag in
    let value = be_bytes (int_width n) (to_word (2 ^ (8 * int_width n)) n) in
    omega (
      arith,
      length-head_bytes_pos (int_type (int_width n)) tag,
      length-append head value,
      length-append (head ++ value) rest,
    )

pub has_end-At : (buf : List ℕ) (cur : ℕ) → cur < length buf → has_end buf cur ≡ ok false cur
unfolding has_end
has_end-At buf cur h = ground arith

-- TarsSkipToTag at the head of the tag that it looks for.
pub seek_loop-At :
    (is : Input) (type tag cur rounds : ℕ)
    → type < 16
    → tag < 256
    → type ≢ head_struct_end
    → At is.buf cur (head_bytes type tag)
    → seek_loop is tag (suc rounds) cur ≡ ok (some type) (cur + length (head_bytes type tag))
unfolding seek_loop head_skip
seek_loop-At is type tag cur rounds ht hg ne a =
    >>=_ok (has_end is.buf) _
      (has_end-At is.buf cur (omega (arith, At-length a, length-head_bytes_pos type tag)))
    ∙ >>=_ok (peek_head is.buf) _ (peek_head-At type tag cur ht hg a)
    ∙ ground arith

pub seek-At :
    (is : Input) (type tag cur rounds : ℕ)
    → is.rounds ≡ suc rounds
    → type < 16
    → tag < 256
    → type ≢ head_struct_end
    → At is.buf cur (head_bytes type tag)
    → seek is tag cur ≡ ok (some type) (cur + length (head_bytes type tag))
unfolding seek
seek-At is type tag cur rounds e ht hg ne a =
    ap (λ n. catch none (seek_loop is tag n cur)) e
    ∙ ap (catch none) (seek_loop-At is type tag cur rounds ht hg ne a)
