-- ===== src/Tars/Reader/Ints.antt =====
-- read(Char&), read(Short&), read(Int32&) and read(Int64&) at an integer field.
use horse_rpc.Base.{
  ℕ, suc, ◌+◌, ◌*◌, ◌^◌, ◌<◌, ◌≡◌, refl, ap, ◌∙◌, Bool, List, length, length-append, arith, ◌≤◌,
  ◌⊎◌, inl, inr, ◌≢◌,
}
use horse_rpc.Base.Int.{ℤ, pos, to_word, of_word, Fits, of_word-to_word, to_word-lt}
use horse_rpc.Base.Bytes.{be_bytes, be_value-be_bytes, length-be_bytes}
use horse_rpc.Tars.Wire.{M, ok, ◌>>=◌, >>=_ok, head_struct_end}
use horse_rpc.Tars.Layout.{head_bytes, int_width, int_type, int_bytes}
use horse_rpc.Tars.Reader.{read_type}
use horse_rpc.Tars.Reader.Skip.{Input, seek, field, read_signed, int64_case, read_int64}
use horse_rpc.Tars.Reader.Fields.{
  char_case, read_char, short_case, read_short, int32_case, read_int32,
}
use horse_rpc.Tars.Reader.At.{At, At-head, At-tail, read_type-At, seek-At}
use horse_rpc.Tars.Reader.Widths.{
  as_zero, as_char, as_short, as_int32, as_int64, narrowest, int_width-le, int_width-le_two,
  int_width-le_one, int_width-le_eight, widen_32, widen_16, widen_8,
}

-- A signed number of `k` bytes, 2 * h values, is read back.
read_signed-At :
    (is : Input) (k h : ℕ) (n : ℤ) (cur : ℕ)
    → 2 ^ (8 * k) ≡ 2 * h
    → 256 ^ k ≡ 2 * h
    → 0 < h
    → Fits (2 * h) n
    → At is.buf cur (be_bytes k (to_word (2 ^ (8 * k)) n))
    → read_signed is k cur ≡ ok n (cur + k)
unfolding read_signed
read_signed-At is k h n cur e e' p f a =
    >>=_ok (read_type is.buf k) _ (read_type-At k cur (length-be_bytes k _) a)
    ∙ ap (λ v. ok (of_word (2 ^ (8 * k)) v) (cur + k))
        (be_value-be_bytes k _ (rw (e', e) (to_word-lt (2 * h) n (omega arith))))
    ∙ ap (λ v. ok v (cur + k)) (rw e (of_word-to_word h n p f))

-- The bytes behind the head of an integer field.
abbrev Payload : Input → ℤ → ℕ → Type 0
Payload is n cur = At is.buf cur (be_bytes (int_width n) (to_word (2 ^ (8 * int_width n)) n))

-- A switch takes the integer behind its head.
abbrev Takes : (Input → ℕ → M ℤ) → ℤ → Type 0
Takes body n =
    (is : Input) (cur : ℕ)
    → Payload is n cur
    → body is (int_type (int_width n)) cur ≡ ok n (cur + int_width n)

abbrev IsWidth : ℕ → Type 0
IsWidth k = (k ≡ 1) ⊎ (k ≡ 2) ⊎ (k ≡ 4) ⊎ (k ≡ 8)

takes_width :
    (body : Input → ℕ → M ℤ) (n : ℤ) (k h : ℕ) (is : Input) (cur : ℕ)
    → int_width n ≡ k
    → 2 ^ (8 * k) ≡ 2 * h
    → 256 ^ k ≡ 2 * h
    → 0 < h
    → Fits (2 * h) n
    → body is (int_type k) cur ≡ read_signed is k cur
    → Payload is n cur
    → body is (int_type (int_width n)) cur ≡ ok n (cur + int_width n)
takes_width body n k h is cur w e e' p f s a =
    rw w (s ∙ read_signed-At is k h n cur e e' p f (rw w at a))

-- It does, if it returns 0 for the zero type and reads as many bytes as the width says.
takes :
    (body : Input → ℕ → M ℤ) (n : ℤ) (m : ℕ)
    → Fits (2 ^ 64) n
    → int_width n ≤ m
    → ((is : Input) (cur : ℕ) → body is (int_type 0) cur ≡ ok (pos 0) cur)
    → ((is : Input) (k cur : ℕ)
        → IsWidth k
        → k ≤ m
        → body is (int_type k) cur ≡ read_signed is k cur)
    → Takes body n
takes body n m h le z s is cur a = elim (narrowest n h) [
  | as_zero e w ↦ rw (w, e) (z is cur ∙ ap (ok (pos 0)) (omega arith))
  | as_char f w ↦
      takes_width body n 1 (2 ^ 7) is cur w refl refl (omega arith) f
        (s is 1 cur (inl refl) (omega arith)) a
  | as_short f w ↦
      takes_width body n 2 (2 ^ 15) is cur w refl refl (omega arith) f
        (s is 2 cur (inr (inl refl)) (omega arith)) a
  | as_int32 f w ↦
      takes_width body n 4 (2 ^ 31) is cur w refl refl (omega arith) f
        (s is 4 cur (inr (inr (inl refl))) (omega arith)) a
  | as_int64 f w ↦
      takes_width body n 8 (2 ^ 63) is cur w refl refl (omega arith) f
        (s is 8 cur (inr (inr (inr refl))) (omega arith)) a
]

int64_case-Takes : (n : ℤ) → Fits (2 ^ 64) n → Takes int64_case n
unfolding int64_case int_type
int64_case-Takes n h =
    takes int64_case n 8 h (omega (arith, int_width-le_eight n)) (λ is cur. refl) step
  where
    step :
        (is : Input) (k cur : ℕ)
        → IsWidth k
        → k ≤ 8
        → int64_case is (int_type k) cur ≡ read_signed is k cur
    step is k cur w le = ground arith

int32_case-Takes : (n : ℤ) → Fits (2 ^ 32) n → Takes int32_case n
unfolding int32_case int_type
int32_case-Takes n h = takes int32_case n 4 (widen_32 n h) (int_width-le n h) (λ is cur. refl) step
  where
    step :
        (is : Input) (k cur : ℕ)
        → IsWidth k
        → k ≤ 4
        → int32_case is (int_type k) cur ≡ read_signed is k cur
    step is k cur w le = ground arith

short_case-Takes : (n : ℤ) → Fits (2 ^ 16) n → Takes short_case n
unfolding short_case int_type
short_case-Takes n h =
    takes short_case n 2 (widen_16 n h) (int_width-le_two n h) (λ is cur. refl) step
  where
    step :
        (is : Input) (k cur : ℕ)
        → IsWidth k
        → k ≤ 2
        → short_case is (int_type k) cur ≡ read_signed is k cur
    step is k cur w le = ground arith

char_case-Takes : (n : ℤ) → Fits (2 ^ 8) n → Takes char_case n
unfolding char_case int_type
char_case-Takes n h = takes char_case n 1 (widen_8 n h) (int_width-le_one n h) (λ is cur. refl) step
  where
    step :
        (is : Input) (k cur : ℕ)
        → IsWidth k
        → k ≤ 1
        → char_case is (int_type k) cur ≡ read_signed is k cur
    step is k cur w le = ground arith

int_type-lt : (k : ℕ) → (int_type k < 16) × (int_type k ≢ head_struct_end)
unfolding int_type
int_type-lt k = (ground arith, ground arith)

-- `read` of an integer whose switch takes the field: the value, and the cursor behind the field.
read_int-At :
    (body : Input → ℕ → M ℤ) (is : Input) (n old : ℤ) (tag cur rounds : ℕ) (require : Bool)
    → Takes body n
    → is.rounds ≡ suc rounds
    → tag < 256
    → At is.buf cur (int_bytes n tag)
    → (seek is tag >>= λ found. field found (body is) require old) cur
      ≡ ok n (cur + length (int_bytes n tag))
unfolding int_bytes
read_int-At body is n old tag cur rounds require t e hg a =
    let head : List ℕ = head_bytes (int_type (int_width n)) tag in
    let load : List ℕ = be_bytes (int_width n) (to_word (2 ^ (8 * int_width n)) n) in
    >>=_ok (seek is tag) _ (
      seek-At is (int_type (int_width n)) tag cur rounds e (int_type-lt _).0 hg (int_type-lt _).1
        (At-head head load a))
    ∙ t is (cur + length head) (At-tail head load a)
    ∙ ap (ok n) (
        omega (
          arith,
          length-append head load,
          length-be_bytes (int_width n) (to_word (2 ^ (8 * int_width n)) n),
        ))

module _ (is : Input) (n old : ℤ) (tag cur rounds : ℕ) (require : Bool) (e : is.rounds ≡ suc rounds)
    (hg : tag < 256) (a : At is.buf cur (int_bytes n tag)) where
  pub read_int64-At :
      Fits (2 ^ 64) n → read_int64 is old tag require cur ≡ ok n (cur + length (int_bytes n tag))
  unfolding read_int64
  read_int64-At h =
      read_int-At int64_case is n old tag cur rounds require (int64_case-Takes n h) e hg a

  pub read_int32-At :
      Fits (2 ^ 32) n → read_int32 is old tag require cur ≡ ok n (cur + length (int_bytes n tag))
  unfolding read_int32
  read_int32-At h =
      read_int-At int32_case is n old tag cur rounds require (int32_case-Takes n h) e hg a

  pub read_short-At :
      Fits (2 ^ 16) n → read_short is old tag require cur ≡ ok n (cur + length (int_bytes n tag))
  unfolding read_short
  read_short-At h =
      read_int-At short_case is n old tag cur rounds require (short_case-Takes n h) e hg a

  pub read_char-At :
      Fits (2 ^ 8) n → read_char is old tag require cur ≡ ok n (cur + length (int_bytes n tag))
  unfolding read_char
  read_char-At h =
      read_int-At char_case is n old tag cur rounds require (char_case-Takes n h) e hg a
