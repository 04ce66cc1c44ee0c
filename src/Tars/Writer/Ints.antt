-- ===== src/Tars/Writer/Ints.antt =====
-- write(Char), write(Short), write(Int32) and write(Int64) append the narrowest integer field.
use horse_rpc.Base.{ℕ, ◌*◌, ◌^◌, ◌<◌, ◌≡◌, refl, true, false, ◌++◌, append-nil, arith}
use horse_rpc.Base.Int.{ℤ, pos, negsuc, to_word, fits, of_word-to_word, fits→Fits}
use horse_rpc.Base.Bytes.{be_bytes}
use horse_rpc.Tars.Wire.{head_char, head_short, head_int32, head_int64, head_zero_tag}
use horse_rpc.Tars.Layout.{head_bytes, int_width, int_type, int_bytes}
use horse_rpc.Tars.Writer.Appends.{
  Appends, >>-Appends, either_way, write_head-Appends, write_type-Appends,
}
use horse_rpc.Tars.Writer.{
  is_zero, Write, ◌>>◌, write_type, write_head, write_char, write_short, write_int32, write_int64,
  cast,
}

-- The pattern of an integer does not depend on how it was narrowed.
cast-fits : (h : ℕ) (n : ℤ) → 0 < h → fits (2 * h) n ≡ true → cast (2 * h) n ≡ n
cast-fits h n p e = of_word-to_word h n p (fits→Fits (2 * h) n e)

width_char : (n : ℤ) → fits (2 ^ 8) n ≡ true → is_zero n ≡ false → int_width n ≡ 1
unfolding int_width is_zero
width_char (pos n) e z = ground arith
width_char (negsuc n) e z = ground arith

width_zero : (n : ℤ) → is_zero n ≡ true → int_width n ≡ 0
unfolding int_width is_zero
width_zero (pos n) z = ground arith
width_zero (negsuc n) z = ground arith

width_short : (n : ℤ) → fits (2 ^ 16) n ≡ true → fits (2 ^ 8) n ≡ false → int_width n ≡ 2
unfolding int_width
width_short (pos n) e z = ground arith
width_short (negsuc n) e z = ground arith

width_int32 : (n : ℤ) → fits (2 ^ 32) n ≡ true → fits (2 ^ 16) n ≡ false → int_width n ≡ 4
unfolding int_width
width_int32 (pos n) e z = ground arith
width_int32 (negsuc n) e z = ground arith

width_int64 : (n : ℤ) → fits (2 ^ 32) n ≡ false → int_width n ≡ 8
unfolding int_width
width_int64 (pos n) z = ground arith
width_int64 (negsuc n) z = ground arith

-- A head and the bytes of one width make up the integer field of that width.
int_form :
    (k type : ℕ) (n : ℤ) (tag : ℕ) (f : Write)
    → int_width n ≡ k
    → int_type k ≡ type
    → Appends f (head_bytes type tag ++ be_bytes k (to_word (2 ^ (8 * k)) n))
    → Appends f (int_bytes n tag)
unfolding int_bytes
int_form k type n tag f e t h = rw (e, t) h

pub fixed-Appends :
    (type k v tag : ℕ)
    → type < 16
    → tag < 256
    → Appends (write_head type tag >> write_type k v) (head_bytes type tag ++ be_bytes k v)
fixed-Appends type k v tag ht hg =
    >>-Appends _ _ _ _ (write_head-Appends type tag ht hg) (write_type-Appends k v)

pub write_char-Appends :
    (n : ℤ) (tag : ℕ)
    → fits (2 ^ 8) n ≡ true
    → tag < 256
    → Appends (write_char n tag) (int_bytes n tag)
unfolding write_char int_type be_bytes
write_char-Appends n tag e hg =
    either_way (is_zero n) _ _ _
      (λ z.
        int_form 0 head_zero_tag n tag _ (width_zero n z) refl
          (rw append-nil (write_head-Appends head_zero_tag tag (omega arith) hg)))
      (λ z.
        int_form 1 head_char n tag _ (width_char n e z) refl
          (fixed-Appends head_char 1 _ tag (omega arith) hg))

pub write_short-Appends :
    (n : ℤ) (tag : ℕ)
    → fits (2 ^ 16) n ≡ true
    → tag < 256
    → Appends (write_short n tag) (int_bytes n tag)
unfolding write_short int_type
write_short-Appends n tag e hg =
    either_way (fits (2 ^ 8) n) _ _ _
      (λ z. rw (cast-fits (2 ^ 7) n (omega arith) z) (write_char-Appends n tag z hg))
      (λ z.
        int_form 2 head_short n tag _ (width_short n e z) refl
          (fixed-Appends head_short 2 _ tag (omega arith) hg))

pub write_int32-Appends :
    (n : ℤ) (tag : ℕ)
    → fits (2 ^ 32) n ≡ true
    → tag < 256
    → Appends (write_int32 n tag) (int_bytes n tag)
unfolding write_int32 int_type
write_int32-Appends n tag e hg =
    either_way (fits (2 ^ 16) n) _ _ _
      (λ z. rw (cast-fits (2 ^ 15) n (omega arith) z) (write_short-Appends n tag z hg))
      (λ z.
        int_form 4 head_int32 n tag _ (width_int32 n e z) refl
          (fixed-Appends head_int32 4 _ tag (omega arith) hg))

-- Every int64_t is written as the narrowest integer field that holds it, under every tag.
pub write_int64-Appends :
    (n : ℤ) (tag : ℕ) → tag < 256 → Appends (write_int64 n tag) (int_bytes n tag)
unfolding write_int64 int_type
write_int64-Appends n tag hg =
    either_way (fits (2 ^ 32) n) _ _ _
      (λ z. rw (cast-fits (2 ^ 31) n (omega arith) z) (write_int32-Appends n tag z hg))
      (λ z.
        int_form 8 head_int64 n tag _ (width_int64 n z) refl
          (fixed-Appends head_int64 8 _ tag (omega arith) hg))
