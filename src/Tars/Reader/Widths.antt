-- ===== src/Tars/Reader/Widths.antt =====
-- The widths of integer fields, and what fits into them.
use horse_rpc.Base.{suc, ◌^◌, ◌≡◌, refl, arith, dec_lt, zero, ◌≤◌}
use horse_rpc.Base.Int.{ℤ, pos, negsuc, Fits}
use horse_rpc.Tars.Layout.{int_width}

-- The narrowest form of an integer, and that it fits there.
pub data Narrowest (n : ℤ) : Type 0 where
  as_zero : n ≡ pos 0 → int_width n ≡ 0 → Narrowest n
  as_char : Fits (2 ^ 8) n → int_width n ≡ 1 → Narrowest n
  as_short : Fits (2 ^ 16) n → int_width n ≡ 2 → Narrowest n
  as_int32 : Fits (2 ^ 32) n → int_width n ≡ 4 → Narrowest n
  as_int64 : Fits (2 ^ 64) n → int_width n ≡ 8 → Narrowest n

pub narrowest : (n : ℤ) → Fits (2 ^ 64) n → Narrowest n
unfolding int_width
narrowest (pos zero) h = as_zero refl refl
narrowest (pos (suc n)) h = elim (dec_lt (suc n) (2 ^ 7)) [
  | yes p ↦ as_char p (ground arith)
  | no p ↦ elim (dec_lt (suc n) (2 ^ 15)) [
    | yes q ↦ as_short q (ground arith)
    | no q ↦ elim (dec_lt (suc n) (2 ^ 31)) [
      | yes r ↦ as_int32 r (ground arith)
      | no r ↦ as_int64 h (ground arith)
    ]
  ]
]
narrowest (negsuc n) h = elim (dec_lt n (2 ^ 7)) [
  | yes p ↦ as_char p (ground arith)
  | no p ↦ elim (dec_lt n (2 ^ 15)) [
    | yes q ↦ as_short q (ground arith)
    | no q ↦ elim (dec_lt n (2 ^ 31)) [
      | yes r ↦ as_int32 r (ground arith)
      | no r ↦ as_int64 h (ground arith)
    ]
  ]
]

-- An integer of at most 32 bits is never written in 64, one of 16 never in 32, one of 8 never in 16.
pub int_width-le : (n : ℤ) → Fits (2 ^ 32) n → int_width n ≤ 4
unfolding int_width
int_width-le (pos n) h = ground arith
int_width-le (negsuc n) h = ground arith

pub int_width-le_two : (n : ℤ) → Fits (2 ^ 16) n → int_width n ≤ 2
unfolding int_width
int_width-le_two (pos n) h = ground arith
int_width-le_two (negsuc n) h = ground arith

pub int_width-le_one : (n : ℤ) → Fits (2 ^ 8) n → int_width n ≤ 1
unfolding int_width
int_width-le_one (pos n) h = ground arith
int_width-le_one (negsuc n) h = ground arith

pub int_width-le_eight : (n : ℤ) → int_width n ≤ 8
unfolding int_width
int_width-le_eight (pos n) = ground arith
int_width-le_eight (negsuc n) = ground arith

pub widen_32 : (n : ℤ) → Fits (2 ^ 32) n → Fits (2 ^ 64) n
widen_32 (pos n) h = omega arith
widen_32 (negsuc n) h = omega arith

pub widen_16 : (n : ℤ) → Fits (2 ^ 16) n → Fits (2 ^ 64) n
widen_16 (pos n) h = omega arith
widen_16 (negsuc n) h = omega arith

pub widen_8 : (n : ℤ) → Fits (2 ^ 8) n → Fits (2 ^ 64) n
widen_8 (pos n) h = omega arith
widen_8 (negsuc n) h = omega arith
