-- ===== src/Base/Int.antt =====
-- Signed integers over the native numbers, and fixed-width machine integers as bit patterns.
use Prim.Native.Nat.{ℕ, ◌-◌, ◌*◌, ◌/◌, ◌%◌, ◌<◌}
use mathlib.Core.Path.{◌≡◌}
use mathlib.Core.Bool.{Bool, true}
use native.Mathlib.Omega.{arith}
use native.Mathlib.Nat.{mod-eq_of_lt}
use horse_rpc.Base.Tests.{ltb, if◌then◌else◌}

-- `negsuc n` is -(n + 1).
pub data ℤ : Type 0 where
  pos : ℕ → ℤ
  negsuc : ℕ → ℤ

-- The pattern of an integer in a word of `m` values: two's complement, wrapping.
unfoldable pub to_word : ℕ → ℤ → ℕ
to_word m (pos n) = n % m
to_word m (negsuc n) = m - 1 - n % m

-- The signed integer that a pattern of a word of `m` values stands for.
unfoldable pub of_word : ℕ → ℕ → ℤ
of_word m p = if ltb p (m / 2) then pos p else negsuc (m - 1 - p)

-- An integer fits a signed word of `m` values.
abbrev pub Fits : ℕ → ℤ → Type 0
Fits m (pos n) = n < m / 2
Fits m (negsuc n) = n < m / 2

-- The same as a test: -(m / 2) <= n && n <= m / 2 - 1.
abbrev pub fits : ℕ → ℤ → Bool
fits m (pos n) = ltb n (m / 2)
fits m (negsuc n) = ltb n (m / 2)

pub to_word-lt : (m : ℕ) (z : ℤ) → 0 < m → to_word m z < m
unfolding to_word
to_word-lt m (pos n) h = grind arith
to_word-lt m (negsuc n) h = omega arith

pub fits→Fits : (m : ℕ) (z : ℤ) → fits m z ≡ true → Fits m z
fits→Fits m (pos n) h = ground arith
fits→Fits m (negsuc n) h = ground arith

pub Fits→fits : (m : ℕ) (n : ℤ) → Fits m n → fits m n ≡ true
Fits→fits m (pos n) h = ground arith
Fits→fits m (negsuc n) h = ground arith

halve : (h : ℕ) → 2 * h / 2 ≡ h
halve h = omega arith

small_mod : (n m : ℕ) → n < m → n % m ≡ n
small_mod n m h = mod-eq_of_lt h

-- An integer that fits a word of `2 * h` values is read back from its pattern.
pub of_word-to_word :
    (h : ℕ) (z : ℤ) → 0 < h → Fits (2 * h) z → of_word (2 * h) (to_word (2 * h) z) ≡ z
unfolding of_word to_word
of_word-to_word h (pos n) p f =
    rw (small_mod n (2 * h) (omega (arith, halve h))) (ground (arith, halve h))
of_word-to_word h (negsuc n) p f =
    rw (small_mod n (2 * h) (omega (arith, halve h))) (ground (arith, halve h))
