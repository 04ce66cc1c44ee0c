-- ===== src/Base/Bytes.antt =====
-- Big-endian bytes: what htons, htonl and tars_htonll lay out in memory.
use Prim.Native.Nat.{ℕ, zero, suc, ◌+◌, ◌*◌, ◌/◌, ◌%◌, ◌^◌, ◌<◌}
use mathlib.Core.Path.{◌≡◌, refl}
use mathlib.Core.List.{List, [], ◌∷◌, ◌++◌}
use native.Mathlib.Omega.{arith}
use native.Mathlib.Nat.{pow-suc}
use horse_rpc.Base.Lists.{length, length-append, All}

abbrev pub IsByte : ℕ → Type 0
IsByte b = b < 256

-- `n` bytes of `v`, highest first.
unfoldable pub be_bytes : ℕ → ℕ → List ℕ
be_bytes zero v = []
be_bytes (suc n) v = be_bytes n (v / 256) ++ v % 256 ∷ []

unfoldable pub be_from : ℕ → List ℕ → ℕ
be_from acc [] = acc
be_from acc (b ∷ bs) = be_from (acc * 256 + b) bs

-- The number that bytes stand for, highest first.
unfoldable pub be_value : List ℕ → ℕ
unfolding be_from
be_value bs = be_from 0 bs

be_from-append : (acc : ℕ) (xs ys : List ℕ) → be_from acc (xs ++ ys) ≡ be_from (be_from acc xs) ys
unfolding be_from
be_from-append acc [] ys = refl
be_from-append acc (x ∷ xs) ys = be_from-append (acc * 256 + x) xs ys

pub length-be_bytes : (n v : ℕ) → length (be_bytes n v) ≡ n
unfolding be_bytes
length-be_bytes zero v = refl
length-be_bytes (suc n) v =
    omega (arith, length-append (be_bytes n (v / 256)) (v % 256 ∷ []), length-be_bytes n (v / 256))

be_from-be_bytes : (n v : ℕ) → v < 256 ^ n → be_from 0 (be_bytes n v) ≡ v
unfolding be_bytes be_from
be_from-be_bytes zero v h = omega arith
be_from-be_bytes (suc n) v h =
    rw (be_from-append 0 (be_bytes n (v / 256)) (v % 256 ∷ []))
      (omega (arith, be_from-be_bytes n (v / 256) (omega (arith, pow-suc 256 n))))

-- A number that fits `n` bytes is read back from its bytes.
pub be_value-be_bytes : (n v : ℕ) → v < 256 ^ n → be_value (be_bytes n v) ≡ v
unfolding be_value
be_value-be_bytes n v h = be_from-be_bytes n v h

pub be_bytes-IsByte : (n v : ℕ) → All IsByte (be_bytes n v)
unfolding be_bytes
be_bytes-IsByte zero v = tt
be_bytes-IsByte (suc n) v = All-snoc (be_bytes n (v / 256)) (be_bytes-IsByte n (v / 256))
  where
    All-snoc : (xs : List ℕ) → All IsByte xs → All IsByte (xs ++ v % 256 ∷ [])
    All-snoc [] h = omega arith
    All-snoc (x ∷ xs) h = (h.0, All-snoc xs h.1)
