-- ===== src/Tars/Reader/Takes.antt =====
-- Readers that take the bytes of a value wherever they stand in the buffer, in a row.
use horse_rpc.Base.{ℕ, ◌+◌, ◌≡◌, ap, ◌∙◌, List, ◌++◌, length, length-append, arith}
use horse_rpc.Tars.Wire.{M, ok, ◌>>=◌, >>=_ok}
use horse_rpc.Tars.Reader.At.{At, At-head, At-tail}

-- `f` takes exactly `bytes`, and returns `x`.
abbrev pub Takes {ℓ} : {A : Type ℓ} → List ℕ → M A → List ℕ → A → Type ℓ
Takes buf f bytes x = (c : ℕ) → At buf c bytes → f c ≡ ok x (c + length bytes)

module _ {ℓ κ} {A : Type ℓ} {B : Type κ} (buf : List ℕ) (m : M A) (f : A → M B) where
  pub >>=-Takes :
      (xs ys : List ℕ) (v : A) (r : B)
      → Takes buf m xs v
      → Takes buf (f v) ys r
      → Takes buf (m >>= f) (xs ++ ys) r
  >>=-Takes xs ys v r h k c a =
      >>=_ok m f (h c (At-head xs ys a))
      ∙ k (c + length xs) (At-tail xs ys a)
      ∙ ap (ok r) (omega (arith, length-append xs ys))

  -- The last read of a row.
  pub last-Takes :
      (xs : List ℕ) (v : A) (r : B)
      → Takes buf m xs v
      → ((c : ℕ) → f v c ≡ ok r c)
      → Takes buf (m >>= f) xs r
  last-Takes xs v r h k c a = >>=_ok m f (h c a) ∙ k (c + length xs)
