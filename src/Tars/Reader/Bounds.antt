-- ===== src/Tars/Reader/Bounds.antt =====
-- Where the cursor of a decoder can stand: never before its start, and at most 2^32 bytes behind
-- the end of the buffer. The decoder is total: with the fuel of `input` it is never stuck.
pub mod Primitives
pub mod Loops
pub mod SkipField
use horse_rpc.Base.{
  ℕ, ◌+◌, ◌^◌, ◌≤◌, ◌<◌, ◌≡◌, refl, Bool, true, false, List, length, arith, if◌then◌else◌,
}
use horse_rpc.Tars.Wire.{M, Result, ok, err, stuck, ◌>>=◌, catch}

-- The last place where a cursor over `buf` can stand.
abbrev pub limit : List ℕ → ℕ
limit buf = length buf + 2 ^ 32

-- A run from `cur` ends, by a value with `P` or by a throw, with the cursor between `cur` and the
-- limit.
abbrev pub Run {ℓ} : {A : Type ℓ} → List ℕ → ℕ → (A → ℕ → Type 0) → Result A → Type 0
Run buf cur P (ok a c) = (cur ≤ c) × (c ≤ limit buf) × P a c
Run buf cur P (err e c) = (cur ≤ c) × (c ≤ limit buf)
Run buf cur P stuck = ⊥

abbrev pub Any {ℓ} : {A : Type ℓ} → A → ℕ → Type 0
Any a c = Unit

Run-step {ℓ} :
    {A : Type ℓ} (buf : List ℕ) (cur c : ℕ) (P : A → ℕ → Type 0) (r : Result A)
    → cur ≤ c
    → Run buf c P r
    → Run buf cur P r
Run-step buf cur c P (ok a d) h (x, y, z) = (omega arith, y, z)
Run-step buf cur c P (err e d) h w = omega arith
Run-step buf cur c P stuck h w = w

-- A step and what follows it.
module _ {ℓ κ} {A : Type ℓ} {B : Type κ} (buf : List ℕ) where
  bind_Run :
      (cur : ℕ) (P : A → ℕ → Type 0) (Q : B → ℕ → Type 0) (r : Result A) (f : A → M B)
      → Run buf cur P r
      → ((a : A) (c : ℕ) → cur ≤ c → c ≤ limit buf → P a c → Run buf c Q (f a c))
      → Run buf cur Q (elim r [ ok a c ↦ f a c | err e c ↦ err e c | stuck ↦ stuck ])
  bind_Run cur P Q (ok a c) f (x, y, z) k = Run-step buf cur c Q (f a c) x (k a c x y z)
  bind_Run cur P Q (err e c) f w k = w
  bind_Run cur P Q stuck f w k = w

  pub >>=-Run :
      (m : M A) (f : A → M B) (cur : ℕ) (P : A → ℕ → Type 0) (Q : B → ℕ → Type 0)
      → Run buf cur P (m cur)
      → ((a : A) (c : ℕ) → cur ≤ c → c ≤ limit buf → P a c → Run buf c Q (f a c))
      → Run buf cur Q ((m >>= f) cur)
  >>=-Run m f cur P Q w k = bind_Run cur P Q (m cur) f w k

module _ {ℓ} {A : Type ℓ} (buf : List ℕ) where
  pub if-Run :
      (b : Bool) (m n : M A) (cur : ℕ) (P : A → ℕ → Type 0)
      → (b ≡ true → Run buf cur P (m cur))
      → (b ≡ false → Run buf cur P (n cur))
      → Run buf cur P ((if b then m else n) cur)
  if-Run true m n cur P h k = h refl
  if-Run false m n cur P h k = k refl

  pub Run-weaken :
      (cur : ℕ) (P Q : A → ℕ → Type 0) (r : Result A)
      → Run buf cur P r
      → ((a : A) (c : ℕ) → P a c → Q a c)
      → Run buf cur Q r
  Run-weaken cur P Q (ok a c) (x, y, z) k = (x, y, k a c z)
  Run-weaken cur P Q (err e c) w k = w
  Run-weaken cur P Q stuck w k = w

  pub catch-Run :
      (a : A) (cur : ℕ) (P : A → ℕ → Type 0) (r : Result A)
      → ((c : ℕ) → P a c)
      → Run buf cur P r
      → Run buf cur P (catch a r)
  catch-Run a cur P (ok b c) k w = w
  catch-Run a cur P (err e c) k w = (w.0, w.1, k c)
  catch-Run a cur P stuck k w = w
