-- ===== src/Queues/LoopQueue/Views.antt =====
-- The list that a ring holds, and the ring's shape.
use horse_rpc.Base.{
  ℕ, zero, suc, ◌+◌, ◌-◌, ◌^◌, ◌≤◌, ◌<◌, ◌≡◌, refl, some, List, [], ◌∷◌, ◌++◌, ◌∙◌, ltb, ◌==◌,
  if◌then◌else◌, length, get_elem?, set, arith, ◌≢◌,
}
use horse_rpc.Queues.LoopQueue.{LoopQueue}

-- How far `b` is behind `e` on a ring of `c` slots.
abbrev pub gap : ℕ → ℕ → ℕ → ℕ
gap c e b = if ltb b e then b + c - e else b - e

-- The step of an index on a ring of `c` slots.
abbrev pub step : ℕ → ℕ → ℕ
step c i = if i + 1 == c then 0 else i + 1

-- The elements from slot `e` on.
abbrev pub Holds {ℓ} : {A : Type ℓ} → List A → ℕ → ℕ → List A → Type ℓ
Holds slots c e [] = Unit
Holds slots c e (x ∷ xs) = (get_elem? slots e ≡ some x) × Holds slots c (step c e) xs

-- The ring `q` stands for the list `xs`, oldest element first.
pub record Rep {ℓ} {A : Type ℓ} (q : LoopQueue A) (xs : List A) : Type ℓ where
  pub room : 1 ≤ q.capacity_sub
  pub shape : q.capacity ≡ q.capacity_sub + 1
  pub word : q.capacity < 2 ^ 64
  pub memory : length q.slots ≡ q.capacity
  pub begin_inside : q.begin < q.capacity
  pub end_inside : q.end < q.capacity
  pub count : gap q.capacity q.end q.begin ≡ length xs
  pub held : Holds q.slots q.capacity q.end xs

pub step-lt : (c e : ℕ) → e < c → step c e < c
step-lt c e h = ground arith

-- No gap is no distance.
pub empty_gap : (c e b : ℕ) → e < c → b < c → gap c e b ≡ 0 → e ≡ b
empty_gap c e b he hb g = ground arith

-- Storing one more leaves the gap one larger, unless the ring is full.
pub gap-store :
    (c e b n : ℕ) → e < c → b < c → gap c e b ≡ n → n + 1 < c → gap c e (step c b) ≡ n + 1
gap-store c e b n he hb g h = ground arith

gap_self : (c e b : ℕ) → b ≡ e → gap c e b ≡ 0
gap_self c e b h = ground arith

pub gap-step : (c e b : ℕ) → e < c → b < c → (n : ℕ) → gap c e b ≡ suc n → gap c (step c e) b ≡ n
gap-step c e b he hb n g = ground arith

module _ {ℓ} {A : Type ℓ} where
  get_elem?-set : (xs : List A) (i : ℕ) (v : A) → i < length xs → get_elem? (set xs i v) i ≡ some v
  get_elem?-set [] i v h = absurd (omega arith)
  get_elem?-set (x ∷ xs) zero v h = refl
  get_elem?-set (x ∷ xs) (suc i) v h = get_elem?-set xs i v (omega arith)

  get_elem?-set_other :
      (xs : List A) (i j : ℕ) (v : A) → i ≢ j → get_elem? (set xs i v) j ≡ get_elem? xs j
  get_elem?-set_other [] i j v ne = refl
  get_elem?-set_other (x ∷ xs) zero zero v ne = absurd (ne refl)
  get_elem?-set_other (x ∷ xs) zero (suc j) v ne = refl
  get_elem?-set_other (x ∷ xs) (suc i) zero v ne = refl
  get_elem?-set_other (x ∷ xs) (suc i) (suc j) v ne =
      get_elem?-set_other xs i j v (λ e. ne (omega arith))

  pub length-set : (xs : List A) (i : ℕ) (v : A) → length (set xs i v) ≡ length xs
  length-set [] i v = refl
  length-set (x ∷ xs) zero v = refl
  length-set (x ∷ xs) (suc i) v = omega (arith, length-set xs i v)

  -- A write at the slot behind the elements appends it.
  pub Holds-set :
      (slots : List A) (c e b : ℕ) (t : A) (xs : List A)
      → length slots ≡ c
      → e < c
      → b < c
      → gap c e b ≡ length xs
      → Holds slots c e xs
      → Holds (set slots b t) c e (xs ++ t ∷ [])
  Holds-set slots c e b t [] m he hb g h =
      rw (empty_gap c e b he hb g) (get_elem?-set slots b t (omega arith), tt)
  Holds-set slots c e b t (x ∷ xs) m he hb g (h, hs) = (
    get_elem?-set_other slots b e t (λ q. omega (arith, gap_self c e b q, g)) ∙ h,
    Holds-set slots c (step c e) b t xs m (step-lt c e he) hb (gap-step c e b he hb (length xs) g)
        hs,
  )
