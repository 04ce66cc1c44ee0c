-- ===== src/Base/Succeeds.antt =====
-- A result that is there, and of which a predicate holds.
use horse_rpc.Base.{◌≡◌, refl, Bool, true, false, Option, none, some, if◌then◌else◌}

abbrev pub Succeeds {ℓ} : {A : Type ℓ} → (A → Type 0) → Option A → Type 0
Succeeds P none = ⊥
Succeeds P (some a) = P a

pub Succeeds-map {ℓ κ} :
    {A : Type ℓ} {B : Type κ} {P : A → Type 0} (Q : B → Type 0) (f : A → B) (r : Option A)
    → Succeeds P r
    → ((a : A) → P a → Q (f a))
    → Succeeds Q (elim r [ none ↦ none | some a ↦ some (f a) ])
Succeeds-map Q f none p g = p
Succeeds-map Q f (some a) p g = g a p

pub Succeeds-bind {ℓ κ} :
    {A : Type ℓ} {B : Type κ} {P : A → Type 0} (Q : B → Type 0) (f : A → Option B) (r : Option A)
    → Succeeds P r
    → ((a : A) → P a → Succeeds Q (f a))
    → Succeeds Q (elim r [ none ↦ none | some a ↦ f a ])
Succeeds-bind Q f none p g = absurd p
Succeeds-bind Q f (some a) p g = g a p

pub if-Succeeds {ℓ} :
    {A : Type ℓ} (P : A → Type 0) (b : Bool) (x y : Option A)
    → Succeeds P x
    → Succeeds P y
    → Succeeds P (if b then x else y)
if-Succeeds P true x y p q = p
if-Succeeds P false x y p q = q

pub Succeeds-weaken {ℓ} :
    {A : Type ℓ} (P Q : A → Type 0) (r : Option A)
    → ((a : A) → P a → Q a)
    → Succeeds P r
    → Succeeds Q r
Succeeds-weaken P Q none g p = p
Succeeds-weaken P Q (some a) g p = g a p

-- Either branch, where it is taken.
pub Succeeds-if {ℓ} :
    {A : Type ℓ} (P : A → Type 0) (b : Bool) (x y : Option A)
    → (b ≡ true → Succeeds P x)
    → (b ≡ false → Succeeds P y)
    → Succeeds P (if b then x else y)
Succeeds-if P true x y p q = p refl
Succeeds-if P false x y p q = q refl
