-- ===== src/Coroutine/Links/Rings.antt =====
-- What the links stand for: the list of the coroutines behind a head.
use mathlib.Core.Bool.{or_assoc}
use horse_rpc.Base.{ℕ, ◌≡◌, refl, Bool, true, false, ◌||◌, List, [], ◌∷◌, ◌++◌, ◌==◌, arith}
use horse_rpc.Coroutine.Links.{Links, add_between, add, add_tail}

abbrev pub has : ℕ → List ℕ → Bool
has a [] = false
has a (x ∷ xs) = a == x || has a xs

-- `b` stands behind `a`.
abbrev pub Linked : Links → ℕ → ℕ → Type 0
Linked l a b = (l.next a ≡ b) × (l.prev b ≡ a)

-- From `a` the links lead through `xs` to `b`.
abbrev pub Chain : Links → ℕ → List ℕ → ℕ → Type 0
Chain l a [] b = Linked l a b
Chain l a (x ∷ xs) b = Linked l a x × Chain l x xs b

abbrev pub Distinct : List ℕ → Type 0
Distinct [] = Unit {0}
Distinct (x ∷ xs) = (has x xs ≡ false) × Distinct xs

-- The head `h` stands for the list `xs`.
pub record Ring (l : Links) (h : ℕ) (xs : List ℕ) : Type 0 where
  pub chain : Chain l h xs h
  pub distinct : Distinct (h ∷ xs)

abbrev pub last : ℕ → List ℕ → ℕ
last a [] = a
last a (x ∷ xs) = last x xs

pub has-append : (a : ℕ) (xs ys : List ℕ) → has a (xs ++ ys) ≡ (has a xs || has a ys)
has-append a [] ys = refl
has-append a (x ∷ xs) ys = rw (has-append a xs ys, or_assoc)

pub prev-last : (l : Links) (a : ℕ) (xs : List ℕ) (b : ℕ) → Chain l a xs b → l.prev b ≡ last a xs
prev-last l a [] b c = c.1
prev-last l a (x ∷ xs) b c = prev-last l x xs b c.1

pub has-last : (a : ℕ) (xs : List ℕ) → has (last a xs) (a ∷ xs) ≡ true
has-last a [] = ground arith
has-last a (x ∷ xs) = ground (arith, has-last x xs)

-- Links that agree at the addresses of a chain have the chain too.
pub Chain-same :
    (l k : Links) (a : ℕ) (xs : List ℕ) (b : ℕ)
    → ((p : ℕ) → has p (a ∷ xs) ≡ true → k.next p ≡ l.next p)
    → ((p : ℕ) → has p (xs ++ b ∷ []) ≡ true → k.prev p ≡ l.prev p)
    → Chain l a xs b
    → Chain k a xs b
Chain-same l k a [] b n p c = ground (arith, n a, p b)
Chain-same l k a (x ∷ xs) b n p c = (
  ground (arith, n a, p x),
  Chain-same l k x xs b (λ q h. n q (ground arith)) (λ q h. p q (ground arith)) c.1,
)

Distinct-append_one :
    (xs : List ℕ) (c : ℕ) → Distinct xs → has c xs ≡ false → Distinct (xs ++ c ∷ [])
Distinct-append_one [] c d h = (refl, tt)
Distinct-append_one (x ∷ xs) c d h =
    (rw (has-append x xs (c ∷ [])) (ground arith), Distinct-append_one xs c d.1 (ground arith))

-- __CoroutineAdd behind the last of a chain.
add_between-Chain :
    (l : Links) (c a : ℕ) (xs : List ℕ) (b : ℕ)
    → Distinct (a ∷ xs)
    → has b xs ≡ false
    → has c (b ∷ a ∷ xs) ≡ false
    → Chain l a xs b
    → Chain (add_between c (last a xs) b l) a (xs ++ c ∷ []) b
unfolding add_between
add_between-Chain l c a [] b d hb hc k = ground arith
add_between-Chain l c a (x ∷ xs) b d hb hc k = (
  ground (arith, has-last x xs),
  add_between-Chain l c x xs b d.1 (ground arith) (ground arith) k.1,
)

pub add_tail-Ring :
    (l : Links) (c h : ℕ) (xs : List ℕ)
    → Ring l h xs
    → has c (h ∷ xs) ≡ false
    → Ring (add_tail c h l) h (xs ++ c ∷ [])
unfolding add_tail
add_tail-Ring l c h xs r hc = record {
  chain =
      rw (prev-last l h xs h r.chain)
        (add_between-Chain l c h xs h r.distinct r.distinct.0 (ground arith) r.chain);
  distinct = Distinct-append_one (h ∷ xs) c r.distinct hc;
}

pub add-Ring :
    (l : Links) (c h : ℕ) (xs : List ℕ)
    → Ring l h xs
    → has c (h ∷ xs) ≡ false
    → Ring (add c h l) h (c ∷ xs)
unfolding add add_between
add-Ring l c h [] r hc = record { chain = ground (arith, r.chain); distinct = ground (arith) }
add-Ring l c h (x ∷ xs) r hc = record {
  chain = (
    ground arith,
    (
      ground arith,
      Chain-same l _ x xs h (λ p m. ground (arith, has-append p xs (h ∷ [])))
          (λ p m. ground (arith, has-append p xs (h ∷ []))) r.chain.1,
    ),
  );
  distinct = ground (arith, r.distinct);
}

-- A list is cut where a member stands.
pub Chain-append :
    (l : Links) (a : ℕ) (xs : List ℕ) (c : ℕ) (ys : List ℕ) (b : ℕ)
    → Chain l a (xs ++ c ∷ ys) b
    → Chain l a xs c × Chain l c ys b
Chain-append l a [] c ys b k = (k.0, k.1)
Chain-append l a (x ∷ xs) c ys b k =
    let (front, back) = Chain-append l x xs c ys b k.1 in ((k.0, front), back)

abbrev pub first : List ℕ → ℕ → ℕ
first [] b = b
first (y ∷ ys) b = y

pub has-first : (ys : List ℕ) (b : ℕ) → has (first ys b) (ys ++ b ∷ []) ≡ true
has-first [] b = ground arith
has-first (y ∷ ys) b = ground arith

pub next-first : (l : Links) (c : ℕ) (ys : List ℕ) (b : ℕ) → Chain l c ys b → l.next c ≡ first ys b
next-first l c [] b k = k.0
next-first l c (y ∷ ys) b k = k.0.0
