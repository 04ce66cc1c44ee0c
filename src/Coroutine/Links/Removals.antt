-- ===== src/Coroutine/Links/Removals.antt =====
-- A member that is taken out of a list, and a second list that does not change.
use horse_rpc.Base.{ℕ, ◌≡◌, true, false, List, [], ◌∷◌, ◌++◌, arith}
use horse_rpc.Coroutine.Links.{
  Links, null, set_next, set_prev, add_between, add_tail, del_between, del,
}
use horse_rpc.Coroutine.Links.Rings.{
  has, Chain, Distinct, Ring, last, has-append, prev-last, has-last, Chain-same, Chain-append,
  first, has-first, next-first,
}

-- __CoroutineDel between the neighbours of a member, and NULL in its own links.
del-Chain :
    (l : Links) (c a : ℕ) (xs ys : List ℕ) (b : ℕ)
    → Distinct (a ∷ (xs ++ c ∷ ys))
    → has b (xs ++ c ∷ ys) ≡ false
    → Chain l a xs c
    → Chain l c ys b
    → Chain
        (set_prev c null (set_next c null (del_between (last a xs) (first ys b) l)))
        a
        (xs ++ ys)
        b
unfolding del_between
del-Chain l c a [] [] b d hb front back = ground arith
del-Chain l c a [] (y ∷ ys) b d hb front back = (
  ground arith,
  Chain-same l _ y ys b (λ p m. ground (arith, has-append p ys (b ∷ [])))
      (λ p m. ground (arith, has-append p ys (b ∷ []))) back.1,
)
del-Chain l c a (x ∷ xs) ys b d hb front back = (
  ground (
    arith,
    has-last x xs,
    has-first ys b,
    has-append a xs (c ∷ ys),
    has-append x xs (c ∷ ys),
    has-append (first ys b) ys (b ∷ []),
    has-append b xs (c ∷ ys),
  ),
  del-Chain l c x xs ys b d.1 (ground arith) front.1 back,
)

Distinct-remove :
    (xs : List ℕ) (c : ℕ) (ys : List ℕ) → Distinct (xs ++ c ∷ ys) → Distinct (xs ++ ys)
Distinct-remove [] c ys d = d.1
Distinct-remove (x ∷ xs) c ys d =
    (ground (arith, has-append x xs (c ∷ ys), has-append x xs ys), Distinct-remove xs c ys d.1)

pub del-Ring :
    (l : Links) (c h : ℕ) (xs ys : List ℕ) → Ring l h (xs ++ c ∷ ys) → Ring (del c l) h (xs ++ ys)
unfolding del
del-Ring l c h xs ys r =
    let (front, back) = Chain-append l h xs c ys h r.chain in
    record {
      chain =
          rw (prev-last l h xs c front, next-first l c ys h back)
            (del-Chain l c h xs ys h r.distinct r.distinct.0 front back);
      distinct = Distinct-remove (h ∷ xs) c ys r.distinct;
    }

abbrev pub Disjoint : List ℕ → List ℕ → Type 0
Disjoint xs ys = (p : ℕ) → has p xs ≡ true → has p ys ≡ false

-- What is done to one list leaves the others.
pub del-other :
    (l : Links) (c h : ℕ) (xs ys : List ℕ) (k : ℕ) (zs : List ℕ)
    → Ring l h (xs ++ c ∷ ys)
    → Ring l k zs
    → Disjoint (k ∷ zs) (h ∷ (xs ++ c ∷ ys))
    → Ring (del c l) k zs
unfolding del del_between
del-other l c h xs ys k zs r o apart =
    let (front, back) = Chain-append l h xs c ys h r.chain in
    record {
      chain =
          rw (prev-last l h xs c front, next-first l c ys h back)
            (Chain-same l _ k zs k
              (λ p m. ground (
                arith,
                apart p,
                has-append p xs (c ∷ ys),
                has-last h xs,
                has-append (last h xs) xs (c ∷ ys),
              ))
              (λ p m. ground (
                arith,
                apart p,
                has-append p zs (k ∷ []),
                has-append p xs (c ∷ ys),
                has-first ys h,
                has-append (first ys h) ys (h ∷ []),
                has-append (first ys h) xs (c ∷ ys),
              ))
              o.chain);
      distinct = o.distinct;
    }

pub add_tail-other :
    (l : Links) (c h : ℕ) (xs : List ℕ) (k : ℕ) (zs : List ℕ)
    → Ring l h xs
    → Ring l k zs
    → Disjoint (k ∷ zs) (h ∷ xs)
    → has c (k ∷ zs) ≡ false
    → Ring (add_tail c h l) k zs
unfolding add_tail add_between
add_tail-other l c h xs k zs r o apart hc = record {
  chain = rw (prev-last l h xs h r.chain) (
      Chain-same l _ k zs k (λ p m. ground (arith, apart p, has-last h xs))
        (λ p m. ground (arith, apart p, has-append p zs (k ∷ []))) o.chain);
  distinct = o.distinct;
}
