-- ===== src/Coroutine/Links/Moves.antt =====
-- A coroutine that is moved from one list to the end of another.
use horse_rpc.Base.{ℕ, ◌≡◌, true, false, List, [], ◌∷◌, ◌++◌, arith}
use horse_rpc.Coroutine.Links.{Links, del, move_tail}
use horse_rpc.Coroutine.Links.Rings.{has, has-append, Distinct, Ring, add_tail-Ring}
use horse_rpc.Coroutine.Links.Removals.{Disjoint, del-Ring, del-other, add_tail-other}

pub has-member : (c : ℕ) (xs ys : List ℕ) → has c (xs ++ c ∷ ys) ≡ true
has-member c xs ys = ground (arith, has-append c xs (c ∷ ys))

pub not-has-remove : (c : ℕ) (xs ys : List ℕ) → Distinct (xs ++ c ∷ ys) → has c (xs ++ ys) ≡ false
not-has-remove c [] ys d = d.0
not-has-remove c (x ∷ xs) ys d =
    ground (arith, has-append x xs (c ∷ ys), not-has-remove c xs ys d.1)

module _ (l : Links) (c h : ℕ) (xs ys : List ℕ) (k : ℕ) (zs : List ℕ)
    (from : Ring l h (xs ++ c ∷ ys)) (to : Ring l k zs)
    (apart : Disjoint (k ∷ zs) (h ∷ (xs ++ c ∷ ys))) where
  new_there : has c (k ∷ zs) ≡ false
  new_there = ground (arith, apart c, has-member c xs ys)

  gone : has c (h ∷ (xs ++ ys)) ≡ false
  gone = ground (arith, from.distinct, has-member c xs ys, not-has-remove c xs ys from.distinct.1)

  -- The coroutine is taken out of its list, and stands at the end of the other one, in both
  -- directions, and each list is without a coroutine twice.
  pub move_tail-Ring : Ring (move_tail c k l) h (xs ++ ys) × Ring (move_tail c k l) k (zs ++ c ∷ [])
  unfolding move_tail
  move_tail-Ring =
      let from' = del-Ring l c h xs ys from in
      let to' = del-other l c h xs ys k zs from to apart in
      (
        add_tail-other (del c l) c k zs h (xs ++ ys) to' from'
            (λ p m. ground (arith, apart p, has-append p xs ys, has-append p xs (c ∷ ys))) gone,
        add_tail-Ring (del c l) c k zs to' new_there,
      )

  -- A third list is left as it is.
  pub move_tail-other :
      (j : ℕ) (ws : List ℕ)
      → Ring l j ws
      → Disjoint (j ∷ ws) (h ∷ (xs ++ c ∷ ys))
      → Disjoint (j ∷ ws) (k ∷ zs)
      → Ring (move_tail c k l) j ws
  unfolding move_tail
  move_tail-other j ws other away away' =
      add_tail-other (del c l) c k zs j ws (del-other l c h xs ys k zs from to apart)
        (del-other l c h xs ys j ws from other away) away'
        (ground (arith, away c, has-member c xs ys))
