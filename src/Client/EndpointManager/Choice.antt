-- ===== src/Client/EndpointManager/Choice.antt =====
-- getNextValidProxy reads no place outside of _activeProxys, and returns one of them.
use horse_rpc.Base.{
  ℕ, zero, suc, ◌%◌, ◌^◌, ◌<◌, ◌≡◌, refl, ◌∙◌, Bool, false, List, [], ◌∷◌, ◌++◌, Option, none, some,
  length, get_elem?, ◌==◌, All, arith, Bool-cases, inl, inr,
}
use horse_rpc.Base.Succeeds.{Succeeds, Succeeds-bind, Succeeds-if}
use native.Mathlib.Nat.{mod-lt, zero-lt-suc}
use horse_rpc.Queues.LoopQueue.Views.{length-set}
use horse_rpc.Client.EndpointManager.{
  EndpointManager, next_position, check_at, visit, search, force, force_noted, draw,
  get_next_valid_proxy,
}

-- A place is given, and is one of the first `n`.
unfoldable pub IsBelow : ℕ → Option ℕ → Type 0
IsBelow n none = n < 0
IsBelow n (some p) = p < n

-- None, or one of the first `n`.
unfoldable MayBelow : ℕ → Option ℕ → Type 0
MayBelow n none = Unit {0}
MayBelow n (some p) = p < n

next_position-below : (n last : ℕ) → 0 < n → next_position n last < n
unfolding next_position
next_position-below n last h = ground arith

Places : ℕ → List ℕ → Type 0
Places n = All (λ p. p < n)

Places-append : (n : ℕ) (xs : List ℕ) (p : ℕ) → Places n xs → p < n → Places n (xs ++ p ∷ [])
unfolding Places
Places-append n [] p a h = (h, tt)
Places-append n (x ∷ xs) p a h = (a.0, Places-append n xs p a.1 h)

Places-get :
    (n : ℕ) (xs : List ℕ) (i : ℕ) → Places n xs → i < length xs → IsBelow n (get_elem? xs i)
unfolding Places IsBelow
Places-get n [] i a h = omega (arith, h)
Places-get n (x ∷ xs) zero a h = a.0
Places-get n (x ∷ xs) (suc i) a h = Places-get n xs i a.1 (omega (arith, h))

get_elem?-Succeeds :
    {A : Type 0} (xs : List A) (i : ℕ) → i < length xs → Succeeds (λ _. Unit) (get_elem? xs i)
get_elem?-Succeeds [] i h = omega (arith, h)
get_elem?-Succeeds (x ∷ xs) zero h = tt
get_elem?-Succeeds (x ∷ xs) (suc i) h = get_elem?-Succeeds xs i (omega (arith, h))

module _ {A : Type 0} (check_active : Bool → A → Bool × A) (is_conn_failed : A → Bool) where
  -- What the loop keeps.
  Kept : ℕ → Option ℕ × List ℕ × EndpointManager A → Type 0
  Kept n s = MayBelow n s.0 × Places n s.1 × (length s.2.active_proxys ≡ n)

  check_at-length :
      (b : Bool) (p : ℕ) (a : A) (m : EndpointManager A)
      → length (check_at check_active is_conn_failed b p a m).active_proxys ≡ length m.active_proxys
  unfolding check_at
  check_at-length b p a m = length-set m.active_proxys p (check_active b a).1

  visit-Kept :
      (n p : ℕ) (a : Option A) (conn : List ℕ) (m : EndpointManager A)
      (rest : List ℕ → EndpointManager A → Option (Option ℕ × List ℕ × EndpointManager A))
      → Succeeds (λ _. Unit) a
      → p < n
      → Places n conn
      → length m.active_proxys ≡ n
      → ((c : List ℕ) (b : EndpointManager A)
          → Places n c
          → length b.active_proxys ≡ n
          → Succeeds (Kept n) (rest c b))
      → Succeeds (Kept n) (visit check_active is_conn_failed p a conn m rest)
  unfolding visit Kept MayBelow
  visit-Kept n p none conn m rest there hp hc hl k = there
  visit-Kept n p (some a) conn m rest there hp hc hl k =
      elim (Bool-cases (check_active false a).0) [
        | inl e ↦ rw e (hp, hc, check_at-length false p a m ∙ hl)
        | inr e ↦ rw e (elim (Bool-cases (is_conn_failed (check_active false a).1)) [
          | inl f ↦ rw f (k conn _ hc (check_at-length false p a m ∙ hl))
          | inr f ↦ rw f (
              k (conn ++ p ∷ []) _ (Places-append n conn p hc hp)
                (check_at-length false p a m ∙ hl))
        ])
      ]

  search-Kept :
      (n k : ℕ) (conn : List ℕ) (m : EndpointManager A)
      → 0 < n
      → Places n conn
      → length m.active_proxys ≡ n
      → Succeeds (Kept n) (search check_active is_conn_failed k conn m)
  unfolding search Kept MayBelow
  search-Kept n zero conn m h hc hl = (tt, hc, hl)
  search-Kept n (suc k) conn m h hc hl =
      let l = length m.active_proxys in
      let here = next_position-below l m.last_round_position (omega (arith, h, hl)) in
      visit-Kept n _ _ conn _ (search check_active is_conn_failed k)
        (get_elem?-Succeeds m.active_proxys (next_position l m.last_round_position) here)
        (omega (arith, here, hl)) hc hl (λ c b pc pl. search-Kept n k c b h pc pl)

  force-IsBelow :
      (n p : ℕ) (m : EndpointManager A)
      → p < n
      → length m.active_proxys ≡ n
      → Succeeds
          (λ r. IsBelow n r.0)
          (force check_active is_conn_failed p (get_elem? m.active_proxys p) m)
  unfolding force IsBelow
  force-IsBelow n p m h hl =
      at_place (get_elem? m.active_proxys p)
        (get_elem?-Succeeds m.active_proxys p (omega (arith, h, hl)))
    where
      at_place :
          (a : Option A)
          → Succeeds (λ _. Unit) a
          → Succeeds (λ r. IsBelow n r.0) (force check_active is_conn_failed p a m)
      at_place none there = there
      at_place (some a) there = h

  force_noted-IsBelow :
      (n : ℕ) (p : Option ℕ) (m : EndpointManager A)
      → IsBelow n p
      → length m.active_proxys ≡ n
      → Succeeds (λ r. IsBelow n r.0) (force_noted check_active is_conn_failed p m)
  unfolding force_noted IsBelow
  force_noted-IsBelow n none m h hl = omega (arith, h)
  force_noted-IsBelow n (some p) m h hl = force-IsBelow n p m h hl

  draw-IsBelow :
      (n rand : ℕ) (s : Option ℕ × List ℕ × EndpointManager A)
      → 0 < n
      → Kept n s
      → Succeeds (λ r. IsBelow n r.0) (draw check_active is_conn_failed rand s)
  unfolding draw Kept MayBelow IsBelow
  draw-IsBelow n rand (some p, conn, m) h k = k.0
  draw-IsBelow n rand (none, [], m) h k =
      force-IsBelow n _ m (drawn (length m.active_proxys) k.2) k.2
    where
      drawn : (l : ℕ) → l ≡ n → rand % 2 ^ 32 % l < n
      drawn l e =
          let positive : 0 < l = omega (arith, e, h) in
          omega (arith, e, mod-lt (rand % 2 ^ 32) positive)
  draw-IsBelow n rand (none, p ∷ conn, m) h k =
      force_noted-IsBelow n _ m
        (Places-get n (p ∷ conn) _ k.1 (mod-lt (rand % 2 ^ 32) (zero-lt-suc (length conn)))) k.2

  -- When there is an active proxy, getNextValidProxy reads no place outside of _activeProxys or of
  -- the proxies that it noted, and returns one of the active proxies, wherever _lastRoundPosition
  -- stood before and whatever the connections answer.
  pub get_next_valid_proxy-IsBelow :
      (rand : ℕ) (m : EndpointManager A)
      → 0 < length m.active_proxys
      → Succeeds
          (λ r. IsBelow (length m.active_proxys) r.0)
          (get_next_valid_proxy check_active is_conn_failed rand m)
  unfolding get_next_valid_proxy Places
  get_next_valid_proxy-IsBelow rand m h =
      let n = length m.active_proxys in
      Succeeds-if (λ r. IsBelow n r.0) (n == 0) _ _ (λ z. absurd (ground (arith, z, h)))
        (λ _.
          Succeeds-bind (λ r. IsBelow n r.0) (draw check_active is_conn_failed rand) _
            (search-Kept n n [] m h tt refl) (λ s k. draw-IsBelow n rand s h k))
