-- ===== src/Coroutine/Scheduler/Lists.antt =====
-- The five lists of a scheduler: each coroutine stands in the list of its status.
use horse_rpc.Base.{
  ℕ, ◌^◌, ◌≤◌, ◌<◌, ◌≡◌, refl, ap, subst, Bool, true, false, List, [], ◌∷◌, ◌++◌, ◌==◌,
  if◌then◌else◌, Bool-cases, inl, inr, arith,
}
use horse_rpc.Coroutine.Links.Rings.{has, Ring}
use horse_rpc.Coroutine.Links.Removals.{Disjoint}
use horse_rpc.Coroutine.Scheduler.{
  CoroStatus, free, active, avail, inactive, timeout, index, head, Scheduler,
}

abbrev pub same : CoroStatus → CoroStatus → Bool
same s t = index s == index t

pub same→eq : (s t : CoroStatus) → same s t ≡ true → s ≡ t
same→eq free free e = refl
same→eq active active e = refl
same→eq avail avail e = refl
same→eq inactive inactive e = refl
same→eq timeout timeout e = refl
same→eq s t e = ground arith

pub same_self : (s : CoroStatus) → same s s ≡ true
same_self s = ground arith

-- `ls s` is what the list of status `s` holds.
pub record IsListed (σ : Scheduler) (ls : CoroStatus → List ℕ) : Type 0 where
  pub rings : (s : CoroStatus) → Ring σ.links (head s) (ls s)
  pub statuses : (s : CoroStatus) (c : ℕ) → has c (ls s) ≡ true → σ.status c ≡ s
  pub known : (s : CoroStatus) (c : ℕ) → has c (ls s) ≡ true → (1 ≤ c) × (c ≤ σ.uniq_id)
  pub complete : (c : ℕ) → 1 ≤ c → c ≤ σ.uniq_id → has c (ls (σ.status c)) ≡ true
  pub bound : σ.uniq_id < 2 ^ 32

-- What else changes of the state does not matter.
pub IsListed-same :
    {σ τ : Scheduler} {ls : CoroStatus → List ℕ}
    → σ.links ≡ τ.links
    → σ.status ≡ τ.status
    → σ.uniq_id ≡ τ.uniq_id
    → IsListed σ ls
    → IsListed τ ls
IsListed-same {ls} a b c v = record {
  rings = λ s. subst (λ l. Ring l (head s) (ls s)) a (v.rings s);
  statuses = λ s i h. subst (λ f. f i ≡ s) b (v.statuses s i h);
  known = λ s i h. subst (λ n. (1 ≤ i) × (i ≤ n)) c (v.known s i h);
  complete =
      λ i lo hi. subst (λ f. has i (ls (f i)) ≡ true) b (v.complete i lo (omega (arith, hi, c)));
  bound = subst (λ n. n < 2 ^ 32) c v.bound;
}

-- A list is cut at a member.
pub cut :
    (c : ℕ) (xs : List ℕ)
    → has c xs ≡ true
    → (front : List ℕ) × (back : List ℕ) × (xs ≡ front ++ c ∷ back)
cut c [] h = cc
cut c (x ∷ xs) h = elim (Bool-cases (c == x)) [
  | inl e ↦ ([], xs, ap (λ y. y ∷ xs) (ground arith))
  | inr e ↦ let (front, back, p) = cut c xs (ground arith) in (x ∷ front, back, ap (◌∷◌ x) p)
]

module _ {σ : Scheduler} {ls : CoroStatus → List ℕ} (v : IsListed σ ls) where
  -- Two lists have no address in common.
  pub apart : (s t : CoroStatus) → same s t ≡ false → Disjoint (head s ∷ ls s) (head t ∷ ls t)
  apart s t ne p h = ground (
    arith,
    v.bound,
    v.known s p,
    v.known t p,
    λ (a : has p (ls s) ≡ true). ap index (v.statuses s p a),
    λ (a : has p (ls t) ≡ true). ap index (v.statuses t p a),
  )

-- The lists when `c` has gone from one to the end of another.
abbrev pub moved :
    (CoroStatus → List ℕ) → ℕ → CoroStatus → List ℕ → CoroStatus → CoroStatus → List ℕ
moved ls c from rest to t =
    if same t to then ls to ++ c ∷ [] else if same t from then rest else ls t
