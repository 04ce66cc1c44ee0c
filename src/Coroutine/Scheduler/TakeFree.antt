-- ===== src/Coroutine/Scheduler/TakeFree.antt =====
-- The end of createCoroutine, which takes a coroutine out of the free list.
use horse_rpc.Base.{
  ℕ, ◌+◌, ◌≤◌, ◌≡◌, refl, sym, ap, ◌∙◌, ◌⊎◌, true, false, List, [], ◌∷◌, ◌++◌, length,
  length-append, inr, arith,
}
use horse_rpc.Coroutine.Links.{head_empty}
use horse_rpc.Coroutine.Links.Rings.{has, first, next-first}
use horse_rpc.Coroutine.Scheduler.{CoroStatus, free, avail, head, Scheduler, move_to, take_free}
use horse_rpc.Coroutine.Scheduler.Lists.{same, IsListed-same, moved}
use horse_rpc.Coroutine.Scheduler.MoveTo.{move_to-IsListed}
use horse_rpc.Coroutine.Scheduler.Moves.{IsConsistent}

-- A list that is not empty begins with what stands behind its head.
first_free :
    (σ : Scheduler) (v : IsConsistent σ)
    → 1 ≤ length (v.lists free)
    → (back : List ℕ) × (v.lists free ≡ σ.links.next (head free) ∷ back)
first_free σ v h =
    begins (v.lists free) h
      (next-first σ.links (head free) (v.lists free) (head free) (v.listed.rings free).chain)
  where
    begins :
        (xs : List ℕ)
        → 1 ≤ length xs
        → σ.links.next (head free) ≡ first xs (head free)
        → (back : List ℕ) × (xs ≡ σ.links.next (head free) ∷ back)
    begins [] h e = absurd (omega arith)
    begins (x ∷ xs) h e = (xs, ap (λ y. y ∷ xs) (sym e))

-- What createCoroutine does: it takes a free coroutine, or the pool is full.
pub record Creates (σ τ : Scheduler) (id : ℕ) : Type 0 where
  pub consistent : IsConsistent τ
  pub sizes : τ.current_size ≡ τ.uniq_id
  pub current : τ.current ≡ σ.current
  pub uniq_id : σ.uniq_id ≤ τ.uniq_id
  pub kept : (c : ℕ) → c ≤ σ.uniq_id → same free (σ.status c) ≡ false → τ.status c ≡ σ.status c
  pub result :
      ((id ≡ 0) × (σ.used_size ≡ σ.pool_size) × (τ ≡ σ))
      ⊎ ((1 ≤ id) × (id ≤ τ.uniq_id) × (τ.status id ≡ avail) × (τ.used_size ≡ σ.used_size + 1))

pub take_free-Creates :
    (σ : Scheduler) (v : IsConsistent σ)
    → σ.current_size ≡ σ.uniq_id
    → 1 ≤ length (v.lists free)
    → Creates σ (take_free σ).1 (take_free σ).0
unfolding take_free move_to
take_free-Creates σ v s h =
    let c = σ.links.next (head free) in
    let (back, begins) = first_free σ v h in
    let member : has c (v.lists free) ≡ true = rw begins (ground arith) in
    let is_free : σ.status c ≡ free = v.listed.statuses free c member in
    let id = v.listed.known free c member in
    let there : v.lists (σ.status c) ≡ [] ++ c ∷ back = rw is_free begins in
    let other : same avail (σ.status c) ≡ false = rw is_free refl in
    record {
      consistent = record {
        lists = moved v.lists c (σ.status c) back avail;
        listed =
            IsListed-same refl refl refl (move_to-IsListed v.listed c avail [] back there other);
        within = v.within;
        pool = v.pool;
        used = rw is_free (omega (arith, v.used, ap length begins));
        busy = rw is_free (omega (arith, v.busy, length-append (v.lists avail) (c ∷ [])));
        queue = v.queue;
        need = v.need;
        timeouts = v.timeouts;
      };
      sizes = s;
      current = refl;
      uniq_id = omega arith;
      kept = λ i le busy. ground (arith, ap (λ (t : CoroStatus). same free t) is_free);
      result = inr (id.0, id.1, ground arith, refl);
    }

-- Without a free coroutine, all that were made are in use.
pub nothing_free :
    (σ : Scheduler) (v : IsConsistent σ)
    → head_empty (head free) σ.links ≡ true
    → length (v.lists free) ≡ 0
unfolding head_empty
nothing_free σ v e = only_head (v.lists free) (v.listed.rings free).distinct.0 (
    sym (next-first σ.links (head free) (v.lists free) (head free) (v.listed.rings free).chain)
    ∙ ground (arith, e))
  where
    only_head :
        (xs : List ℕ)
        → has (head free) xs ≡ false
        → first xs (head free) ≡ head free
        → length xs ≡ 0
    only_head [] h e = refl
    only_head (x ∷ xs) h e = ground (arith, h, e)
