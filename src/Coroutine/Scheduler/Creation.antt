-- ===== src/Coroutine/Scheduler/Creation.antt =====
-- createCoroutine, with the growth of the pool.
use horse_rpc.Base.{
  ℕ, ◌+◌, ◌-◌, ◌%◌, ◌^◌, ◌≤◌, ◌≡◌, refl, ap, ◌∙◌, ◌⊎◌, true, false, ◌||◌, ltb, leb, ◌==◌,
  if◌then◌else◌, Bool-cases, inl, inr, arith,
}
use horse_rpc.Coroutine.Links.{head_empty}
use horse_rpc.Coroutine.Scheduler.{
  free, head, Scheduler, new_coroutines, increase_coro_pool_size, take_free, create_coroutine,
}
use horse_rpc.Coroutine.Scheduler.Moves.{IsConsistent, IsConsistent-same}
use horse_rpc.Coroutine.Scheduler.Growth.{Grown, new_coroutines-Grown}
use horse_rpc.Coroutine.Scheduler.TakeFree.{Creates, take_free-Creates, nothing_free}

abbrev room : Scheduler → ℕ
room σ = (σ.pool_size + 2 ^ 32 - σ.current_size) % 2 ^ 32

abbrev steps : Scheduler → ℕ
steps σ = if ltb 100 (room σ) then 100 else room σ

module _ (σ : Scheduler) (v : IsConsistent σ) (s : σ.current_size ≡ σ.uniq_id) where
  steps-le : steps σ ≤ σ.pool_size - σ.uniq_id
  steps-le = ground (arith, v.within, v.pool, s)

  steps-zero : steps σ ≡ 0 → σ.uniq_id ≡ σ.pool_size
  steps-zero h = ground (arith, v.within, v.pool, s)

  grown : Grown σ (new_coroutines (steps σ) σ) (steps σ)
  grown = new_coroutines-Grown (steps σ) σ v (omega (arith, steps-le, v.within))

  enlarged : Scheduler
  enlarged = record (new_coroutines (steps σ) σ) {
    current_size = (new_coroutines (steps σ) σ).current_size + steps σ;
  }

  enlarged-IsConsistent : IsConsistent enlarged
  unfolding enlarged
  enlarged-IsConsistent =
      IsConsistent-same refl refl refl refl refl grown.consistent.queue grown.consistent.need
        grown.consistent.timeouts grown.consistent

  from_enlarged : (steps σ == 0) ≡ false → Creates σ (take_free enlarged).1 (take_free enlarged).0
  unfolding enlarged
  from_enlarged more =
      let some : 1 ≤ steps σ = ground (arith, more) in
      let c =
        take_free-Creates enlarged enlarged-IsConsistent
          (omega (arith, grown.current_size, grown.uniq_id, s))
          (omega
            (arith, enlarged-IsConsistent.used, grown.used_size, grown.uniq_id, v.used, some)) in
      record {
        consistent = c.consistent;
        sizes = c.sizes;
        current = c.current ∙ grown.current;
        uniq_id = omega (arith, c.uniq_id, grown.uniq_id);
        kept = λ i le busy.
            c.kept i (omega (arith, le, grown.uniq_id)) (rw (grown.kept i le) busy)
            ∙ grown.kept i le;
        result = elim c.result [
          | inl (zero_id, full, e) ↦ absurd (
              omega (
                arith, full, grown.used_size, grown.pool_size, grown.uniq_id,
                grown.consistent.within, v.used, some,
              ))
          | inr (a, b, is_avail, more_used) ↦
              inr (a, b, is_avail, more_used ∙ ap (λ n. n + 1) grown.used_size)
        ];
      }

  -- increaseCoroPoolSize, and what createCoroutine makes of it.
  increased-cases :
      ((increase_coro_pool_size σ ≡ (false, σ)) × (σ.uniq_id ≡ σ.pool_size))
      ⊎ ((increase_coro_pool_size σ ≡ (true, enlarged)) × ((steps σ == 0) ≡ false))
  unfolding increase_coro_pool_size enlarged
  increased-cases = elim (Bool-cases (steps σ == 0)) [
    | inl e ↦ inl (rw e refl, steps-zero (ground (arith, e)))
    | inr e ↦ inr (rw e refl, e)
  ]

  -- There is no free coroutine, or none that has been made is left over.
  all_used :
      (leb σ.current_size σ.used_size || head_empty (head free) σ.links) ≡ true
      → σ.used_size ≡ σ.uniq_id
  all_used e = elim (Bool-cases (leb σ.current_size σ.used_size)) [
    | inl a ↦ ground (arith, a, v.used, s)
    | inr a ↦ omega (arith, v.used, nothing_free σ v (rw a at e))
  ]

  -- When current_size counts the coroutines that were made, createCoroutine makes a free coroutine
  -- available and returns its id, or returns 0 and changes nothing exactly when all that the pool
  -- has room for are in use; the other coroutines that are not free keep their statuses.
  pub create_coroutine-Creates : Creates σ (create_coroutine σ).1 (create_coroutine σ).0
  unfolding create_coroutine
  create_coroutine-Creates =
      elim (Bool-cases (leb σ.current_size σ.used_size || head_empty (head free) σ.links)) [
        | inl full ↦ rw full (elim increased-cases [
          | inl (e, limit) ↦ rw e (record {
            consistent = v;
            sizes = s;
            current = refl;
            uniq_id = omega arith;
            kept = λ i le busy. refl;
            result = inl (refl, all_used full ∙ limit, refl);
          })
          | inr (e, more) ↦ rw e (from_enlarged more)
        ])
        | inr room_left ↦
            rw room_left (take_free-Creates σ v s (ground (arith, v.used, s, room_left)))
      ]
