-- ===== src/Coroutine/Scheduler/Finish.antt =====
-- The end of a coroutine: it goes to the free list, and the pool has one more to give.
use horse_rpc.Base.{
  ℕ, ◌+◌, ◌-◌, ◌%◌, ◌^◌, ◌≡◌, refl, sym, ap, subst, ◌∙◌, false, List, ◌∷◌, ◌++◌, [], length,
  length-append, arith,
}
use horse_rpc.Coroutine.Scheduler.{
  CoroStatus, free, Scheduler, move_to, move_to_free_list, finish, switch_coro,
}
use horse_rpc.Coroutine.Scheduler.Lists.{same, IsListed-same, cut, moved}
use horse_rpc.Coroutine.Scheduler.MoveTo.{move_to-IsListed}
use horse_rpc.Coroutine.Scheduler.Moves.{IsId, IsConsistent, busy_count, length-cut}

-- The list of a coroutine that is not free has one less.
busy_count-freed :
    (ls : CoroStatus → List ℕ) (c : ℕ) (rest : List ℕ) (from : CoroStatus)
    → same free from ≡ false
    → length (ls from) ≡ length rest + 1
    → busy_count (moved ls c from rest free) + 1 ≡ busy_count ls
busy_count-freed ls c rest from f h = ground (arith, h)

-- Whatever the status of a coroutine that is not free, it goes to the end of the free list.
move_to_free_list-busy :
    (c : ℕ) (σ : Scheduler)
    → same free (σ.status c) ≡ false
    → move_to_free_list c σ ≡ move_to free c σ
unfolding move_to_free_list
move_to_free_list-busy c σ h = ground arith

pub finish-IsConsistent :
    (σ : Scheduler)
    → IsConsistent σ
    → IsId σ σ.current
    → same free (σ.status σ.current) ≡ false
    → IsConsistent (finish σ)
      × ((finish σ).current_size ≡ σ.current_size)
      × ((finish σ).uniq_id ≡ σ.uniq_id)
unfolding finish move_to switch_coro
finish-IsConsistent σ v id busy =
    let c = σ.current in
    let (front, back, there) = cut c (v.lists (σ.status c)) (v.listed.complete c id.0 id.1) in
    let shorter = ap length there ∙ length-cut c front back in
    let fewer = busy_count-freed v.lists c (front ++ back) (σ.status c) busy shorter in
    let less : (σ.used_size + 2 ^ 32 - 1) % 2 ^ 32 + 1 ≡ σ.used_size =
      ground (arith, v.busy, fewer, v.used, v.within, v.pool) in
    let other : same free (σ.status c) ≡ false = busy in
    subst
      (λ (τ : Scheduler).
        IsConsistent (record τ { current = 0 })
        × (τ.current_size ≡ σ.current_size)
        × (τ.uniq_id ≡ σ.uniq_id))
      (sym (
        move_to_free_list-busy c (record σ { used_size = (σ.used_size + 2 ^ 32 - 1) % 2 ^ 32 })
          busy))
      (
        (record {
          lists = moved v.lists c (σ.status c) (front ++ back) free;
          listed =
              IsListed-same refl refl refl
                (move_to-IsListed v.listed c free front back there other);
          within = v.within;
          pool = v.pool;
          used = omega (arith, less, v.used, length-append (v.lists free) (c ∷ []));
          busy = omega (arith, less, v.busy, fewer);
          queue = v.queue;
          need = v.need;
          timeouts = v.timeouts;
        }),
        refl,
        refl,
      )
