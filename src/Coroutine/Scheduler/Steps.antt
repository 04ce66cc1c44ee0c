-- ===== src/Coroutine/Scheduler/Steps.antt =====
-- The calls of a scheduler, one after another, and who makes them: the main coroutine wakes and
-- switches, the running one yields, sleeps or ends, and any thread puts an id or terminates.
use horse_rpc.Base.{ℕ, ◌≤◌, ◌≡◌, Bool, false}
use horse_rpc.Base.Int.{ℤ}
use horse_rpc.Coroutine.Links.{head_empty}
use horse_rpc.Coroutine.Scheduler.{
  active, avail, head, Scheduler, init, create_coroutine, put, wakeup, wakeup_by_self,
  wakeup_by_timeout, switch_coro, yield_coro, sleep, finish, terminate,
}
use horse_rpc.Coroutine.Scheduler.Moves.{IsId}

-- The main coroutine, or the one that is running.
pub data Step : Scheduler → Scheduler → Type 0 where
  creates : (σ : Scheduler) → Step σ (create_coroutine σ).1
  puts : (c : ℕ) (σ : Scheduler) → IsId σ c → Step σ (put c σ)
  terminates : (σ : Scheduler) → Step σ (terminate σ)
  wakes : (σ : Scheduler) → σ.current ≡ 0 → Step σ (wakeup σ)
  wakes_by_self : (σ : Scheduler) → σ.current ≡ 0 → Step σ (wakeup_by_self σ)
  wakes_by_timeout : (now : ℕ) (σ : Scheduler) → σ.current ≡ 0 → Step σ (wakeup_by_timeout now σ)
  runs_active :
      (σ : Scheduler)
      → σ.current ≡ 0
      → head_empty (head active) σ.links ≡ false
      → Step σ (switch_coro (σ.links.next (head active)) σ)
  runs_avail :
      (σ : Scheduler)
      → σ.current ≡ 0
      → head_empty (head avail) σ.links ≡ false
      → Step σ (switch_coro (σ.links.next (head avail)) σ)
  yields : (flag : Bool) (σ : Scheduler) → 1 ≤ σ.current → Step σ (yield_coro flag σ)
  sleeps : (n : ℤ) (now : ℕ) (σ : Scheduler) → 1 ≤ σ.current → Step σ (sleep n now σ)
  finishes : (σ : Scheduler) → 1 ≤ σ.current → Step σ (finish σ)

-- The states of a scheduler whose pool has room for `pool_size` coroutines.
pub data Reach : ℕ → Scheduler → Type 0 where
  start : (pool_size : ℕ) → 1 ≤ pool_size → Reach pool_size (init pool_size)
  later : (pool_size : ℕ) (σ τ : Scheduler) → Reach pool_size σ → Step σ τ → Reach pool_size τ

pub data Steps : Scheduler → Scheduler → Type 0 where
  done : (σ : Scheduler) → Steps σ σ
  more : (σ τ ρ : Scheduler) → Steps σ τ → Step τ ρ → Steps σ ρ
