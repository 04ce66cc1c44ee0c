-- ===== src/Coroutine/Scheduler/Sound.antt =====
-- The invariant of a scheduler, and what each call makes of it.
use horse_rpc.Base.{
  ℕ, ◌+◌, ltb, ◌≤◌, ◌≡◌, refl, sym, ap, ◌∙◌, Bool, true, false, ◌||◌, List, [], ◌∷◌, ◌++◌, All, inl,
  inr, ◌⊎◌, arith, Bool-cases,
}
use horse_rpc.Base.Int.{ℤ}
use horse_rpc.Base.Branches.{if-holds}
use horse_rpc.Coroutine.Links.{head_empty}
use horse_rpc.Coroutine.Links.Rings.{has, first, next-first}
use horse_rpc.Coroutine.Scheduler.{
  CoroStatus, free, active, avail, inactive, timeout, head, Scheduler, create_coroutine, put,
  put_by_self, switch_coro, yield_coro, sleep, finish, terminate, insert_timeout, move_to_inactive,
  move_to_timeout, magnitude,
}
use horse_rpc.Coroutine.Scheduler.Lists.{same}
use horse_rpc.Coroutine.Scheduler.Moves.{
  IsId, IsConsistent, IsConsistent-same, Moves, Moves-IsConsistent, Moves-uniq_id,
  Moves-current_size, move_to_inactive-Moves, move_to_timeout-Moves,
}
use horse_rpc.Coroutine.Scheduler.Wakeups.{Wakes, with_timeouts}
use horse_rpc.Coroutine.Scheduler.Creation.{create_coroutine-Creates}
use horse_rpc.Coroutine.Scheduler.Finish.{finish-IsConsistent}

abbrev pub can_run : CoroStatus → Bool
can_run s = same active s || same avail s

-- The main coroutine runs, or one of the lists of those that can.
abbrev pub IsRunning : Scheduler → Type 0
IsRunning σ = (σ.current ≡ 0) ⊎ (IsId σ σ.current × (can_run (σ.status σ.current) ≡ true))

pub record IsSound (σ : Scheduler) : Type 0 where
  pub consistent : IsConsistent σ
  pub sizes : σ.current_size ≡ σ.uniq_id
  pub running : IsRunning σ

pub main-IsSound :
    (σ : Scheduler) → IsConsistent σ → σ.current_size ≡ σ.uniq_id → σ.current ≡ 0 → IsSound σ
main-IsSound σ v s c = record { consistent = v; sizes = s; running = inl c }

pub Wakes-IsSound : (σ τ : Scheduler) → IsSound σ → σ.current ≡ 0 → Wakes σ τ → IsSound τ
Wakes-IsSound σ τ v c w =
    main-IsSound τ w.consistent (w.current_size ∙ v.sizes ∙ sym w.uniq_id) (w.current ∙ c)

All-append : (P : ℕ → Type 0) (xs : List ℕ) (c : ℕ) → All P xs → P c → All P (xs ++ c ∷ [])
All-append P [] c a p = (p, tt)
All-append P (x ∷ xs) c a p = (a.0, All-append P xs c a.1 p)

pub All-insert_timeout :
    (P : ℕ × ℕ → Type 0) (t c : ℕ) (ts : List (ℕ × ℕ))
    → All P ts
    → P (t, c)
    → All P (insert_timeout t c ts)
unfolding insert_timeout
All-insert_timeout P t c [] a p = (p, tt)
All-insert_timeout P t c ((u, d) ∷ ts) a p =
    let rest = All-insert_timeout P t c ts a.1 p in
    elim (Bool-cases (ltb t u)) [ inl e ↦ rw e (p, a) | inr e ↦ rw e (a.0, rest) ]

pub put-IsSound : (c : ℕ) (σ : Scheduler) → IsSound σ → IsId σ c → IsSound (put c σ)
unfolding put
put-IsSound c σ v id = if-holds IsSound σ.terminal σ _ v (record {
  consistent =
      IsConsistent-same refl refl refl refl refl
        (All-append (IsId σ) σ.active_coro_queue c v.consistent.queue id) v.consistent.need
        v.consistent.timeouts v.consistent;
  sizes = v.sizes;
  running = v.running;
})

pub create_coroutine-IsSound : (σ : Scheduler) → IsSound σ → IsSound (create_coroutine σ).1
create_coroutine-IsSound σ v =
    let c = create_coroutine-Creates σ v.consistent v.sizes in
    record {
      consistent = c.consistent;
      sizes = c.sizes;
      running = elim v.running [
        | inl main ↦ inl (c.current ∙ main)
        | inr (id, r) ↦
            let same_status = c.kept σ.current id.1 (ground (arith, r)) in
            inr
              (rw c.current (id.0, omega (arith, id.1, c.uniq_id)), rw c.current (rw same_status r))
      ];
    }

-- What a step needs of the coroutine that takes it.
abbrev CanLeave : ℕ → Scheduler → Type 0
CanLeave c σ = IsConsistent σ × (σ.current_size ≡ σ.uniq_id) × IsId σ c

pub running-IsId :
    (σ : Scheduler)
    → IsSound σ
    → 1 ≤ σ.current
    → IsId σ σ.current × (can_run (σ.status σ.current) ≡ true)
running-IsId σ v not_main = elim v.running [ inl main ↦ absurd (omega arith) | inr r ↦ r ]

-- A coroutine leaves its list and jumps back to the main one.
leave-IsSound :
    (f : ℕ → Scheduler → Scheduler) (to : CoroStatus)
    → same free to ≡ false
    → Moves f to
    → (c : ℕ) (σ : Scheduler) → CanLeave c σ
    → IsSound (switch_coro 0 (f c σ))
unfolding switch_coro
leave-IsSound f to busy moves c σ (v, s, id) =
    let w = Moves-IsConsistent f to busy moves c σ v id in
    record {
      consistent = IsConsistent-same refl refl refl refl refl w.queue w.need w.timeouts w;
      sizes = Moves-current_size f to busy moves c σ ∙ s ∙ sym (Moves-uniq_id f to busy moves c σ);
      running = inl refl;
    }

put_by_self-CanLeave : (c : ℕ) (σ : Scheduler) → CanLeave c σ → CanLeave c (put_by_self c σ)
unfolding put_by_self
put_by_self-CanLeave c σ (v, s, id) =
    if-holds (CanLeave c) σ.terminal σ _ (v, s, id)
      (
        IsConsistent-same refl refl refl refl refl v.queue
            (All-append (IsId σ) σ.need_active_coro_id c v.need id) v.timeouts v,
        s,
        id,
      )

pub yield_coro-IsSound :
    (flag : Bool) (σ : Scheduler) → IsSound σ → 1 ≤ σ.current → IsSound (yield_coro flag σ)
unfolding yield_coro
yield_coro-IsSound flag σ v not_main =
    let stays : CanLeave σ.current σ = (v.consistent, v.sizes, (running-IsId σ v not_main).0) in
    leave-IsSound move_to_inactive inactive refl move_to_inactive-Moves σ.current _
      (if-holds (CanLeave σ.current) flag _ σ (put_by_self-CanLeave σ.current σ stays) stays)

pub sleep-IsSound :
    (n : ℤ) (now : ℕ) (σ : Scheduler) → IsSound σ → 1 ≤ σ.current → IsSound (sleep n now σ)
unfolding sleep
sleep-IsSound n now σ v not_main =
    let id = (running-IsId σ v not_main).0 in
    let ts = insert_timeout (now + magnitude n) σ.current σ.timeout_coro_id in
    leave-IsSound move_to_timeout timeout refl move_to_timeout-Moves σ.current
      (record σ { timeout_coro_id = ts })
      (
        with_timeouts σ ts v.consistent (
            All-insert_timeout (λ p. IsId σ p.1) (now + magnitude n) σ.current σ.timeout_coro_id
              v.consistent.timeouts id),
        v.sizes,
        id,
      )

pub finish-IsSound : (σ : Scheduler) → IsSound σ → 1 ≤ σ.current → IsSound (finish σ)
unfolding finish switch_coro
finish-IsSound σ v not_main =
    let (id, can) = running-IsId σ v not_main in
    let (w, sizes, made) = finish-IsConsistent σ v.consistent id (ground (arith, can)) in
    main-IsSound (finish σ) w (sizes ∙ v.sizes ∙ sym made) refl

-- What stands behind the head of a list that is not empty is in the list.
pub head_member :
    (s : CoroStatus) (σ : Scheduler) (v : IsSound σ)
    → head_empty (head s) σ.links ≡ false
    → has (σ.links.next (head s)) (v.consistent.lists s) ≡ true
unfolding head_empty
head_member s σ v e = first_member (v.consistent.lists s) (
    next-first σ.links (head s) (v.consistent.lists s) (head s) (v.consistent.listed.rings s).chain)
  where
    first_member :
        (xs : List ℕ)
        → σ.links.next (head s) ≡ first xs (head s)
        → has (σ.links.next (head s)) xs ≡ true
    first_member xs e' = ground (arith, e)

-- It can run if the list's status says so.
pub switch-IsSound :
    (s : CoroStatus) (σ : Scheduler)
    → IsSound σ
    → can_run s ≡ true
    → head_empty (head s) σ.links ≡ false
    → IsSound (switch_coro (σ.links.next (head s)) σ)
unfolding switch_coro
switch-IsSound s σ v can e =
    let c = v.consistent in
    let member = head_member s σ v e in
    record {
      consistent = IsConsistent-same refl refl refl refl refl c.queue c.need c.timeouts c;
      sizes = v.sizes;
      running = inr (c.listed.known s _ member, ap can_run (c.listed.statuses s _ member) ∙ can);
    }

pub terminate-IsSound : (σ : Scheduler) → IsSound σ → IsSound (terminate σ)
unfolding terminate
terminate-IsSound σ v = record {
  consistent =
      IsConsistent-same refl refl refl refl refl v.consistent.queue v.consistent.need
        v.consistent.timeouts v.consistent;
  sizes = v.sizes;
  running = v.running;
}
