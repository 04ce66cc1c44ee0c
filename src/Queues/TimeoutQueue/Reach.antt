-- ===== src/Queues/TimeoutQueue/Reach.antt =====
-- The states that a TC_TimeoutQueueNew can reach, and what holds in all of them.
use horse_rpc.Base.{
  ℕ, ◌≡◌, refl, sym, Bool, true, false, List, [], ◌∷◌, ltb, arith, subst, Bool-cases, Option-cases,
  inl, inr,
}
use horse_rpc.Queues.TimeoutQueue.{
  Entry, Node, TimeoutQueue, find, new, generate_id, discard, pop_back, get, erase, push, timeout,
  timeout_one,
}
use horse_rpc.Queues.TimeoutQueue.Valid.{
  IsValid, new-IsValid, erase-IsValid, get-IsValid, push-IsValid, expire-IsValid, expire-time,
  timeout-IsValid, timed_front,
}
use horse_rpc.Queues.TimeoutQueue.Counts.{find-none}
use horse_rpc.Queues.TimeoutQueue.Sends.{pop_back-IsValid}
use horse_rpc.Queues.TimeoutQueue.Expiry.{
  IsSorted, insert_time-IsSorted, remove-IsSorted, timeout_loop-IsSorted,
}

-- One call of a member function that changes the queue.
pub data Step {ℓ} {A : Type ℓ} : TimeoutQueue A → TimeoutQueue A → Type ℓ where
  generates : (q : TimeoutQueue A) → Step q (generate_id q).1
  pushes :
      (q : TimeoutQueue A) (ptr : A) (id time : ℕ) (has_send : Bool)
      → Step q (push ptr id time has_send q).1
  gets : (q : TimeoutQueue A) (id : ℕ) (b_erase : Bool) → Step q (get id b_erase q).1
  erases : (q : TimeoutQueue A) (id : ℕ) → Step q (erase id q).1
  sends :
      (q : TimeoutQueue A) (del : Bool) (id : ℕ) (ids : List ℕ)
      → q.send ≡ id ∷ ids
      → Step q (pop_back del id ids q)
  expires : (q : TimeoutQueue A) (now : ℕ) → Step q (timeout now q)
  expires_one : (q : TimeoutQueue A) (now : ℕ) → Step q (timeout_one now q).1

pub data Reach {ℓ} {A : Type ℓ} : TimeoutQueue A → Type ℓ where
  start : Reach new
  next : {q r : TimeoutQueue A} → Reach q → Step q r → Reach r

module _ {ℓ} {A : Type ℓ} where
  -- The two halves of the invariant.
  pub record Inv (q : TimeoutQueue A) : Type ℓ where
    pub valid : IsValid q
    pub sorted : IsSorted q.time

  discard-IsSorted :
      (q : TimeoutQueue A) (id : ℕ) (e : Entry A) → IsSorted q.time → IsSorted (discard id e q).time
  unfolding discard
  discard-IsSorted q id e s = remove-IsSorted id q.time s

  push-IsSorted :
      (q : TimeoutQueue A) (ptr : A) (id time : ℕ) (has_send : Bool)
      → IsSorted q.time
      → IsSorted (push ptr id time has_send q).1.time
  unfolding push
  push-IsSorted q ptr id time has_send s = elim (Option-cases (find id q.entries)) [
    | inl n ↦ rw (n, push) (insert_time-IsSorted _ q.time s)
    | inr (e, f) ↦ rw (f, push) s
  ]

  erase-IsSorted : (q : TimeoutQueue A) (id : ℕ) → IsSorted q.time → IsSorted (erase id q).1.time
  unfolding erase
  erase-IsSorted q id s = elim (Option-cases (find id q.entries)) [
    | inl n ↦ rw (n, erase) s
    | inr (e, f) ↦ rw (f, erase) (discard-IsSorted q id e s)
  ]

  get-IsSorted :
      (q : TimeoutQueue A) (id : ℕ) (b_erase : Bool)
      → IsSorted q.time
      → IsSorted (get id b_erase q).1.time
  unfolding get
  get-IsSorted q id true s = elim (Option-cases (find id q.entries)) [
    | inl n ↦ rw (n, get) s
    | inr (e, f) ↦ rw (f, get) (discard-IsSorted q id e s)
  ]
  get-IsSorted q id false s = elim (Option-cases (find id q.entries)) [
    | inl n ↦ rw (n, get) s
    | inr (e, f) ↦ rw (f, get) s
  ]

  pop_back-IsSorted :
      (q : TimeoutQueue A) (id : ℕ) (ids : List ℕ) (del : Bool)
      → IsSorted q.time
      → IsSorted (pop_back del id ids q).time
  unfolding pop_back
  pop_back-IsSorted q id ids true s = remove-IsSorted id q.time s
  pop_back-IsSorted q id ids false s = s

  timeout-IsSorted :
      (now : ℕ) (q : TimeoutQueue A) → IsSorted q.time → IsSorted (timeout now q).time
  unfolding timeout
  timeout-IsSorted now q s = timeout_loop-IsSorted now q.time q refl s

  timeout_one-Inv : (now : ℕ) (q : TimeoutQueue A) → Inv q → Inv (timeout_one now q).1
  unfolding timeout_one
  timeout_one-Inv now q i = go q.time refl
    where
      go : (ns : List Node) → q.time ≡ ns → Inv (timeout_one now q).1
      go [] t = rw (timeout_one, t) i
      go (n ∷ ns) t = elim (Bool-cases (ltb now n.time)) [
        | inl e ↦ rw (timeout_one, t, e) i
        | inr e ↦ elim (Option-cases (find n.data_iter q.entries)) [
          | inl f ↦
              absurd
                (omega (arith, find-none n.data_iter q.entries f, timed_front q n ns i.valid t))
          | inr (x, f) ↦
              rw (timeout_one, t, e, f)
                (record {
                  valid = expire-IsValid q n ns i.valid t;
                  sorted =
                      subst IsSorted (sym (expire-time n.data_iter ns q))
                        (subst IsSorted t i.sorted).1;
                })
        ]
      ]

  Step-Inv : {q r : TimeoutQueue A} → Step q r → Inv q → Inv r
  unfolding generate_id
  Step-Inv (generates q) i = record {
    valid = record { once = i.valid.once; times = i.valid.times; sends = i.valid.sends };
    sorted = i.sorted;
  }
  Step-Inv (pushes q ptr id time has_send) i = record {
    valid = push-IsValid q ptr id time has_send i.valid;
    sorted = push-IsSorted q ptr id time has_send i.sorted;
  }
  Step-Inv (gets q id b_erase) i = record {
    valid = get-IsValid q id b_erase i.valid;
    sorted = get-IsSorted q id b_erase i.sorted;
  }
  Step-Inv (erases q id) i = record {
    valid = erase-IsValid q id i.valid;
    sorted = erase-IsSorted q id i.sorted;
  }
  Step-Inv (sends q del id ids s) i = record {
    valid = pop_back-IsValid q id ids i.valid s del;
    sorted = pop_back-IsSorted q id ids del i.sorted;
  }
  Step-Inv (expires q now) i = record {
    valid = timeout-IsValid now q i.valid;
    sorted = timeout-IsSorted now q i.sorted;
  }
  Step-Inv (expires_one q now) i = timeout_one-Inv now q i

  -- In every state that a new queue reaches by calls of its member functions, each id is stored once
  -- at most, has one deadline exactly when it is stored, and is in the send list exactly when it is
  -- stored and not sent; and the deadlines are sorted.
  pub Reach-Inv : (q : TimeoutQueue A) → Reach q → Inv q
  unfolding new
  Reach-Inv q start = record { valid = new-IsValid; sorted = tt }
  Reach-Inv q (next r s) = Step-Inv s (Reach-Inv _ r)
