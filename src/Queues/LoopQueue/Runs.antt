-- ===== src/Queues/LoopQueue/Runs.antt =====
-- Sequences of operations on a TC_LoopQueue, against a list with a bound.
use horse_rpc.Base.{
  ℕ, suc, ◌+◌, ◌^◌, ◌≤◌, ◌<◌, ◌≡◌, refl, ap, ap₂, sym, ◌∙◌, true, false, none, some, List, [], ◌∷◌,
  ◌++◌, ltb, leb, leb→le, lt→ltb, ltb→lt, ltb_false→le, le→ltb_false, ◌==◌, length, length-append,
  append_assoc, append-nil, arith, Bool-cases, inl, inr, subst,
}
use horse_rpc.Queues.LoopQueue.{
  LoopQueue, new, size, empty, next, store, push_back, store_all, push_back_all, pop_front,
  get_front,
}
use horse_rpc.Queues.LoopQueue.Calls.{
  Operation, push, push_all, pop, front, count, is_empty, Output, element, counted, tested, perform,
  run, list_perform, list_run,
}
use horse_rpc.Queues.LoopQueue.Views.{Rep}
use horse_rpc.Queues.LoopQueue.Refinement.{
  size-Rep, empty-Rep, full-Rep, refuses-Rep, store-Rep, pop-Rep,
}

-- One call gives the same output on both sides, and leaves ring and list related.
Agrees {ℓ} : {A : Type ℓ} → LoopQueue A → Output A × LoopQueue A → Output A × List A → Type ℓ
Agrees q (o, q') (o', xs') = (o ≡ o') × Rep q' xs' × (q'.capacity_sub ≡ q.capacity_sub)

suc_is_not_zero : (n : ℕ) → (suc n == 0) ≡ false
suc_is_not_zero n = ground arith

gt→leb_false : (a b : ℕ) → b < a → leb a b ≡ false
gt→leb_false a b h = ground arith

leb_false→gt : (a b : ℕ) → leb a b ≡ false → b < a
leb_false→gt a b h = ground arith

store_all-Rep {ℓ} :
    {A : Type ℓ} (ts : List A) (q : LoopQueue A) (xs : List A)
    → Rep q xs
    → length xs + length ts ≤ q.capacity_sub
    → Rep (store_all ts q) (xs ++ ts) × ((store_all ts q).capacity_sub ≡ q.capacity_sub)
unfolding store_all store
store_all-Rep [] q xs r h = (subst (Rep q) (sym (append-nil xs)) r, refl)
store_all-Rep (t ∷ ts) q xs r h =
    let (r', e) =
      store_all-Rep ts (store t q) (xs ++ t ∷ []) (store-Rep q xs r t (omega arith))
        (omega (arith, length-append xs (t ∷ []))) in
    (subst (Rep (store_all ts (store t q))) (append_assoc xs (t ∷ []) ts) r', e)

module _ {ℓ} {A : Type ℓ} (q : LoopQueue A) (xs : List A) (r : Rep q xs) where
  push_back-room :
      (t : A) → length xs < q.capacity_sub → push_back t q ≡ (true, length xs == 0, store t q)
  unfolding push_back
  push_back-room t h =
      rw
        (
          full-Rep q xs r,
          gt→leb_false q.capacity_sub (length xs) h,
          empty-Rep q xs r,
          size-Rep (store t q) (xs ++ t ∷ []) (store-Rep q xs r t h),
          length-append xs (t ∷ []),
        )
        (ap (λ b. (true, b, store t q)) (ground arith))

  push_back-full : (t : A) → q.capacity_sub ≤ length xs → push_back t q ≡ (false, false, q)
  unfolding push_back
  push_back-full t h = rw (full-Rep q xs r) (ground arith)

  push-Agrees : (t : A) → Agrees q (perform (push t) q) (list_perform q.capacity_sub (push t) xs)
  unfolding Agrees perform list_perform store
  push-Agrees t = elim (Bool-cases (ltb (length xs) q.capacity_sub)) [
    | inl e ↦
        rw (push_back-room t (ltb→lt (length xs) q.capacity_sub e), e)
          (refl, store-Rep q xs r t (ltb→lt (length xs) q.capacity_sub e), refl)
    | inr e ↦ rw (push_back-full t (ltb_false→le (length xs) q.capacity_sub e), e) (refl, r, refl)
  ]

  pop_front-none : xs ≡ [] → pop_front q ≡ (none, q)
  unfolding pop_front
  pop_front-none e = rw (empty-Rep q xs r, e)

  pop_front-some :
      (y : A) (ys : List A) → xs ≡ y ∷ ys → pop_front q ≡ (some y, record q { end = next q q.end })
  unfolding pop_front
  pop_front-some y ys e =
      rw (empty-Rep q xs r, e, suc_is_not_zero (length ys))
        (ap (λ o. (o, record q { end = next q q.end })) (pop-Rep q xs r y ys e).0)

  pop-Agrees :
      (ys : List A) → xs ≡ ys → Agrees q (perform pop q) (list_perform q.capacity_sub pop ys)
  unfolding Agrees perform list_perform
  pop-Agrees [] e = rw (pop_front-none e) (refl, subst (Rep q) e r, refl)
  pop-Agrees (y ∷ ys) e = rw (pop_front-some y ys e) (refl, (pop-Rep q xs r y ys e).1, refl)

  front-Agrees :
      (ys : List A) → xs ≡ ys → Agrees q (perform front q) (list_perform q.capacity_sub front ys)
  unfolding Agrees perform list_perform get_front
  front-Agrees [] e = (rw (empty-Rep q xs r, e) refl, subst (Rep q) e r, refl)
  front-Agrees (y ∷ ys) e = (
    rw (empty-Rep q xs r, e, suc_is_not_zero (length ys)) (ap element (pop-Rep q xs r y ys e).0),
    subst (Rep q) e r,
    refl,
  )

  push_all-Agrees :
      (ts : List A)
      → Agrees q (perform (push_all ts) q) (list_perform q.capacity_sub (push_all ts) xs)
  unfolding Agrees perform list_perform push_back_all
  push_all-Agrees ts = elim (Bool-cases (leb (length xs + length ts) q.capacity_sub)) [
    | inl e ↦
        rw
          (
            refuses-Rep q xs r (length ts),
            e,
            le→ltb_false q.capacity_sub (length xs + length ts) (leb→le _ _ e),
          )
          (let (a, b) = store_all-Rep ts q xs r (leb→le _ _ e) in (refl, a, b))
    | inr e ↦
        rw
          (
            refuses-Rep q xs r (length ts),
            e,
            lt→ltb q.capacity_sub (length xs + length ts) (leb_false→gt _ _ e),
          )
          (refl, r, refl)
  ]

  perform-Agrees : (op : Operation A) → Agrees q (perform op q) (list_perform q.capacity_sub op xs)
  unfolding Agrees perform list_perform empty
  perform-Agrees (push t) = push-Agrees t
  perform-Agrees (push_all ts) = push_all-Agrees ts
  perform-Agrees pop = pop-Agrees xs refl
  perform-Agrees front = front-Agrees xs refl
  perform-Agrees count = (ap counted (size-Rep q xs r), r, refl)
  perform-Agrees is_empty = (ap tested (empty-Rep q xs r), r, refl)

module _ {ℓ} {A : Type ℓ} where
  run-Agrees :
      (ops : List (Operation A)) (q : LoopQueue A) (xs : List A) (bound : ℕ)
      → Rep q xs
      → q.capacity_sub ≡ bound
      → run ops q ≡ list_run bound ops xs
  unfolding run list_run Agrees
  run-Agrees [] q xs bound r e = refl
  run-Agrees (op ∷ ops) q xs bound r e =
      let (o, r', e') =
        subst (λ b. Agrees q (perform op q) (list_perform b op xs)) e (perform-Agrees q xs r op) in
      ap₂ ◌∷◌ o (run-Agrees ops _ _ bound r' (e' ∙ e))

  -- A queue made with iSize from 1 to 2^64 - 2, over any memory of iSize + 1 slots, answers every
  -- sequence of calls as a list of at most iSize elements does: it refuses exactly the elements for
  -- which there is no room, hands them out in the order in which they came, and sets bEmpty exactly
  -- when the queue was empty before.
  pub run-list_run :
      (memory : List A) (size : ℕ) (ops : List (Operation A))
      → 1 ≤ size
      → size + 1 < 2 ^ 64
      → length memory ≡ size + 1
      → run ops (new memory size) ≡ list_run size ops []
  unfolding new
  run-list_run memory size ops room word e =
      run-Agrees ops (new memory size) [] size
        (record {
          room = room;
          shape = omega arith;
          word = omega arith;
          memory = omega arith;
          begin_inside = omega arith;
          end_inside = omega arith;
          count = refl;
          held = tt;
        })
        refl
