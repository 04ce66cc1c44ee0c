-- ===== src/Queues/LoopQueue/Refinement.antt =====
-- TC_LoopQueue is a list of at most iSize elements: every operation does on the ring what it does
-- on the list.
use horse_rpc.Base.{
  ℕ, ◌+◌, ◌<◌, ◌≡◌, ap, sym, ◌∙◌, some, List, [], ◌∷◌, ◌++◌, ltb, leb, ◌==◌, length, length-append,
  get_elem?, arith, subst,
}
use horse_rpc.Queues.LoopQueue.{LoopQueue, size, next, store, full, refuses}
use horse_rpc.Queues.LoopQueue.Views.{
  step, Holds, Rep, step-lt, gap-step, gap-store, Holds-set, length-set,
}

module _ {ℓ} {A : Type ℓ} (q : LoopQueue A) (xs : List A) (r : Rep q xs) where
  next-step : (i : ℕ) → next q i ≡ step q.capacity i
  unfolding next
  next-step i = rw r.shape (ground arith)

  pub size-Rep : size q ≡ length xs
  unfolding size
  size-Rep = ground (arith, r.count, r.begin_inside, r.end_inside, r.word)

  pub empty-Rep : (q.end == q.begin) ≡ (length xs == 0)
  empty-Rep = ground (arith, r.count, r.begin_inside, r.end_inside)

  pub full-Rep : full q ≡ leb q.capacity_sub (length xs)
  unfolding full
  full-Rep = ground (arith, r.count, r.begin_inside, r.end_inside, r.word, r.shape, r.room)

  pub refuses-Rep : (n : ℕ) → refuses n q ≡ ltb q.capacity_sub (length xs + n)
  unfolding refuses
  refuses-Rep n = ground (arith, r.count, r.begin_inside, r.end_inside, r.word, r.shape, r.room)

  pub store-Rep : (t : A) → length xs < q.capacity_sub → Rep (store t q) (xs ++ t ∷ [])
  unfolding store
  store-Rep t h = record {
    room = r.room;
    shape = r.shape;
    word = r.word;
    memory = length-set q.slots q.begin t ∙ r.memory;
    begin_inside = rw (next-step q.begin) (step-lt q.capacity q.begin r.begin_inside);
    end_inside = r.end_inside;
    count = rw (next-step q.begin) (
        gap-store q.capacity q.end q.begin (length xs) r.end_inside r.begin_inside r.count
          (omega (arith, r.shape))
        ∙ sym (length-append xs (t ∷ [])));
    held =
        Holds-set q.slots q.capacity q.end q.begin t xs r.memory r.end_inside r.begin_inside r.count
          r.held;
  }

  -- What remains when the oldest element is read.
  pub pop-Rep :
      (x : A) (ys : List A)
      → xs ≡ x ∷ ys
      → (get_elem? q.slots q.end ≡ some x) × Rep (record q { end = next q q.end }) ys
  pop-Rep x ys e =
      let held : Holds q.slots q.capacity q.end (x ∷ ys) =
        subst (Holds q.slots q.capacity q.end) e r.held in
      (
        held.0,
        record {
          room = r.room;
          shape = r.shape;
          word = r.word;
          memory = r.memory;
          begin_inside = r.begin_inside;
          end_inside = rw (next-step q.end) (step-lt q.capacity q.end r.end_inside);
          count = rw (next-step q.end) (
              gap-step q.capacity q.end q.begin r.end_inside r.begin_inside (length ys)
                (r.count ∙ ap length e));
          held = rw (next-step q.end) held.1;
        },
      )
