-- ===== src/Queues/TimeoutQueue/Sends.antt =====
-- getSend and popSend on a valid queue.
use horse_rpc.Base.{
  ℕ, ◌+◌, ◌≤◌, ◌≡◌, refl, ap, sym, ◌∙◌, Bool, true, false, not, some, List, ◌∷◌, ◌==◌, arith,
  Option-cases, inl, inr, ==_refl,
}
use horse_rpc.Queues.TimeoutQueue.{Entry, TimeoutQueue, find, get_send, pop_back, value}
use horse_rpc.Queues.TimeoutQueue.Counts.{
  bit, all, unsent, count-le, count-remove, count-mark_sent, unsent-mark_sent, find-none, find-some,
}
use horse_rpc.Queues.TimeoutQueue.Valid.{IsValid, waiting, queued}

module _ {ℓ} {A : Type ℓ} (q : TimeoutQueue A) (id : ℕ) (ids : List ℕ) (v : IsValid q)
    (s : q.send ≡ id ∷ ids) where
  -- What the send list's front says of its entry.
  front_waits : (j : ℕ) → bit (id == j) + queued j ids ≡ waiting j q.entries
  front_waits j =
      let front : queued j q.send ≡ bit (id == j) + queued j ids = ap (queued j) s ∙ ground arith in
      ground (arith, v.sends j, front)

  pub pop_back-IsValid : (del : Bool) → IsValid (pop_back del id ids q)
  unfolding pop_back
  pop_back-IsValid true = record {
    once = λ j.
        rw (count-remove (λ e. e.id) all id j q.entries (v.once id)) (ground (arith, v.once j));
    times = λ j. rw (
      count-remove (λ e. e.id) all id j q.entries (v.once id),
      count-remove (λ n. n.data_iter) all id j q.time (omega (arith, v.times id, v.once id)),
      v.times j,
    );
    sends = λ j.
        rw (count-remove (λ e. e.id) unsent id j q.entries (v.once id))
          (ground (arith, front_waits j, v.once j, count-le (λ e. e.id) unsent j q.entries));
  }
  pop_back-IsValid false = record {
    once = λ j. rw (count-mark_sent id j q.entries) (v.once j);
    times = λ j. v.times j ∙ sym (count-mark_sent id j q.entries);
    sends = λ j.
        rw (unsent-mark_sent id j q.entries (v.once id))
          (ground (arith, front_waits j, v.once j, count-le (λ e. e.id) unsent j q.entries));
  }

  -- The front of the send list is stored, and not sent.
  pub front_found : (e : Entry A) × (find id q.entries ≡ some e) × (e.has_send ≡ false)
  front_found = elim (Option-cases (find id q.entries)) [
    | inl f ↦ absurd (
        omega
          (arith, find-none id q.entries f, count-le (λ e. e.id) unsent id q.entries, one_waits))
    | inr (e, f) ↦ (e, f, not_sent e.has_send (find-some id q.entries e f (v.once id)).1)
  ]
    where
      one_waits : 1 ≤ waiting id q.entries
      one_waits =
          let one : bit (id == id) ≡ 1 = rw (==_refl id) in omega (arith, front_waits id, one)

      not_sent : (b : Bool) → waiting id q.entries ≡ bit (not b) → b ≡ false
      not_sent true h = absurd (omega (arith, h, one_waits))
      not_sent false h = refl

  -- With a request in the send list, getSend returns the one at the list's back: its assert holds.
  pub get_send-front :
      (e : Entry A) × (find id q.entries ≡ some e)
      × (e.has_send ≡ false)
      × (get_send q ≡ value e.ptr)
  unfolding get_send
  get_send-front = let (e, f, w) = front_found in (e, f, w, rw (get_send, s, f, w))
