-- ===== src/Client/Adapter/Trip.antt =====
-- Failed calls in a row shut an endpoint off, and nothing else that finishInvoke sees does.
use horse_rpc.Base.{
  ℕ, suc, ◌+◌, ◌^◌, ◌≤◌, ◌<◌, ◌≡◌, refl, ap, ◌∙◌, Bool, true, false, ◌&&◌, List, [], ◌∷◌, ◌++◌,
  length, All, arith, Bool-cases, inl, inr, not, ◌||◌, leb, ltb, ◌==◌, if◌then◌else◌, ◌%◌,
}
use horse_rpc.Client.Adapter.{
  CheckTimeoutInfo, Adapter, set_inactive, count_call, too_frequent, end_interval, finish_invoke,
  finish_all,
}

module _ {T : Type 0} (close : T → T) (info : CheckTimeoutInfo) where
  -- What a call leaves of an active endpoint that is still active.
  StillActive : ℕ → Bool → Adapter T → Adapter T → Type 0
  StillActive now fail a r =
      (r.frequence_fail ≡ (count_call close info now fail a).frequence_fail)
      × (r.frequence_fail_time ≡ (count_call close info now fail a).frequence_fail_time)
      × ((fail && too_frequent close info now (count_call close info now fail a)) ≡ false)

  end_interval-step :
      (now later : ℕ) (fail : Bool) (b : Adapter T)
      → (end_interval close info now later fail b).active_status ≡ true
      → ((end_interval close info now later fail b).frequence_fail ≡ b.frequence_fail)
        × ((end_interval close info now later fail b).frequence_fail_time ≡ b.frequence_fail_time)
  unfolding end_interval set_inactive
  end_interval-step now later fail b h = ground arith

  finish_invoke-step :
      (now later : ℕ) (fail : Bool) (a : Adapter T)
      → a.active_status ≡ true
      → (finish_invoke close info now later fail a).active_status ≡ true
      → StillActive now fail a (finish_invoke close info now later fail a)
  unfolding finish_invoke StillActive
  finish_invoke-step now later fail a act h =
      ground (arith, end_interval-step now later fail (count_call close info now fail a))

  finish_invoke-inactive :
      (now later : ℕ) (a : Adapter T)
      → a.active_status ≡ false
      → finish_invoke close info now later true a ≡ a
  unfolding finish_invoke
  finish_invoke-inactive now later a h = ground arith

  finish_invoke-success :
      (now later : ℕ) (a : Adapter T)
      → a.active_status ≡ true
      → (finish_invoke close info now later false a).active_status ≡ true
  unfolding finish_invoke end_interval count_call
  finish_invoke-success now later a h = ground arith

  AllFail : List (ℕ × ℕ × Bool) → Type 0
  AllFail calls = All (λ c. c.2 ≡ true) calls

  finish_all-inactive :
      (calls : List (ℕ × ℕ × Bool)) (a : Adapter T)
      → AllFail calls
      → a.active_status ≡ false
      → (finish_all close info calls a).active_status ≡ false
  unfolding finish_all AllFail
  finish_all-inactive [] a f h = h
  finish_all-inactive ((now, later, fail) ∷ calls) a (f, fs) h =
      let stays : finish_invoke close info now later fail a ≡ a =
        ap (λ b. finish_invoke close info now later b a) f ∙ finish_invoke-inactive now later a h in
      finish_all-inactive calls (finish_invoke close info now later fail a) fs
        (ap (λ b. b.active_status) stays ∙ h)

  -- The counts of a further failure.
  counted :
      (now k t : ℕ) (a : Adapter T)
      → a.frequence_fail ≡ suc k
      → a.frequence_fail_time ≡ t
      → k + 2 < 2 ^ 32
      → ((count_call close info now true a).frequence_fail ≡ suc (suc k))
        × ((count_call close info now true a).frequence_fail_time ≡ t)
  unfolding count_call
  counted now k t a e et h = ground arith

  -- The failure that completes a row shuts the endpoint off.
  last_failure :
      (now later k t : ℕ) (a : Adapter T)
      → a.active_status ≡ true
      → a.frequence_fail ≡ suc k
      → a.frequence_fail_time ≡ t
      → k + 2 < 2 ^ 32
      → info.frequence_fail_invoke ≤ k + 2
      → t ≤ now
      → (finish_invoke close info now later true a).active_status ≡ false
  unfolding StillActive too_frequent
  last_failure now later k t a act e et small enough late =
      elim (Bool-cases (finish_invoke close info now later true a).active_status) [
        | inl h ↦ absurd (
            ground (
              arith,
              (finish_invoke-step now later true a act h).2,
              counted now k t a e et (omega arith),
            ))
        | inr h ↦ h
      ]

  next_count :
      (now later k t : ℕ) (a : Adapter T)
      → a.active_status ≡ true
      → (finish_invoke close info now later true a).active_status ≡ true
      → a.frequence_fail ≡ suc k
      → a.frequence_fail_time ≡ t
      → k + 2 < 2 ^ 32
      → ((finish_invoke close info now later true a).frequence_fail ≡ suc (suc k))
        × ((finish_invoke close info now later true a).frequence_fail_time ≡ t)
  unfolding StillActive
  next_count now later k t a act h e et small =
      let (p, q, _) = finish_invoke-step now later true a act h in
      let (p', q') = counted now k t a e et small in (p ∙ p', q ∙ q')

  all_fail :
      (calls : List (ℕ × ℕ × Bool)) (now later : ℕ)
      → AllFail calls
      → AllFail (calls ++ (now, later, true) ∷ [])
  unfolding AllFail
  all_fail [] now later fs = (refl, tt)
  all_fail (c ∷ calls) now later (f, fs) = (f, all_fail calls now later fs)

  failures_in_a_row :
      (calls : List (ℕ × ℕ × Bool)) (now later k t : ℕ) (a : Adapter T)
      → AllFail calls
      → a.active_status ≡ true
      → a.frequence_fail ≡ suc k
      → a.frequence_fail_time ≡ t
      → k + length calls + 2 < 2 ^ 32
      → info.frequence_fail_invoke ≤ k + length calls + 2
      → t ≤ now
      → (finish_all close info (calls ++ (now, later, true) ∷ []) a).active_status ≡ false
  unfolding finish_all AllFail
  failures_in_a_row [] now later k t a f act e et small enough late =
      last_failure now later k t a act e et (omega arith) (omega arith) late
  failures_in_a_row ((now', later', false) ∷ calls) now later k t a (f, fs) act e et small enough
        late =
      absurd (ground (arith, f))
  failures_in_a_row ((now', later', true) ∷ calls) now later k t a (f, fs) act e et small enough
        late =
      let r = finish_invoke close info now' later' true a in
      elim (Bool-cases r.active_status) [
        | inl h ↦
            let (p, q) = next_count now' later' k t a act h e et (omega arith) in
            failures_in_a_row calls now later (suc k) t r fs h p q (omega arith) (omega arith) late
        | inr h ↦
            finish_all-inactive (calls ++ (now, later, true) ∷ []) r (all_fail calls now later fs) h
      ]

  first_count :
      (now later : ℕ) (a : Adapter T)
      → a.active_status ≡ true
      → (finish_invoke close info now later true a).active_status ≡ true
      → a.frequence_fail ≡ 0
      → ((finish_invoke close info now later true a).frequence_fail ≡ 1)
        × ((finish_invoke close info now later true a).frequence_fail_time
            ≡ now + info.min_frequence_fail_time)
  unfolding StillActive count_call
  first_count now later a act h z = ground (arith, finish_invoke-step now later true a act h)

  -- On an active endpoint whose last call did not fail, failures in a row shut it off, when they
  -- reach the configured number, fewer than 2^32, and the last one comes at least the configured
  -- time after the first.
  pub finish_all-trip :
      (a : Adapter T) (first first_later : ℕ) (calls : List (ℕ × ℕ × Bool)) (last last_later : ℕ)
      → a.active_status ≡ true
      → a.frequence_fail ≡ 0
      → All (λ c. c.2 ≡ true) calls
      → length calls + 2 < 2 ^ 32
      → info.frequence_fail_invoke ≤ length calls + 2
      → first + info.min_frequence_fail_time ≤ last
      → (finish_all close info
          ((first, first_later, true) ∷ (calls ++ (last, last_later, true) ∷ []))
          a).active_status
        ≡ false
  unfolding finish_all AllFail
  finish_all-trip a first first_later calls last last_later act z fs small enough late =
      let r = finish_invoke close info first first_later true a in
      elim (Bool-cases r.active_status) [
        | inl h ↦
            let (p, q) = first_count first first_later a act h z in
            failures_in_a_row calls last last_later 0 (first + info.min_frequence_fail_time) r fs h
              p q (omega arith) (omega arith) late
        | inr h ↦
            finish_all-inactive (calls ++ (last, last_later, true) ∷ []) r
              (all_fail calls last last_later fs) h
      ]

  -- A call leaves an active endpoint active, but for two cases, and shuts it off in both: it failed,
  -- and its failure makes the configured number in a row, the last of them at least the configured
  -- time after the first; or it failed behind the end of an interval in which, with it, the failures
  -- reached the least number and the ratio. The counts are 32 bits wide.
  pub finish_invoke-shuts_off :
      (now later : ℕ) (fail : Bool) (a : Adapter T)
      → a.active_status ≡ true
      → (finish_invoke close info now later fail a).active_status
        ≡ not (
            fail
            && ((leb info.frequence_fail_invoke ((a.frequence_fail + 1) % 2 ^ 32)
                  && leb
                      (if a.frequence_fail == 0
                        then now + info.min_frequence_fail_time
                        else a.frequence_fail_time)
                      now)
                || (ltb a.next_finish_invoke_time now
                    && (leb info.min_timeout_invoke ((a.timeout_invoke + 1) % 2 ^ 32)
                        && info.radio_reached
                            ((a.timeout_invoke + 1) % 2 ^ 32)
                            ((a.total_invoke + 1) % 2 ^ 32)))))
  unfolding finish_invoke end_interval count_call too_frequent set_inactive
  finish_invoke-shuts_off now later fail a act = ground arith
