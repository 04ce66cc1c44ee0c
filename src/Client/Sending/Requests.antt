-- ===== src/Client/Sending/Requests.antt =====
-- What sendRequest makes of a whole request.
use horse_rpc.Base.{
  ℕ, ◌^◌, ◌≡◌, ◌≤◌, ◌<◌, refl, sym, ap, subst, ◌∙◌, ◌⊎◌, inl, inr, Bool, true, false, not, List, [],
  ◌++◌, ◌==◌, if◌then◌else◌, length, append_assoc, append-nil, arith,
}
use horse_rpc.Base.Int.{ℤ, pos, negsuc}
use horse_rpc.Base.Branches.{if-true, if-false}
use horse_rpc.Base.Succeeds.{Succeeds, Succeeds-map, Succeeds-if}
use horse_rpc.Net.Buffer.{new, add_buffer}
use horse_rpc.Net.Buffer.Contents.{contents, IsValid}
use horse_rpc.Net.Buffer.Header.{add_buffer-contents, add_buffer-IsValid}
use horse_rpc.Client.Messages.{ReturnStatus, ret_error, ret_ok, ret_full, ret_not_send}
use horse_rpc.Client.Sending.{
  SocketAnswer, takes, Sender, is_empty, with_buffer, send_request, do_request,
}
use horse_rpc.Client.Sending.Delivery.{
  Whole, Cut, Sent, empty_contents, nothing_left, not_empty, send_all-Sent,
}

-- What each result of sendRequest says, for the stream up to the end of the request.
abbrev pub Outcome : List ℕ → Sender → ReturnStatus × Sender → Type 0
Outcome bytes σ (ret_ok, τ) =
    (IsValid τ.send_buffer
      × (τ.wire ++ contents τ.send_buffer ≡ (σ.wire ++ contents σ.send_buffer) ++ bytes))
    × ((length bytes ≡ 0) ⊎ (contents τ.send_buffer ≡ []))
Outcome bytes σ (ret_full, τ) = Whole ((σ.wire ++ contents σ.send_buffer) ++ bytes) τ
Outcome bytes σ (ret_not_send, τ) = τ ≡ σ
Outcome bytes σ (ret_error, τ) = Cut ((σ.wire ++ contents σ.send_buffer) ++ bytes) τ

module _ (kernel : ℕ → List ℕ → SocketAnswer)
    (fits : (k : ℕ) (bs : List ℕ) (n : ℕ) → kernel k bs ≡ takes n → n ≤ length bs)
    (progress : (k : ℕ) (bs : List ℕ) (n : ℕ) → kernel k bs ≡ takes n → 1 ≤ length bs → 1 ≤ n) where
  filled-Whole :
      (bytes : List ℕ) (σ : Sender)
      → IsValid σ.send_buffer
      → length bytes < 2 ^ 32
      → σ.is_valid ≡ true
      → Whole
          ((σ.wire ++ contents σ.send_buffer) ++ bytes)
          (with_buffer (add_buffer bytes σ.send_buffer) σ)
  filled-Whole bytes σ v h alive = (
    add_buffer-IsValid bytes σ.send_buffer h v,
    alive,
    ap (λ t. σ.wire ++ t) (add_buffer-contents bytes σ.send_buffer)
        ∙ sym (append_assoc σ.wire (contents σ.send_buffer) bytes),
  )

  end :
      (bytes : List ℕ) (σ : Sender) (emptied : Bool) (τ : Sender)
      → Sent ((σ.wire ++ contents σ.send_buffer) ++ bytes) (emptied, τ)
      → Outcome bytes σ (
          if emptied
          then (ret_ok, τ)
          else if not τ.is_valid
          then (ret_error, with_buffer new τ)
          else (ret_full, τ))
  end bytes σ true τ s = ((s.0.0, s.0.2), inr s.1)
  end bytes σ false τ (inl w) =
      subst (Outcome bytes σ) (sym (if-false (not τ.is_valid) _ _ (ap not w.1))) w
  end bytes σ false τ (inr c) =
      subst (Outcome bytes σ) (sym (if-true (not τ.is_valid) _ _ (ap not c.0))) (c.0, refl, c.2)

  -- sendRequest, for a request of fewer than 2^32 bytes and a socket that takes some of the bytes
  -- that it is shown, keeps the stream: with eRetOk the socket and the buffer have the whole stream
  -- and the buffer is empty if the request is not; with eRetFull they have it and the connection is
  -- still there; with eRetNotSend nothing has changed; with eRetError the connection is shut, and
  -- the socket has a front part of the stream.
  pub send_request-Outcome :
      (bytes : List ℕ) (σ : Sender)
      → IsValid σ.send_buffer
      → length bytes < 2 ^ 32
      → (σ.is_connected ≡ true → σ.is_valid ≡ true)
      → Succeeds (Outcome bytes σ) (send_request kernel bytes σ)
  unfolding send_request
  send_request-Outcome bytes σ v h alive =
      let P = Outcome bytes σ in
      let total = (σ.wire ++ contents σ.send_buffer) ++ bytes in
      let filled = with_buffer (add_buffer bytes σ.send_buffer) σ in
      Succeeds-if P (length bytes == 0) _ _
        (λ none_given.
          let zero_bytes : length bytes ≡ 0 = ground (arith, none_given) in
          let whole : σ.wire ++ contents σ.send_buffer ≡ total = sym (
            ap (λ t. (σ.wire ++ contents σ.send_buffer) ++ t) (empty_contents bytes zero_bytes)
            ∙ append-nil (σ.wire ++ contents σ.send_buffer)) in
          ((v, whole), inl zero_bytes))
        (λ given.
          Succeeds-if P (not (is_empty σ.send_buffer)) _ _ (λ _. refl)
            (λ idle.
              Succeeds-if P (not σ.is_connected) _ _ (λ _. refl)
                (λ up.
                  let connected : σ.is_connected ≡ true = ground (arith, up) in
                  let empty : is_empty σ.send_buffer ≡ true = ground (arith, idle) in
                  let filled_length : length (contents filled.send_buffer) ≡ length bytes =
                    ap length (add_buffer-contents bytes σ.send_buffer)
                    ∙ ap (λ xs. length (xs ++ bytes)) (nothing_left σ.send_buffer v empty) in
                  let w = filled-Whole bytes σ v h (alive connected) in
                  let full : is_empty filled.send_buffer ≡ false =
                    not_empty filled.send_buffer w.0 (ground (arith, filled_length, given)) in
                  Succeeds-map P _ _
                    (send_all-Sent kernel fits progress (length bytes) filled total w connected full
                      (omega (arith, filled_length)))
                    (λ (r : Bool × Sender). end bytes σ r.0 r.1))))

  -- doRequest on a connection that is up keeps the stream: with 0 the socket has all of it, and with
  -- -2 the rest waits in the buffer, or the connection is shut.
  pub do_request-Sent :
      (σ : Sender) (total : List ℕ)
      → Whole total σ
      → σ.is_connected ≡ true
      → Succeeds
          (λ (r : ℤ × Sender).
            ((r.0 ≡ pos 0) × Sent total (true, r.1)) ⊎ ((r.0 ≡ negsuc 1) × Sent total (false, r.1)))
          (do_request kernel σ)
  unfolding do_request
  do_request-Sent σ total w up =
      let P = λ (r : ℤ × Sender).
        ((r.0 ≡ pos 0) × Sent total (true, r.1)) ⊎ ((r.0 ≡ negsuc 1) × Sent total (false, r.1)) in
      Succeeds-if P (not σ.is_valid) _ _ (λ e. absurd (ground (arith, w.1, e)))
        (λ _.
          Succeeds-if P (is_empty σ.send_buffer) _ _
            (λ e. inl (refl, (w, nothing_left σ.send_buffer w.0 e)))
            (λ full.
              Succeeds-map P _ _
                (send_all-Sent kernel fits progress σ.send_buffer.buffer_length σ total w up full
                  (omega (arith, w.0.count)))
                (λ (r : Bool × Sender). by_flag r.0 r.1)))
    where
      by_flag :
          (emptied : Bool) (τ : Sender)
          → Sent total (emptied, τ)
          → (((if emptied then pos 0 else negsuc 1) ≡ pos 0) × Sent total (true, τ))
            ⊎ (((if emptied then pos 0 else negsuc 1) ≡ negsuc 1) × Sent total (false, τ))
      by_flag true τ s = inl (refl, s)
      by_flag false τ s = inr (refl, s)
