-- ===== src/Client/Sending/Delivery.antt =====
-- No byte of a request is lost, doubled or out of order on its way to the socket.
use horse_rpc.Base.{
  ℕ, zero, suc, ◌≡◌, ◌≤◌, refl, sym, ap, subst, ◌∙◌, ◌⊎◌, inl, inr, Bool, true, false, none, some,
  List, [], ◌∷◌, ◌++◌, length, take, drop, append_assoc, length-append, length-drop,
  take-append-drop, Bool-cases, arith,
}
use horse_rpc.Base.Succeeds.{Succeeds}
use horse_rpc.Net.Buffer.{Chunk, NetWorkBuffer, chunk_bytes, new, move_header}
use horse_rpc.Net.Buffer.Contents.{contents, chunks_bytes, IsValid, HasBytes, take_inside}
use horse_rpc.Net.Buffer.Header.{move_header-drop}
use horse_rpc.Client.Sending.{
  SocketAnswer, takes, pending, fails, Sender, is_empty, get_buffer_pointer, closed, send, send_all,
}

SocketAnswer-cases : (a : SocketAnswer) → ((n : ℕ) × (a ≡ takes n)) ⊎ (a ≡ pending) ⊎ (a ≡ fails)
SocketAnswer-cases (takes n) = inl (n, refl)
SocketAnswer-cases pending = inr (inl refl)
SocketAnswer-cases fails = inr (inr refl)

pub empty_contents : (xs : List ℕ) → length xs ≡ 0 → xs ≡ []
empty_contents [] h = refl
empty_contents (x ∷ xs) h = absurd (omega arith)

-- A buffer that is not empty shows a part of its bytes.
pointer_front :
    (cs : List Chunk) (n : ℕ)
    → IsValid (record { buffer_list = cs; buffer_length = n })
    → is_empty (record { buffer_list = cs; buffer_length = n }) ≡ false
    → (rest : List ℕ) × (chunks_bytes cs
        ≡ get_buffer_pointer (record { buffer_list = cs; buffer_length = n }) ++ rest)
      × (1 ≤ length (get_buffer_pointer (record { buffer_list = cs; buffer_length = n })))
unfolding get_buffer_pointer is_empty chunks_bytes chunk_bytes
pointer_front [] n v e = absurd (ground (arith, v.count, e))
pointer_front (c ∷ cs) n v e =
    let here = v.chunks.0 in rw e (chunks_bytes cs, refl, chunk_some c here)
  where
    chunk_some : (c : Chunk) → HasBytes c → 1 ≤ length (chunk_bytes c)
    chunk_some c h = omega (arith, length-drop c.pos c.buffer, h)

pub nothing_left : (b : NetWorkBuffer) → IsValid b → is_empty b ≡ true → contents b ≡ []
unfolding is_empty
nothing_left b v e = empty_contents (contents b) (ground (arith, v.count, e))

something_left : (b : NetWorkBuffer) → IsValid b → is_empty b ≡ false → 1 ≤ length (contents b)
unfolding is_empty
something_left b v e = ground (arith, v.count, e)

pub not_empty : (b : NetWorkBuffer) → IsValid b → 1 ≤ length (contents b) → is_empty b ≡ false
unfolding is_empty
not_empty b v h = ground (arith, v.count)

-- `total` is what the socket and the buffer have of the stream.
abbrev pub Whole : List ℕ → Sender → Type 0
Whole total σ =
    IsValid σ.send_buffer × (σ.is_valid ≡ true) × (σ.wire ++ contents σ.send_buffer ≡ total)

-- The connection was shut, behind a part of the stream.
abbrev pub Cut : List ℕ → Sender → Type 0
Cut total σ =
    (σ.is_valid ≡ false) × (σ.send_buffer ≡ new) × ((rest : List ℕ) × (σ.wire ++ rest ≡ total))

abbrev pub Sent : List ℕ → Bool × Sender → Type 0
Sent total (true, σ) = Whole total σ × (contents σ.send_buffer ≡ [])
Sent total (false, σ) = Whole total σ ⊎ Cut total σ

module _ (kernel : ℕ → List ℕ → SocketAnswer)
    (fits : (k : ℕ) (bs : List ℕ) (n : ℕ) → kernel k bs ≡ takes n → n ≤ length bs)
    (progress : (k : ℕ) (bs : List ℕ) (n : ℕ) → kernel k bs ≡ takes n → 1 ≤ length bs → 1 ≤ n) where
  -- What the socket takes leaves the front of the buffer.
  moved-Whole :
      (total : List ℕ) (n : ℕ) (σ : Sender)
      → Whole total σ
      → (rest : List ℕ) → contents σ.send_buffer ≡ get_buffer_pointer σ.send_buffer ++ rest
      → n ≤ length (get_buffer_pointer σ.send_buffer)
      → Whole total (record σ {
        wire = σ.wire ++ take n (get_buffer_pointer σ.send_buffer);
        send_buffer = (move_header n σ.send_buffer).1;
      })
        × (contents (move_header n σ.send_buffer).1 ≡ drop n (contents σ.send_buffer))
  moved-Whole total n σ w rest front le =
      let (b, e, v, c) = move_header-drop n σ.send_buffer w.0 (
        omega
          (arith, ap length front, length-append (get_buffer_pointer σ.send_buffer) rest, le)) in
      let moved = ap (λ (r : Bool × NetWorkBuffer). r.1) e in
      let shown : take n (get_buffer_pointer σ.send_buffer) ≡ take n (contents σ.send_buffer) =
        sym (ap (take n) front ∙ take_inside n (get_buffer_pointer σ.send_buffer) rest le) in
      let left = ap contents moved ∙ c in
      (
        (
          subst IsValid (sym moved) v,
          w.1,
          rw (shown, left)
              (append_assoc σ.wire (take n (contents σ.send_buffer))
                  (drop n (contents σ.send_buffer))
                ∙ ap (λ t. σ.wire ++ t) (take-append-drop n (contents σ.send_buffer))
                ∙ w.2),
        ),
        left,
      )

  send-takes :
      (call n : ℕ) (bytes : List ℕ) (σ : Sender)
      → σ.is_connected ≡ true
      → kernel call bytes ≡ takes n
      → send kernel call bytes σ ≡ (some n, record σ { wire = σ.wire ++ take n bytes })
  unfolding send
  send-takes call n bytes σ up e = simp (send, up, e) refl

  send-pending :
      (call : ℕ) (bytes : List ℕ) (σ : Sender)
      → σ.is_connected ≡ true
      → kernel call bytes ≡ pending
      → send kernel call bytes σ ≡ (none, σ)
  unfolding send
  send-pending call bytes σ up e = simp (send, up, e) refl

  send-fails :
      (call : ℕ) (bytes : List ℕ) (σ : Sender)
      → σ.is_connected ≡ true
      → kernel call bytes ≡ fails
      → send kernel call bytes σ ≡ (none, closed σ)
  unfolding send
  send-fails call bytes σ up e = simp (send, up, e) refl

  closed-Cut : (total : List ℕ) (σ : Sender) → Whole total σ → Cut total (closed σ)
  unfolding closed
  closed-Cut total σ w =
      let shut : closed σ ≡ record σ { is_connected = false; is_valid = false; send_buffer = new } =
        simp (closed, w.1) refl in
      subst (Cut total) (sym shut) (refl, refl, (contents σ.send_buffer, w.2))

  -- The loop ends, and the socket and the buffer hold the stream between them, or the connection is
  -- shut.
  pub send_all-Sent :
      (fuel : ℕ) (σ : Sender) (total : List ℕ)
      → Whole total σ
      → σ.is_connected ≡ true
      → is_empty σ.send_buffer ≡ false
      → length (contents σ.send_buffer) ≤ fuel
      → Succeeds (Sent total) (send_all kernel fuel σ)
  unfolding send_all
  send_all-Sent zero σ total w up full h =
      absurd (omega (arith, h, something_left σ.send_buffer w.0 full))
  send_all-Sent (suc fuel) σ total w up full h =
      let b = σ.send_buffer in
      let shown = get_buffer_pointer b in
      let (rest, front, one) = pointer_front b.buffer_list b.buffer_length w.0 full in
      elim (SocketAnswer-cases (kernel fuel shown)) [
        | inl (n, e) ↦
            let eq = send-takes fuel n shown σ up e in
            let (m, left) = moved-Whole total n σ w rest front (fits fuel shown n e) in
            let τ : Sender = record σ {
              wire = σ.wire ++ take n shown;
              send_buffer = (move_header n b).1;
            } in
            let fewer : length (contents τ.send_buffer) ≤ fuel = omega (
              arith,
              ap length left,
              length-drop n (contents b),
              h,
              progress fuel shown n e one,
              something_left b w.0 full,
            ) in
            rw (send_all, eq)
              (rw eq (elim (Bool-cases (is_empty (move_header n b).1)) [
                | inl f ↦ rw f (m, nothing_left (move_header n b).1 m.0 f)
                | inr f ↦ rw f (send_all-Sent fuel τ total m up f fewer)
              ]))
        | inr (inl e) ↦ let eq = send-pending fuel shown σ up e in rw (send_all, eq) (rw eq (inl w))
        | inr (inr e) ↦
            let eq = send-fails fuel shown σ up e in
            rw (send_all, eq) (rw eq (inr (closed-Cut total σ w)))
      ]
