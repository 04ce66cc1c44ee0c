-- ===== src/Net/Buffer/Streams.antt =====
-- A packet that arrives in pieces: parseBuffer waits for its last byte, and then returns it.
use horse_rpc.Base.{
  ℕ, ◌+◌, ◌-◌, ◌^◌, ◌≤◌, ◌<◌, ◌≡◌, refl, ap, ap₂, sym, ◌∙◌, false, ◌||◌, List, [], ◌∷◌, ◌++◌, ltb,
  if◌then◌else◌, length, take, drop, length-append, take-length_append, drop-length_append,
  append_assoc, append-nil, All, arith, ltb_false→le, le→ltb_false, lt→ltb, Bool-cases, inl, inr,
}
use horse_rpc.Base.Bytes.{be_bytes, be_value, be_value-be_bytes, length-be_bytes}
use horse_rpc.Net.Buffer.{NetWorkBuffer, packet_less, packet_full, parse_buffer, new, add_buffer}
use horse_rpc.Net.Buffer.Contents.{contents, chunks_bytes, IsValid, take_inside}
use horse_rpc.Net.Buffer.Header.{add_buffer-contents, add_buffer-IsValid}
use horse_rpc.Net.Buffer.Frames.{parse_bytes, parse_buffer-parse_bytes}

-- A packet behind its length in `n` bytes, which counts itself.
unfoldable pub frame : ℕ → List ℕ → List ℕ
frame n body = be_bytes n (n + length body) ++ body

-- addBuffer for each piece that is received.
unfoldable pub receive : List (List ℕ) → NetWorkBuffer → NetWorkBuffer
receive [] b = b
receive (p ∷ ps) b = receive ps (add_buffer p b)

abbrev pub concat : List (List ℕ) → List ℕ
concat [] = []
concat (p ∷ ps) = p ++ concat ps

pub receive-contents :
    (ps : List (List ℕ)) (b : NetWorkBuffer) → contents (receive ps b) ≡ contents b ++ concat ps
unfolding receive
receive-contents [] b = sym (append-nil (contents b))
receive-contents (p ∷ ps) b =
    receive-contents ps (add_buffer p b)
    ∙ ap (λ t. t ++ concat ps) (add_buffer-contents p b)
    ∙ append_assoc (contents b) p (concat ps)

pub receive-IsValid :
    (ps : List (List ℕ)) (b : NetWorkBuffer)
    → All (λ p. length p < 2 ^ 32) ps
    → IsValid b
    → IsValid (receive ps b)
unfolding receive
receive-IsValid [] b h v = v
receive-IsValid (p ∷ ps) b (h, hs) v =
    receive-IsValid ps (add_buffer p b) hs (add_buffer-IsValid p b h v)

pub new-IsValid : IsValid new
unfolding new chunks_bytes
new-IsValid = record { chunks = tt; count = refl }

pub new-contents : contents new ≡ []
unfolding new chunks_bytes
new-contents = refl

left_over : (n k : ℕ) → n + k - n ≡ k
left_over n k = omega arith

accepted :
    (n min_length max_length k : ℕ)
    → n ≤ k
    → min_length ≤ k
    → k ≤ max_length
    → (ltb k (if ltb min_length n then n else min_length) || ltb max_length k) ≡ false
accepted n min_length max_length k h lo hi = ground arith

module _ (n : ℕ) (body : List ℕ) (fits : n + length body < 256 ^ n) where
  len : length (be_bytes n (n + length body)) ≡ n
  len = length-be_bytes n (n + length body)

  pub length-frame : length (frame n body) ≡ n + length body
  unfolding frame
  length-frame = length-append (be_bytes n (n + length body)) body ∙ ap (λ k. k + length body) len

  pub take-frame : (rest : List ℕ) → be_value (take n (frame n body ++ rest)) ≡ n + length body
  unfolding frame
  take-frame rest =
      ap be_value (
        ap₂ take (sym len) (append_assoc (be_bytes n (n + length body)) body rest)
        ∙ take-length_append (be_bytes n (n + length body)) (body ++ rest))
      ∙ be_value-be_bytes n (n + length body) fits

  drop-frame : (rest : List ℕ) → drop n (frame n body ++ rest) ≡ body ++ rest
  unfolding frame
  drop-frame rest =
      ap₂ drop (sym len) (append_assoc (be_bytes n (n + length body)) body rest)
      ∙ drop-length_append (be_bytes n (n + length body)) (body ++ rest)

  parse_bytes-frame :
      (rest : List ℕ) (min_length max_length : ℕ)
      → min_length ≤ n + length body
      → n + length body ≤ max_length
      → parse_bytes n min_length max_length (frame n body ++ rest) ≡ (packet_full, body, rest)
  unfolding parse_bytes
  parse_bytes-frame rest min_length max_length lo hi =
      let all_there : n + length body ≤ length (frame n body ++ rest) =
        omega (arith, length-frame, length-append (frame n body) rest) in
      let last : drop (n + length body) (frame n body ++ rest) ≡ rest =
        ap (λ k. drop k (frame n body ++ rest)) (sym length-frame)
        ∙ drop-length_append (frame n body) rest in
      let middle : take (n + length body - n) (body ++ rest) ≡ body =
        ap (λ k. take k (body ++ rest)) (left_over n (length body))
        ∙ take-length_append body rest in
      rw (
        take-frame rest,
        drop-frame rest,
        le→ltb_false (length (frame n body ++ rest)) n (omega (arith, all_there)),
        accepted n min_length max_length (n + length body) (omega arith) lo hi,
        le→ltb_false (length (frame n body ++ rest)) (n + length body) all_there,
        middle,
        last,
      )

  -- A proper beginning of a packet.
  parse_beginning :
      (bs more : List ℕ) (min_length max_length : ℕ)
      → bs ++ more ≡ frame n body
      → 1 ≤ length more
      → min_length ≤ n + length body
      → n + length body ≤ max_length
      → parse_bytes n min_length max_length bs ≡ (packet_less, [], bs)
  unfolding parse_bytes
  parse_beginning bs more min_length max_length e some_left lo hi =
      elim (Bool-cases (ltb (length bs) n)) [
        | inl t ↦ rw t
        | inr t ↦
            let total : length bs + length more ≡ n + length body =
              sym (length-append bs more) ∙ ap length e ∙ length-frame in
            let value : be_value (take n bs) ≡ n + length body =
              ap be_value (
                sym (take_inside n bs more (ltb_false→le (length bs) n t))
                ∙ ap (take n) (e ∙ sym (append-nil (frame n body))))
              ∙ take-frame [] in
            rw (
              t,
              value,
              accepted n min_length max_length (n + length body) (omega arith) lo hi,
              lt→ltb (length bs) (n + length body) (omega (arith, total)),
            )
      ]

module _ (n min_length max_length : ℕ) (body : List ℕ) where
  -- When the pieces that were received make up a packet within the limits and what follows it,
  -- however they were cut, parseBuffer returns its body and leaves what follows.
  pub parse_buffer-receive :
      (pieces : List (List ℕ)) (rest : List ℕ)
      → All (λ p. length p < 2 ^ 32) pieces
      → n + length body < 256 ^ n
      → min_length ≤ n + length body
      → n + length body ≤ max_length
      → concat pieces ≡ frame n body ++ rest
      → (b' : NetWorkBuffer) × (parse_buffer n min_length max_length (receive pieces new)
          ≡ (packet_full, body, b'))
        × IsValid b'
        × (contents b' ≡ rest)
  parse_buffer-receive pieces rest small fits lo hi e =
      let b = receive pieces new in
      let (b', r, v, c) =
        parse_buffer-parse_bytes n min_length max_length b
          (receive-IsValid pieces new small new-IsValid) in
      let parsed : parse_bytes n min_length max_length (contents b) ≡ (packet_full, body, rest) =
        ap (parse_bytes n min_length max_length)
          (receive-contents pieces new ∙ ap (λ t. t ++ concat pieces) new-contents ∙ e)
        ∙ parse_bytes-frame n body fits rest min_length max_length lo hi in
      (b', r ∙ ap (λ s. (s.0, s.1, b')) parsed, v, c ∙ ap (λ s. s.2) parsed)

  -- As long as a byte of the packet is missing, parseBuffer asks for more, and keeps what it has.
  pub parse_buffer-partial :
      (pieces : List (List ℕ)) (missing : List ℕ)
      → All (λ p. length p < 2 ^ 32) pieces
      → n + length body < 256 ^ n
      → min_length ≤ n + length body
      → n + length body ≤ max_length
      → concat pieces ++ missing ≡ frame n body
      → 1 ≤ length missing
      → (b' : NetWorkBuffer) × (parse_buffer n min_length max_length (receive pieces new)
          ≡ (packet_less, [], b'))
        × IsValid b'
        × (contents b' ≡ concat pieces)
  parse_buffer-partial pieces missing small fits lo hi e some_left =
      let b = receive pieces new in
      let (b', r, v, c) =
        parse_buffer-parse_bytes n min_length max_length b
          (receive-IsValid pieces new small new-IsValid) in
      let parsed : parse_bytes n min_length max_length (contents b)
          ≡ (packet_less, [], concat pieces) =
        ap (parse_bytes n min_length max_length)
          (receive-contents pieces new ∙ ap (λ t. t ++ concat pieces) new-contents)
        ∙ parse_beginning n body fits (concat pieces) missing min_length max_length e some_left lo
            hi in
      (b', r ∙ ap (λ s. (s.0, s.1, b')) parsed, v, c ∙ ap (λ s. s.2) parsed)
