-- ===== src/Net/Buffer/Frames.antt =====
-- parseBuffer on the contents of a TC_NetWorkBuffer: which bytes make up a packet does not depend
-- on the chunks in which they came.
use horse_rpc.Base.{
  ℕ, ◌+◌, ◌-◌, ◌≤◌, ◌≡◌, refl, ap, ap₂, sym, ◌∙◌, Bool, true, false, ◌||◌, some, List, [], ltb,
  if◌then◌else◌, length, take, drop, drop-drop, length-drop, arith, ltb_false→le, le→ltb_false,
  subst,
}
use horse_rpc.Base.Bytes.{be_value}
use horse_rpc.Net.Buffer.{
  NetWorkBuffer, PacketType, packet_less, packet_full, packet_err, get_header, get_value,
  move_header, parse_body, parse_buffer,
}
use horse_rpc.Net.Buffer.Contents.{contents, IsValid}
use horse_rpc.Net.Buffer.Header.{get_header-take, move_header-drop}

-- A stream of bytes, parsed without a buffer.
unfoldable pub parse_bytes : ℕ → ℕ → ℕ → List ℕ → PacketType × List ℕ × List ℕ
parse_bytes n min_length max_length bs =
    let least = if ltb min_length n then n else min_length in
    let len = be_value (take n bs) in
    if ltb (length bs) n
    then (packet_less, [], bs)
    else if ltb len least || ltb max_length len
    then (packet_err, [], bs)
    else if ltb (length bs) len
    then (packet_less, [], bs)
    else (packet_full, take (len - n) (drop n bs), drop len bs)

Parsed : PacketType × List ℕ × NetWorkBuffer → PacketType × List ℕ × List ℕ → Type 0
Parsed r s = (r.0 ≡ s.0) × (r.1 ≡ s.1) × IsValid r.2 × (contents r.2 ≡ s.2)

-- The same test on both sides.
if-Parsed :
    (b c : Bool) (x y : PacketType × List ℕ × NetWorkBuffer) (x' y' : PacketType × List ℕ × List ℕ)
    → b ≡ c
    → (c ≡ true → Parsed x x')
    → (c ≡ false → Parsed y y')
    → Parsed (if b then x else y) (if c then x' else y')
if-Parsed b true x y x' y' e h k = rw e (h refl)
if-Parsed b false x y x' y' e h k = rw e (k refl)

same : (t : PacketType) (b : NetWorkBuffer) → IsValid b → Parsed (t, [], b) (t, [], contents b)
unfolding Parsed
same t b v = (refl, refl, v, refl)

drop_same : (m n : ℕ) (xs : List ℕ) → m ≡ n → drop m xs ≡ drop n xs
drop_same m n xs e = ap (λ k. drop k xs) e

-- A length that is not refused counts the bytes that hold it.
header_counts :
    (n min_length max_length len : ℕ)
    → (ltb len (if ltb min_length n then n else min_length) || ltb max_length len) ≡ false
    → n ≤ len
header_counts n min_length max_length len h = ground arith

module _ (b : NetWorkBuffer) (v : IsValid b) where
  header : (n : ℕ) → n ≤ length (contents b) → get_header n b ≡ some (take n (contents b))
  header n h = get_header-take n b v ∙ rw (le→ltb_false (length (contents b)) n h) refl

  pub get_value-take :
      (n : ℕ) → n ≤ length (contents b) → get_value n b ≡ be_value (take n (contents b))
  unfolding get_value
  get_value-take n h = rw (get_value, header n h)

  parse_body-Parsed :
      (n : ℕ)
      → n ≤ length (contents b)
      → Parsed (parse_body n b) (packet_full, take n (contents b), drop n (contents b))
  unfolding parse_body Parsed
  parse_body-Parsed n h =
      let (b', e, w, c) = move_header-drop n b v h in
      rw (parse_body, header n h, e) (refl, refl, w, c)

full-Parsed :
    (b : NetWorkBuffer) (n len : ℕ)
    → IsValid b
    → n ≤ len
    → len ≤ length (contents b)
    → Parsed
        (parse_body (len - n) (move_header n b).1)
        (packet_full, take (len - n) (drop n (contents b)), drop len (contents b))
full-Parsed b n len v h k =
    let (b', e, w, c) = move_header-drop n b v (omega arith) in
    let behind : drop (len - n) (drop n (contents b)) ≡ drop len (contents b) =
      sym (drop-drop n (len - n) (contents b))
      ∙ drop_same (n + (len - n)) len (contents b) (omega arith) in
    rw e (
      subst (Parsed (parse_body (len - n) b'))
        (ap (λ t. (packet_full, take (len - n) t, drop (len - n) t)) c
          ∙ ap (λ t. (packet_full, take (len - n) (drop n (contents b)), t)) behind)
        (parse_body-Parsed b' w (len - n) (omega (arith, ap length c, length-drop n (contents b)))))

parse-Parsed :
    (n min_length max_length : ℕ) (b : NetWorkBuffer)
    → IsValid b
    → Parsed
        (parse_buffer n min_length max_length b)
        (parse_bytes n min_length max_length (contents b))
unfolding parse_buffer parse_bytes
parse-Parsed n min_length max_length b v =
    let least = if ltb min_length n then n else min_length in
    let len = be_value (take n (contents b)) in
    let total = length (contents b) in
    if-Parsed (ltb b.buffer_length n) (ltb total n) _ _ _ _ (ap (λ k. ltb k n) v.count)
      (λ t. same packet_less b v)
      (λ t.
        let got = get_value-take b v n (ltb_false→le total n t) in
        if-Parsed (ltb (get_value n b) least || ltb max_length (get_value n b))
          (ltb len least || ltb max_length len) _ _ _ _
          (ap (λ k. ltb k least || ltb max_length k) got) (λ u. same packet_err b v)
          (λ u.
            if-Parsed (ltb b.buffer_length (get_value n b)) (ltb total len) _ _ _ _
              (ap₂ ltb v.count got) (λ w. same packet_less b v)
              (λ w. rw got (
                full-Parsed b n len v (header_counts n min_length max_length len u)
                  (ltb_false→le total len w)))))

-- parseBuffer agrees with the parse of the bytes, on every branch, and keeps the buffer valid.
pub parse_buffer-parse_bytes :
    (n min_length max_length : ℕ) (b : NetWorkBuffer)
    → IsValid b
    → (b' : NetWorkBuffer) × (parse_buffer n min_length max_length b ≡ (
      (parse_bytes n min_length max_length (contents b)).0,
      (parse_bytes n min_length max_length (contents b)).1,
      b',
    ))
      × IsValid b'
      × (contents b' ≡ (parse_bytes n min_length max_length (contents b)).2)
unfolding Parsed
parse_buffer-parse_bytes n min_length max_length b v =
    let (t, p, w, c) = parse-Parsed n min_length max_length b v in
    let r = parse_buffer n min_length max_length b in (r.2, ap₂ (λ x y. (x, y, r.2)) t p, w, c)
