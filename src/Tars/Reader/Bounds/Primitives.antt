-- ===== src/Tars/Reader/Bounds/Primitives.antt =====
-- The macros that peek and read: what they return on success, and where the cursor stands.
use horse_rpc.Base.{
  ℕ, zero, suc, ◌+◌, ◌*◌, ◌/◌, ◌^◌, ◌≤◌, ◌<◌, ◌≡◌, refl, ap, false, inl, inr, List, [], ◌∷◌, ltb,
  ◌==◌, length, take, drop, length-take, length-drop, All, arith, Bool-cases,
}
use native.Mathlib.Nat.{pow-suc}
use horse_rpc.Base.Bytes.{be_value, be_from, IsByte}
use horse_rpc.Tars.Wire.{◌>>◌}
use horse_rpc.Tars.Reader.{
  peek_buf, peek_u8, head_skip, read_type, peek_head, read_head, read_head_no_tag, has_end,
}
use horse_rpc.Tars.Reader.Bounds.{limit, Run, >>=-Run, if-Run}

All-take : (n : ℕ) (xs : List ℕ) → All IsByte xs → All IsByte (take n xs)
All-take zero xs h = tt
All-take (suc n) [] h = tt
All-take (suc n) (x ∷ xs) h = (h.0, All-take n xs h.1)

All-drop : (n : ℕ) (xs : List ℕ) → All IsByte xs → All IsByte (drop n xs)
All-drop zero xs h = h
All-drop (suc n) [] h = tt
All-drop (suc n) (x ∷ xs) h = All-drop n xs h.1

scale : (a b p : ℕ) → a ≤ b → a * p ≤ b * p
scale a b p h = grind arith

be_from-lt : (acc : ℕ) (bs : List ℕ) → All IsByte bs → be_from acc bs < (acc + 1) * 256 ^ length bs
unfolding be_from
be_from-lt acc [] h = omega arith
be_from-lt acc (b ∷ bs) h = omega (
  arith,
  be_from-lt (acc * 256 + b) bs h.1,
  scale (acc * 256 + b + 1) ((acc + 1) * 256) (256 ^ length bs) (omega arith),
  ap (λ (t : ℕ). (acc + 1) * t) (pow-suc 256 (length bs)),
)

module _ (buf : List ℕ) (bytes : All IsByte buf) where
  -- What a peek of `n` bytes returns.
  abbrev pub Peeked : ℕ → ℕ → ℕ → List ℕ → ℕ → Type 0
  Peeked n offset cur bs c =
      (c ≡ cur) × (cur + offset + n ≤ length buf) × (length bs ≡ n) × All IsByte bs

  pub peek_buf-Run :
      (n offset cur : ℕ)
      → cur ≤ limit buf
      → Run buf cur (Peeked n offset cur) (peek_buf buf n offset cur)
  unfolding peek_buf
  peek_buf-Run n offset cur h = ground (
    arith,
    length-take n (drop (cur + offset) buf),
    length-drop (cur + offset) buf,
    All-take n (drop (cur + offset) buf) (All-drop (cur + offset) buf bytes),
  )

  be_value-lt : (n : ℕ) (bs : List ℕ) → length bs ≡ n → All IsByte bs → be_value bs < 256 ^ n
  unfolding be_value
  be_value-lt n bs e h = rw (← e) (omega (arith, be_from-lt 0 bs h))

  pub peek_u8-Run :
      (offset cur : ℕ)
      → cur ≤ limit buf
      → Run buf cur
          (λ b c. (c ≡ cur) × (cur + offset < length buf) × (b < 256))
          (peek_u8 buf offset cur)
  unfolding peek_u8
  peek_u8-Run offset cur h =
      >>=-Run buf (peek_buf buf 1 offset) _ cur (Peeked 1 offset cur) _
        (peek_buf-Run 1 offset cur h)
        (λ bs c x y p.
          (omega arith, y, (omega arith, omega arith, omega (arith, be_value-lt 1 bs p.2 p.3))))

  -- A head is one or two bytes, all of them in the buffer.
  pub peek_head-Run :
      (cur : ℕ)
      → cur ≤ limit buf
      → Run buf cur (λ h c. (c ≡ cur) × (1 ≤ h.2) × (cur + h.2 ≤ length buf)) (peek_head buf cur)
  unfolding peek_head
  peek_head-Run cur h =
      >>=-Run buf (peek_u8 buf 0) _ cur (λ b c. (c ≡ cur) × (cur + 0 < length buf) × (b < 256)) _
        (peek_u8-Run 0 cur h)
        (λ b c x y p.
          if-Run buf (b / 16 == 15) _ _ c _
            (λ t.
              >>=-Run buf (peek_u8 buf 1) _ c
                (λ b' c'. (c' ≡ c) × (c + 1 < length buf) × (b' < 256)) _ (peek_u8-Run 1 c y)
                (λ tag d x' y' p'. omega arith))
            (λ t. omega arith))

  pub read_head-Run :
      (cur : ℕ)
      → cur ≤ limit buf
      → Run buf cur (λ h c. (cur < c) × (c ≤ length buf)) (read_head buf cur)
  unfolding read_head head_skip
  read_head-Run cur h =
      >>=-Run buf (peek_head buf) _ cur (λ h c. (c ≡ cur) × (1 ≤ h.2) × (cur + h.2 ≤ length buf)) _
        (peek_head-Run cur h) (λ h c x y p. omega arith)

  -- Reading a head takes a byte at least, and stays in the buffer.
  pub read_head_no_tag-Run :
      (cur : ℕ)
      → cur ≤ limit buf
      → Run buf cur (λ h c. (cur < c) × (c ≤ length buf)) (read_head_no_tag buf cur)
  unfolding read_head_no_tag head_skip
  read_head_no_tag-Run cur h =
      >>=-Run buf (peek_u8 buf 0) _ cur (λ b c. (c ≡ cur) × (cur + 0 < length buf) × (b < 256)) _
        (peek_u8-Run 0 cur h)
        (λ b c x y p.
          if-Run buf (b / 16 == 15) _ _ c (λ h c'. (cur < c') × (c' ≤ length buf))
            (λ t.
              >>=-Run buf (peek_buf buf 1 1 >> head_skip buf 2) _ c
                (λ h c'. (cur < c') × (c' ≤ length buf)) _
                (>>=-Run buf (peek_buf buf 1 1) _ c (Peeked 1 1 c)
                  (λ h c'. (cur < c') × (c' ≤ length buf)) (peek_buf-Run 1 1 c y)
                  (λ bs d x' y' p'. omega arith))
                (λ _ d x' y' p'. (omega arith, y', p')))
            (λ t. omega arith))

  -- A number of `n` bytes is below 256 ^ n, and its bytes are in the buffer.
  pub read_type-Run :
      (n cur : ℕ)
      → cur ≤ limit buf
      → Run buf cur (λ v c. (c ≤ length buf) × (v < 256 ^ n)) (read_type buf n cur)
  unfolding read_type head_skip
  read_type-Run n cur h =
      >>=-Run buf (peek_buf buf n 0) _ cur (Peeked n 0 cur) _ (peek_buf-Run n 0 cur h)
        (λ bs c x y p. (omega arith, omega arith, (omega arith, be_value-lt n bs p.2 p.3)))

  pub has_end-Run :
      (cur : ℕ)
      → cur ≤ limit buf
      → Run buf cur (λ over c. (c ≡ cur) × (over ≡ false → cur < length buf)) (has_end buf cur)
  unfolding has_end
  has_end-Run cur h = elim (Bool-cases (ltb (length buf) cur)) [
    | inl e ↦ rw e (omega arith)
    | inr e ↦ rw e (omega arith, h, (refl, λ f. ground arith))
  ]
