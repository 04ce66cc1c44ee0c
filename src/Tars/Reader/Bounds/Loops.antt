-- ===== src/Tars/Reader/Bounds/Loops.antt =====
-- The loops of the decoder, over a skipField that ends and stays in bounds.
use horse_rpc.Base.{
  ℕ, zero, suc, ◌+◌, ◌^◌, ◌≤◌, ◌<◌, ◌≡◌, refl, true, false, ◌||◌, Option, none, some, List, ltb,
  ◌==◌, length, All, arith,
}
use horse_rpc.Base.Int.{ℤ, pos, to_word-lt}
use horse_rpc.Base.Bytes.{IsByte}
use horse_rpc.Tars.Wire.{head_struct_end}
use horse_rpc.Tars.Reader.{peek_head, head_skip, has_end, read_type, read_head_no_tag}
use horse_rpc.Tars.Reader.Skip.{
  Input, seek_loop, seek, field, read_signed, int64_case, read_int64, read_uint32, repeat,
  skip_to_struct_end, skip_any,
}
use horse_rpc.Tars.Reader.Bounds.{limit, Run, Any, >>=-Run, if-Run, catch-Run}
use horse_rpc.Tars.Reader.Bounds.Primitives.{
  peek_head-Run, read_head_no_tag-Run, read_type-Run, has_end-Run,
}

-- skipField with `fuel` ends within bounds, where the fuel is above the bytes that are left.
abbrev pub Skips : Input → ℕ → Type 0
Skips is fuel =
    (type c : ℕ)
    → c ≤ length is.buf
    → length is.buf < c + fuel
    → Run is.buf c Any (is.skip_value type c)

-- After a field is found, the cursor is not behind the end.
abbrev pub Inside : List ℕ → Option ℕ → ℕ → Type 0
Inside buf none c = Unit
Inside buf (some type) c = c ≤ length buf

module _ (is : Input) (bytes : All IsByte is.buf) (fuel : ℕ) (skips : Skips is fuel) where
  pub seek_loop-Run :
      (tag rounds cur : ℕ)
      → cur ≤ limit is.buf
      → length is.buf ≤ cur + fuel
      → 1 ≤ rounds
      → length is.buf < cur + rounds
      → Run is.buf cur (Inside is.buf) (seek_loop is tag rounds cur)
  unfolding seek_loop head_skip
  seek_loop-Run tag zero cur h f r l = absurd (omega arith)
  seek_loop-Run tag (suc rounds) cur h f r l =
      >>=-Run is.buf (has_end is.buf) _ cur
        (λ over c. (c ≡ cur) × (over ≡ false → cur < length is.buf)) _
        (has_end-Run is.buf bytes cur h)
        (λ over c x y p.
          if-Run is.buf over _ _ c (Inside is.buf) (λ t. (omega arith, y, tt))
            (λ t.
              >>=-Run is.buf (peek_head is.buf) _ c
                (λ h c'. (c' ≡ c) × (1 ≤ h.2) × (c + h.2 ≤ length is.buf)) _
                (peek_head-Run is.buf bytes c y)
                (λ (type, head_tag, len) d x' y' q.
                  if-Run is.buf (type == head_struct_end || ltb tag head_tag) _ _ d (Inside is.buf)
                    (λ u. (omega arith, y', tt))
                    (λ u.
                      if-Run is.buf (tag == head_tag) _ _ d (Inside is.buf)
                        (λ w. (omega arith, omega arith, omega arith))
                        (λ w.
                          >>=-Run is.buf (head_skip is.buf len) _ d (λ _ c'. c' ≡ d + len) _
                            (omega arith, omega arith, refl)
                            (λ _ g x'' y'' s.
                              >>=-Run is.buf (is.skip_value type) _ g Any _
                                (skips type g (omega arith) (omega arith))
                                (λ _ k a b _.
                                  seek_loop-Run tag rounds k b (omega arith) (omega arith)
                                    (omega arith))))))))

  pub seek-Run :
      (tag cur : ℕ)
      → cur ≤ limit is.buf
      → length is.buf ≤ cur + fuel
      → 1 ≤ is.rounds
      → length is.buf < cur + is.rounds
      → Run is.buf cur (Inside is.buf) (seek is tag cur)
  unfolding seek
  seek-Run tag cur h f r l =
      catch-Run is.buf none cur (Inside is.buf) (seek_loop is tag is.rounds cur) (λ c. tt)
        (seek_loop-Run tag is.rounds cur h f r l)

  signed-Run :
      (n c : ℕ) → c ≤ limit is.buf → Run is.buf c (λ v d. d ≤ length is.buf) (read_signed is n c)
  unfolding read_signed
  signed-Run n c h =
      >>=-Run is.buf (read_type is.buf n) _ c (λ v d. (d ≤ length is.buf) × (v < 256 ^ n)) _
        (read_type-Run is.buf bytes n c h) (λ v d x y p. (omega arith, y, p.0))

  int64_case-Run :
      (type c : ℕ)
      → c ≤ length is.buf
      → Run is.buf c (λ v d. d ≤ length is.buf) (int64_case is type c)
  unfolding int64_case
  int64_case-Run type c h = ground (
    arith,
    signed-Run 1 c (omega arith),
    signed-Run 2 c (omega arith),
    signed-Run 4 c (omega arith),
    signed-Run 8 c (omega arith),
  )

  required-Run :
      (found : Option ℕ) (old : ℤ) (c : ℕ)
      → c ≤ limit is.buf
      → Inside is.buf found c
      → Run is.buf c (λ v d. d ≤ length is.buf) (field found (int64_case is) true old c)
  required-Run (some type) old c h i = int64_case-Run type c i
  required-Run none old c h i = (omega arith, h)

  -- A size is a UInt32, and its last byte is in the buffer.
  pub read_uint32-Run :
      (old tag cur : ℕ)
      → cur ≤ limit is.buf
      → length is.buf ≤ cur + fuel
      → 1 ≤ is.rounds
      → length is.buf < cur + is.rounds
      → Run is.buf cur (λ v c. (v < 2 ^ 32) × (c ≤ length is.buf)) (read_uint32 is old tag true cur)
  unfolding read_uint32 read_int64
  read_uint32-Run old tag cur h f r l =
      >>=-Run is.buf (read_int64 is (pos old) tag true) _ cur (λ v d. d ≤ length is.buf) _
        (>>=-Run is.buf (seek is tag) _ cur (Inside is.buf) (λ v d. d ≤ length is.buf)
          (seek-Run tag cur h f r l) (λ found c x y i. required-Run found (pos old) c y i))
        (λ v c x y p. (omega arith, y, (to_word-lt (2 ^ 32) v (omega arith), p)))

  -- skipField(): a head, and its value.
  pub skip_any-Run :
      (cur : ℕ)
      → cur ≤ limit is.buf
      → length is.buf ≤ cur + fuel
      → Run is.buf cur Any (skip_any is cur)
  unfolding skip_any
  skip_any-Run cur h f =
      >>=-Run is.buf (read_head_no_tag is.buf) _ cur (λ _ c. (cur < c) × (c ≤ length is.buf)) _
        (read_head_no_tag-Run is.buf bytes cur h) (λ type c x y p. skips type c p.1 (omega arith))

  pub repeat-Run :
      (n cur : ℕ)
      → cur ≤ limit is.buf
      → length is.buf ≤ cur + fuel
      → Run is.buf cur Any (repeat n (skip_any is) cur)
  unfolding repeat
  repeat-Run zero cur h f = (omega arith, h, tt)
  repeat-Run (suc n) cur h f =
      >>=-Run is.buf (skip_any is) _ cur Any _ (skip_any-Run cur h f)
        (λ _ c x y _. repeat-Run n c y (omega arith))

  pub skip_to_struct_end-Run :
      (rounds cur : ℕ)
      → cur ≤ limit is.buf
      → length is.buf ≤ cur + fuel
      → 1 ≤ rounds
      → length is.buf < cur + rounds
      → Run is.buf cur Any (skip_to_struct_end is rounds cur)
  unfolding skip_to_struct_end
  skip_to_struct_end-Run zero cur h f r l = absurd (omega arith)
  skip_to_struct_end-Run (suc rounds) cur h f r l =
      >>=-Run is.buf (read_head_no_tag is.buf) _ cur (λ _ c. (cur < c) × (c ≤ length is.buf)) _
        (read_head_no_tag-Run is.buf bytes cur h)
        (λ type c x y p.
          >>=-Run is.buf (is.skip_value type) _ c Any _ (skips type c p.1 (omega arith))
            (λ _ d x' y' _.
              if-Run is.buf (type == head_struct_end) _ _ d _ (λ t. (omega arith, y', tt))
                (λ t.
                  skip_to_struct_end-Run rounds d y' (omega arith) (omega arith) (omega arith))))
