-- ===== src/Tars/Reader/Bounds/SkipField.antt =====
-- skipField with enough fuel ends, and leaves the cursor within the limit.
use horse_rpc.Base.{
  ℕ, zero, suc, ◌+◌, ◌*◌, ◌^◌, ◌%◌, ◌≤◌, ◌<◌, true, List, Option, none, ◌==◌, length, All, arith,
}
use horse_rpc.Base.Bytes.{IsByte}
use horse_rpc.Tars.Wire.{Result, ok, err, stuck, catch, head_char}
use horse_rpc.Tars.Reader.{head_skip, read_type, read_head}
use horse_rpc.Tars.Reader.Skip.{
  Input, read_uint32, skip_string1, skip_string4, skip_map, skip_list, skip_simple_list, skip_case,
  skip_field, input, seek,
}
use horse_rpc.Tars.Reader.Bounds.{limit, Run, Any, >>=-Run, if-Run}
use horse_rpc.Tars.Reader.Bounds.Primitives.{read_type-Run, read_head-Run}
use horse_rpc.Tars.Reader.Bounds.Loops.{
  Skips, Inside, seek-Run, read_uint32-Run, repeat-Run, skip_to_struct_end-Run,
}

module _ (is : Input) (bytes : All IsByte is.buf) (fuel : ℕ) (skips : Skips is fuel) (cur : ℕ)
    (inside : cur ≤ length is.buf) (enough : length is.buf ≤ cur + fuel)
    (some_round : 1 ≤ is.rounds) (rounds_enough : length is.buf < cur + is.rounds) where
  string1-Run : Run is.buf cur Any (skip_string1 is cur)
  unfolding skip_string1 head_skip
  string1-Run =
      >>=-Run is.buf (read_type is.buf 1) _ cur (λ v c. (c ≤ length is.buf) × (v < 256 ^ 1)) _
        (read_type-Run is.buf bytes 1 cur (omega arith))
        (λ v c x y p. (omega arith, omega arith, tt))

  string4-Run : Run is.buf cur Any (skip_string4 is cur)
  unfolding skip_string4 head_skip
  string4-Run =
      >>=-Run is.buf (read_type is.buf 4) _ cur (λ v c. (c ≤ length is.buf) × (v < 256 ^ 4)) _
        (read_type-Run is.buf bytes 4 cur (omega arith))
        (λ v c x y p. (omega arith, omega arith, tt))

  size-Run :
      Run is.buf cur (λ v c. (v < 2 ^ 32) × (c ≤ length is.buf)) (read_uint32 is 0 0 true cur)
  size-Run =
      read_uint32-Run is bytes fuel skips 0 0 cur (omega arith) enough some_round rounds_enough

  map-Run : Run is.buf cur Any (skip_map is cur)
  unfolding skip_map
  map-Run =
      >>=-Run is.buf (read_uint32 is 0 0 true) _ cur (λ v c. (v < 2 ^ 32) × (c ≤ length is.buf)) _
        size-Run
        (λ size c x y p. repeat-Run is bytes fuel skips (size * 2 % 2 ^ 32) c y (omega arith))

  list-Run : Run is.buf cur Any (skip_list is cur)
  unfolding skip_list
  list-Run =
      >>=-Run is.buf (read_uint32 is 0 0 true) _ cur (λ v c. (v < 2 ^ 32) × (c ≤ length is.buf)) _
        size-Run (λ size c x y p. repeat-Run is bytes fuel skips size c y (omega arith))

  simple_list-Run : Run is.buf cur Any (skip_simple_list is cur)
  unfolding skip_simple_list head_skip
  simple_list-Run =
      >>=-Run is.buf (read_head is.buf) _ cur (λ _ c. (cur < c) × (c ≤ length is.buf)) _
        (read_head-Run is.buf bytes cur (omega arith))
        (λ (type, tag) c x y p.
          if-Run is.buf (type == head_char) _ _ c Any
            (λ t.
              >>=-Run is.buf (read_uint32 is 0 0 true) _ c
                (λ v d. (v < 2 ^ 32) × (d ≤ length is.buf)) _
                (read_uint32-Run is bytes fuel skips 0 0 c y (omega arith) some_round (omega arith))
                (λ size d x' y' q. (omega arith, omega arith, tt)))
            (λ t. (omega arith, y)))

  case-Run : (type : ℕ) → Run is.buf cur Any (skip_case is type cur)
  unfolding skip_case head_skip
  case-Run type = ground (
    arith,
    string1-Run,
    string4-Run,
    map-Run,
    list-Run,
    simple_list-Run,
    skip_to_struct_end-Run is bytes fuel skips is.rounds cur (omega arith) enough some_round
        rounds_enough,
  )

-- Fuel above the bytes that are left.
pub skip_field-Run :
    (buf : List ℕ)
    → All IsByte buf
    → (fuel type cur : ℕ) → cur ≤ length buf
    → length buf < cur + fuel
    → Run buf cur Any (skip_field buf fuel type cur)
unfolding skip_field
skip_field-Run buf bytes zero type cur h f = absurd (omega arith)
skip_field-Run buf bytes (suc fuel) type cur h f =
    case-Run (record { buf = buf; skip_value = λ t c. skip_field buf fuel t c; rounds = suc fuel })
      bytes fuel (λ t c. skip_field-Run buf bytes fuel t c) cur h (omega arith) (omega arith)
      (omega arith) type

-- The stream over a whole buffer is never stuck: skipField(type) at a cursor in the buffer returns
-- or throws, with the cursor not before its start and at most 2^32 bytes behind the end.
pub skip_value-total :
    (buf : List ℕ) (type cur : ℕ)
    → All IsByte buf
    → cur ≤ length buf
    → Run buf cur Any ((input buf).skip_value type cur)
unfolding input
skip_value-total buf type cur bytes h =
    skip_field-Run buf bytes (suc (length buf)) type cur h (omega arith)

-- The search came to an end without an exception, with the cursor not before its start and within
-- the limit, and, when it found the field, inside of the buffer.
abbrev pub Sought : List ℕ → ℕ → Result (Option ℕ) → Type 0
Sought buf cur (ok found c) = (cur ≤ c) × (c ≤ limit buf) × Inside buf found c
Sought buf cur (err e c) = ⊥
Sought buf cur stuck = ⊥

catch-Sought :
    (buf : List ℕ) (cur : ℕ) (r : Result (Option ℕ))
    → Run buf cur (Inside buf) (catch none r)
    → Sought buf cur (catch none r)
catch-Sought buf cur (ok found c) h = h
catch-Sought buf cur (err e c) h = h
catch-Sought buf cur stuck h = h

-- TarsSkipToTag, at any cursor that the decoder can reach, ends and never throws: it finds the
-- field, with the cursor inside of the buffer, or reports it absent, with the cursor within the
-- limit.
pub seek-total :
    (buf : List ℕ) (tag cur : ℕ)
    → All IsByte buf
    → cur ≤ limit buf
    → Sought buf cur (seek (input buf) tag cur)
unfolding input seek
seek-total buf tag cur bytes h = catch-Sought buf cur _ (
    seek-Run (input buf) bytes (suc (length buf)) (λ t c h' f. skip_value-total buf t c bytes h')
      tag cur h (omega arith) (omega arith) (omega arith))
