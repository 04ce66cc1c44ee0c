-- ===== src/Queues/LoopQueue/Calls.antt =====
-- The calls of a TC_LoopQueue as values, and the list with a bound that they are compared with.
use horse_rpc.Base.{
  ℕ, Bool, true, false, Option, none, some, List, [], ◌∷◌, ◌++◌, ltb, leb, ◌==◌, ◌+◌, if◌then◌else◌,
  length,
}
use horse_rpc.Queues.LoopQueue.{
  LoopQueue, size, empty, push_back, push_back_all, pop_front, get_front,
}

-- The calls of a TC_LoopQueue, and what they return. `pushed ok was_empty` holds bEmpty.
pub data Operation {ℓ} (A : Type ℓ) : Type ℓ where
  push : A → Operation A
  push_all : List A → Operation A
  pop front count is_empty : Operation A

pub data Output {ℓ} (A : Type ℓ) : Type ℓ where
  pushed : Bool → Bool → Output A
  pushed_all : Bool → Output A
  element : Option A → Output A
  counted : ℕ → Output A
  tested : Bool → Output A

module _ {ℓ} {A : Type ℓ} where
  unfoldable pub perform : Operation A → LoopQueue A → Output A × LoopQueue A
  perform (push t) q = let (ok, was_empty, q') = push_back t q in (pushed ok was_empty, q')
  perform (push_all ts) q = let (ok, q') = push_back_all ts q in (pushed_all ok, q')
  perform pop q = let (t, q') = pop_front q in (element t, q')
  perform front q = (element (get_front q), q)
  perform count q = (counted (size q), q)
  perform is_empty q = (tested (empty q), q)

  unfoldable pub run : List (Operation A) → LoopQueue A → List (Output A)
  run [] q = []
  run (op ∷ ops) q = let (out, q') = perform op q in out ∷ run ops q'

  -- The same calls on a list of at most `bound` elements, oldest first.
  unfoldable pub list_perform : ℕ → Operation A → List A → Output A × List A
  list_perform bound (push t) xs =
      if ltb (length xs) bound
      then (pushed true (length xs == 0), xs ++ t ∷ [])
      else (pushed false false, xs)
  list_perform bound (push_all ts) xs =
      if leb (length xs + length ts) bound
      then (pushed_all true, xs ++ ts)
      else (pushed_all false, xs)
  list_perform bound pop [] = (element none, [])
  list_perform bound pop (x ∷ xs) = (element (some x), xs)
  list_perform bound front [] = (element none, [])
  list_perform bound front (x ∷ xs) = (element (some x), x ∷ xs)
  list_perform bound count xs = (counted (length xs), xs)
  list_perform bound is_empty xs = (tested (length xs == 0), xs)

  unfoldable pub list_run : ℕ → List (Operation A) → List A → List (Output A)
  list_run bound [] xs = []
  list_run bound (op ∷ ops) xs =
      let (out, xs') = list_perform bound op xs in out ∷ list_run bound ops xs'
