-- ===== src/Coroutine/Links.antt =====
-- The links of CoroutineInfo: circular lists through a head, in both directions. A coroutine or a
-- head is an address, and NULL is 0.
pub mod Rings
pub mod Removals
pub mod Moves
use horse_rpc.Base.{ℕ, Bool, ◌==◌, if◌then◌else◌}

-- `_next` and `_prev` at every address.
pub record Links : Type 0 where
  pub next : ℕ → ℕ
  pub prev : ℕ → ℕ

abbrev pub null : ℕ
null = 0

abbrev pub update : (ℕ → ℕ) → ℕ → ℕ → ℕ → ℕ
update f p v a = if a == p then v else f a

abbrev pub set_next : ℕ → ℕ → Links → Links
set_next p v l = record l { next = update l.next p v }

abbrev pub set_prev : ℕ → ℕ → Links → Links
set_prev p v l = record l { prev = update l.prev p v }

-- CoroutineHeadInit
unfoldable pub head_init : ℕ → Links → Links
head_init h l = set_prev h h (set_next h h l)

-- CoroutineHeadEmpty
unfoldable pub head_empty : ℕ → Links → Bool
head_empty h l = l.next h == h

-- __CoroutineAdd
unfoldable pub add_between : ℕ → ℕ → ℕ → Links → Links
add_between c p n l = set_next p c (set_prev c p (set_next c n (set_prev n c l)))

-- CoroutineAdd
unfoldable pub add : ℕ → ℕ → Links → Links
add c h l = add_between c h (l.next h) l

-- CoroutineAddTail
unfoldable pub add_tail : ℕ → ℕ → Links → Links
add_tail c h l = add_between c (l.prev h) h l

-- __CoroutineDel
unfoldable pub del_between : ℕ → ℕ → Links → Links
del_between p n l = set_next p n (set_prev n p l)

-- CoroutineDel
unfoldable pub del : ℕ → Links → Links
del c l = set_prev c null (set_next c null (del_between (l.prev c) (l.next c) l))

-- CoroutineMove and CoroutineMoveTail
unfoldable pub move : ℕ → ℕ → Links → Links
move c h l = add c h (del c l)

unfoldable pub move_tail : ℕ → ℕ → Links → Links
move_tail c h l = add_tail c h (del c l)
