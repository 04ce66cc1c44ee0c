-- ===== src/Tars/Reader/Absent.antt =====
-- TarsSkipToTag where the field that it looks for is not there.
use horse_rpc.Base.{ℕ, suc, ◌<◌, ◌≡◌, ap, ◌∙◌, true, none, List, length, arith}
use horse_rpc.Tars.Wire.{ok, catch, >>=_ok}
use horse_rpc.Tars.Layout.{head_bytes}
use horse_rpc.Tars.Reader.{peek_head, has_end}
use horse_rpc.Tars.Reader.Skip.{Input, seek, seek_loop}
use horse_rpc.Tars.Reader.At.{At, At-length, peek_head-At, has_end-At, length-head_bytes_pos}

has_end_at_end : (buf : List ℕ) (cur : ℕ) → cur ≡ length buf → has_end buf cur ≡ ok true cur
unfolding has_end
has_end_at_end buf cur h = ground arith

seek_from_loop :
    (is : Input) (tag cur rounds : ℕ)
    → is.rounds ≡ suc rounds
    → seek_loop is tag (suc rounds) cur ≡ ok none cur
    → seek is tag cur ≡ ok none cur
unfolding seek
seek_from_loop is tag cur rounds e h =
    ap (λ n. catch none (seek_loop is tag n cur)) e ∙ ap (catch none) h

-- At the end of the buffer.
pub seek_at_end :
    (is : Input) (tag cur rounds : ℕ)
    → is.rounds ≡ suc rounds
    → cur ≡ length is.buf
    → seek is tag cur ≡ ok none cur
unfolding seek_loop
seek_at_end is tag cur rounds e h =
    seek_from_loop is tag cur rounds e (>>=_ok (has_end is.buf) _ (has_end_at_end is.buf cur h))

-- Before the head of a greater tag.
pub seek_before_greater :
    (is : Input) (tag next type cur rounds : ℕ)
    → is.rounds ≡ suc rounds
    → type < 16
    → next < 256
    → tag < next
    → At is.buf cur (head_bytes type next)
    → seek is tag cur ≡ ok none cur
unfolding seek_loop
seek_before_greater is tag next type cur rounds e ht hn lt a = seek_from_loop is tag cur rounds e (
    >>=_ok (has_end is.buf) _
      (has_end-At is.buf cur (omega (arith, At-length a, length-head_bytes_pos type next)))
    ∙ >>=_ok (peek_head is.buf) _ (peek_head-At type next cur ht hn a)
    ∙ ground arith)
