-- ===== src/Tars/RoundTrip.antt =====
-- What TarsInputStream::read returns at a field that TarsOutputStream::write wrote.
use horse_rpc.Base.{
  ℕ, suc, ◌+◌, ◌^◌, ◌<◌, ◌≤◌, ◌≡◌, refl, sym, ap, ◌∙◌, Bool, some, List, ◌++◌, length,
  length-append, append_assoc,
}
use horse_rpc.Base.Int.{ℤ, Fits}
use horse_rpc.Tars.Wire.{M, ok}
use horse_rpc.Tars.Reader.Skip.{Input, input, read_int64}
use horse_rpc.Tars.Reader.Fields.{max_string_length, read_string, read_chars}
use horse_rpc.Tars.Reader.At.{At, At-start}
use horse_rpc.Tars.Reader.Ints.{read_int64-At}
use horse_rpc.Tars.Reader.Values.{read_string-At, read_chars-At}
use horse_rpc.Tars.Writer.{Writer, Write, write_int64, write_string, write_chars}
use horse_rpc.Tars.Writer.Appends.{Appends}
use horse_rpc.Tars.Writer.Ints.{write_int64-Appends}
use horse_rpc.Tars.Writer.Fields.{write_string-Appends, write_chars-Appends}

-- A write that appends `bs`, and a read that takes `v` off `bs`.
from_Appends {ℓ} :
    {A : Type ℓ} (write : Write) (bs : List ℕ) (read : Input → M A) (v : A)
    → Appends write bs
    → ((is : Input) (cur rounds : ℕ)
        → is.rounds ≡ suc rounds
        → At is.buf cur bs
        → read is cur ≡ ok v (cur + length bs))
    → (w : Writer) (tail : List ℕ)
    → (w' : Writer) × (write w ≡ some w')
      × (read (input (w'.bytes ++ tail)) (length w.bytes) ≡ ok v (length w'.bytes))
unfolding input
from_Appends write bs read v appends takes w tail =
    let (w', wrote, bytes, _) = appends w in
    (
      w',
      wrote,
      rw (bytes, append_assoc w.bytes bs tail)
          (takes (input (w.bytes ++ (bs ++ tail))) (length w.bytes)
              (length (w.bytes ++ (bs ++ tail))) refl (At-start w.bytes bs tail)
            ∙ ap (ok v) (sym (length-append w.bytes bs))),
    )

-- Every int64_t that is written under a tag is read back under it, and the cursor stops behind it,
-- whatever was written before and whatever follows.
pub read_int64-write_int64 :
    (n old : ℤ) (tag : ℕ) (require : Bool) (w : Writer) (tail : List ℕ)
    → Fits (2 ^ 64) n
    → tag < 256
    → (w' : Writer) × (write_int64 n tag w ≡ some w')
      × (read_int64 (input (w'.bytes ++ tail)) old tag require (length w.bytes)
          ≡ ok n (length w'.bytes))
read_int64-write_int64 n old tag require w tail h hg =
    from_Appends (write_int64 n tag) _ (λ is. read_int64 is old tag require) n
      (write_int64-Appends n tag hg)
      (λ is cur rounds e a. read_int64-At is n old tag cur rounds require e hg a h) w tail

-- A string of at most TARS_MAX_STRING_LENGTH bytes that is written under a tag is read back, in the
-- form with one length byte and in the form with four.
pub read_string-write_string :
    (s old : List ℕ) (tag : ℕ) (require : Bool) (w : Writer) (tail : List ℕ)
    → length s ≤ max_string_length
    → tag < 256
    → (w' : Writer) × (write_string s tag w ≡ some w')
      × (read_string (input (w'.bytes ++ tail)) old tag require (length w.bytes)
          ≡ ok s (length w'.bytes))
read_string-write_string s old tag require w tail h hg =
    from_Appends (write_string s tag) _ (λ is. read_string is old tag require) s
      (write_string-Appends s tag h hg)
      (λ is cur rounds e a. read_string-At is rounds e s old tag cur require h hg a) w tail

-- A vector of at most 2^31 - 1 Chars is read back.
pub read_chars-write_chars :
    (v old : List ℕ) (tag : ℕ) (require : Bool) (w : Writer) (tail : List ℕ)
    → length v < 2 ^ 31
    → tag < 256
    → (w' : Writer) × (write_chars v tag w ≡ some w')
      × (read_chars (input (w'.bytes ++ tail)) old tag require (length w.bytes)
          ≡ ok v (length w'.bytes))
read_chars-write_chars v old tag require w tail h hg =
    from_Appends (write_chars v tag) _ (λ is. read_chars is old tag require) v
      (write_chars-Appends v tag h hg)
      (λ is cur rounds e a. read_chars-At is rounds e v old tag cur require h hg a) w tail
