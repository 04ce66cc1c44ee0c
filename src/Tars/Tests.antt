-- ===== src/Tars/Tests.antt =====
-- Runs of the wire format on small inputs.
use horse_rpc.Base.{ℕ, ◌≡◌, refl, true, false, some, List, [], ◌∷◌, ◌++◌, length, arith, All}
use horse_rpc.Base.Int.{pos, negsuc, of_word, to_word}
use horse_rpc.Base.Bytes.{IsByte, be_bytes}
use horse_rpc.Tars.Wire.{ok, head_string1}
use horse_rpc.Tars.Reader.Skip.{input, seek, read_int64}
use horse_rpc.Tars.Reader.Fields.{read_string, read_chars}
use horse_rpc.Tars.Reader.Bounds.{Run, Any}
use horse_rpc.Tars.Reader.Bounds.SkipField.{Sought, seek-total, skip_value-total}
use horse_rpc.Tars.Writer.{
  Writer, reserve, write_buf, write_type, write_head, write_int64, write_int32, write_short,
  write_char, write_string, write_chars,
}
use horse_rpc.Tars.RoundTrip.{
  read_int64-write_int64, read_string-write_string, read_chars-write_chars,
}

abbrev empty_writer : Writer
empty_writer = record { bytes = []; buf_len = 0 }

-- A writer that holds the field 7 under tag 1.
abbrev used_writer : Writer
used_writer = record { bytes = 16 ∷ 7 ∷ []; buf_len = 128 }

-- A string of two bytes under tag 0, and a Char under tag 3.
abbrev two_fields : List ℕ
two_fields = 6 ∷ 2 ∷ 104 ∷ 105 ∷ 48 ∷ 9 ∷ []

abbrev two_fields-bytes : All IsByte two_fields
two_fields-bytes = omega arith

int32_run :
    write_int64 (negsuc 299) 20 empty_writer
    ≡ some (record { bytes = 241 ∷ 20 ∷ 254 ∷ 212 ∷ []; buf_len = 128 })
unfolding write_int64 write_int32 write_short write_char write_head write_type write_buf reserve
    be_bytes of_word to_word
int32_run = refl

read_int64-write_int64_example :
    (w' : Writer) × (write_int64 (negsuc 299) 20 used_writer ≡ some w')
    × (read_int64 (input (w'.bytes ++ 48 ∷ 1 ∷ [])) (pos 0) 20 true 2
        ≡ ok (negsuc 299) (length w'.bytes))
read_int64-write_int64_example =
    read_int64-write_int64 (negsuc 299) (pos 0) 20 true used_writer (48 ∷ 1 ∷ []) (omega arith)
      (omega arith)

read_string-write_string_example :
    (w' : Writer) × (write_string (104 ∷ 105 ∷ []) 4 used_writer ≡ some w')
    × (read_string (input (w'.bytes ++ [])) [] 4 false 2 ≡ ok (104 ∷ 105 ∷ []) (length w'.bytes))
read_string-write_string_example =
    read_string-write_string (104 ∷ 105 ∷ []) [] 4 false used_writer [] (omega arith) (omega arith)

read_chars-write_chars_example :
    (w' : Writer) × (write_chars (0 ∷ 255 ∷ []) 7 used_writer ≡ some w')
    × (read_chars (input (w'.bytes ++ 5 ∷ [])) [] 7 true 2 ≡ ok (0 ∷ 255 ∷ []) (length w'.bytes))
read_chars-write_chars_example =
    read_chars-write_chars (0 ∷ 255 ∷ []) [] 7 true used_writer (5 ∷ []) (omega arith) (omega arith)

seek-total_example : Sought two_fields 0 (seek (input two_fields) 3 0)
seek-total_example = seek-total two_fields 3 0 two_fields-bytes (omega arith)

skip_value-total_example : Run two_fields 1 Any ((input two_fields).skip_value head_string1 1)
skip_value-total_example = skip_value-total two_fields head_string1 1 two_fields-bytes (omega arith)
