-- ===== src/Net/Tests.antt =====
-- Runs of the network buffer on small inputs.
use horse_rpc.Base.{ℕ, ◌≡◌, refl, List, [], ◌∷◌, ◌++◌, arith}
use horse_rpc.Base.Bytes.{be_bytes}
use horse_rpc.Net.Buffer.{chunk_bytes, NetWorkBuffer, packet_less, packet_full, parse_buffer, new}
use horse_rpc.Net.Buffer.Contents.{contents, chunks_bytes, IsValid}
use horse_rpc.Net.Buffer.Frames.{parse_bytes, parse_buffer-parse_bytes}
use horse_rpc.Net.Buffer.Streams.{
  frame, receive, concat, parse_buffer-receive, parse_buffer-partial,
}

abbrev body : List ℕ
body = 7 ∷ 8 ∷ 9 ∷ []

-- A packet of seven bytes, cut behind the second and the fifth, and a byte of the next one.
abbrev pieces : List (List ℕ)
pieces = (0 ∷ 0 ∷ []) ∷ (0 ∷ 7 ∷ 7 ∷ []) ∷ (8 ∷ 9 ∷ 0 ∷ []) ∷ []

pieces-frame : concat pieces ≡ frame 4 body ++ 0 ∷ []
unfolding frame be_bytes
pieces-frame = refl

abbrev first_pieces : List (List ℕ)
first_pieces = (0 ∷ 0 ∷ []) ∷ (0 ∷ 7 ∷ 7 ∷ []) ∷ []

first_pieces-frame : concat first_pieces ++ 8 ∷ 9 ∷ [] ≡ frame 4 body
unfolding frame be_bytes
first_pieces-frame = refl

parse_buffer-receive_example :
    (b' : NetWorkBuffer) × (parse_buffer 4 4 1000 (receive pieces new) ≡ (packet_full, body, b'))
    × IsValid b'
    × (contents b' ≡ 0 ∷ [])
parse_buffer-receive_example =
    parse_buffer-receive 4 4 1000 body pieces (0 ∷ []) (omega arith) (omega arith) (omega arith)
      (omega arith) pieces-frame

parse_buffer-partial_example :
    (b' : NetWorkBuffer) × (parse_buffer 4 4 1000 (receive first_pieces new)
      ≡ (packet_less, [], b'))
    × IsValid b'
    × (contents b' ≡ concat first_pieces)
parse_buffer-partial_example =
    parse_buffer-partial 4 4 1000 body first_pieces (8 ∷ 9 ∷ []) (omega arith) (omega arith)
      (omega arith) (omega arith) first_pieces-frame (omega arith)

-- One chunk, of which the first byte has been read.
abbrev read_on : NetWorkBuffer
read_on = record {
  buffer_list = record { buffer = 1 ∷ 3 ∷ 5 ∷ 6 ∷ []; pos = 1 } ∷ [];
  buffer_length = 3;
}

read_on-IsValid : IsValid read_on
unfolding chunks_bytes chunk_bytes
read_on-IsValid = record { chunks = (omega arith, tt); count = refl }

parse_buffer-parse_bytes_example :
    (b' : NetWorkBuffer) × (parse_buffer 1 1 9 read_on
      ≡ ((parse_bytes 1 1 9 (contents read_on)).0, (parse_bytes 1 1 9 (contents read_on)).1, b'))
    × IsValid b'
    × (contents b' ≡ (parse_bytes 1 1 9 (contents read_on)).2)
parse_buffer-parse_bytes_example = parse_buffer-parse_bytes 1 1 9 read_on read_on-IsValid
