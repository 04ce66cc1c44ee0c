-- ===== src/Protocol/Requests.antt =====
-- A request on its way to the server: tarsRequest, AppProtocol::parse and readFrom.
use horse_rpc.Base.{
  ℕ, ◌+◌, ◌^◌, ◌≤◌, ◌<◌, ◌≡◌, refl, sym, ap, ap₂, ◌∙◌, some, List, [], ◌++◌, length, drop,
  length-append, append-nil, drop-length_append, All, arith, le→ltb_false,
}
use native.Mathlib.Nat.{mod-eq_of_lt}
use horse_rpc.Base.Bytes.{be_bytes, length-be_bytes}
use horse_rpc.Tars.Wire.{ok}
use horse_rpc.Tars.Reader.Skip.{input}
use horse_rpc.Tars.Reader.At.{At}
use horse_rpc.Tars.Writer.{Write, write_buf}
use horse_rpc.Tars.Writer.Appends.{Appends, >>-Appends, write_buf-Appends}
use horse_rpc.Packet.Request.{RequestPacket, write_to, read_from}
use horse_rpc.Packet.Request.RoundTrip.{
  IsPacket, packet_bytes, write_to-Appends, read_from-Takes, length-packet_bytes_pos,
}
use horse_rpc.Net.Buffer.{NetWorkBuffer, packet_full, new}
use horse_rpc.Net.Buffer.Contents.{contents, IsValid}
use horse_rpc.Net.Buffer.Streams.{frame, receive, concat, parse_buffer-receive}
use horse_rpc.Protocol.Frame.{
  min_package_size, max_package_size, empty_writer, framed, tars_request, parse,
}

-- The four bytes that were reserved hold the length in the end.
pub framed-frame :
    (packet : Write) (bytes : List ℕ)
    → Appends packet bytes
    → 4 + length bytes < 2 ^ 32
    → framed packet ≡ some (frame 4 bytes)
unfolding framed frame write_buf be_bytes
framed-frame packet bytes h small =
    let (w, e, b, _) =
      >>-Appends (write_buf (be_bytes 4 0)) packet (be_bytes 4 0) bytes
        (write_buf-Appends (be_bytes 4 0)) h empty_writer in
    let total : length w.bytes ≡ 4 + length bytes =
      ap length b
      ∙ length-append (be_bytes 4 0) bytes
      ∙ ap (λ k. k + length bytes) (length-be_bytes 4 0) in
    let behind : drop 4 w.bytes ≡ bytes =
      ap₂ drop (sym (length-be_bytes 4 0)) b ∙ drop-length_append (be_bytes 4 0) bytes in
    rw
      (e, le→ltb_false (length w.bytes) 4 (omega (arith, total)), total, behind, mod-eq_of_lt small)

-- A packet that fits a package is its bytes behind their length, on the way out.
pub tars_request-frame :
    (p : RequestPacket)
    → IsPacket p
    → 4 + length (packet_bytes p) ≤ max_package_size
    → tars_request p ≡ some (frame 4 (packet_bytes p))
unfolding tars_request
tars_request-frame p v small =
    framed-frame (write_to p) (packet_bytes p) (write_to-Appends p v) (omega arith)

-- All bytes of a buffer.
pub At-whole : (bytes : List ℕ) → At bytes 0 bytes
At-whole bytes = record { rest = []; here = sym (append-nil bytes); within = omega arith }

pub read_from-whole :
    (p old : RequestPacket)
    → IsPacket p
    → read_from (input (packet_bytes p)) old 0 ≡ ok p (length (packet_bytes p))
unfolding input
read_from-whole p old v =
    read_from-Takes (input (packet_bytes p)) (length (packet_bytes p)) refl p old v 0
      (At-whole (packet_bytes p))
    ∙ ap (ok p) (omega arith)

-- For every RequestPacket within the ranges of its types, whose bytes fit a package, tarsRequest
-- returns a package; and a server that receives it in any pieces, and more behind it, gets from
-- AppProtocol::parse a body from which readFrom reads the packet, whatever it read into, while
-- what came behind stays in the buffer.
pub tars_request-parse :
    (p old : RequestPacket) (pieces : List (List ℕ)) (rest : List ℕ)
    → IsPacket p
    → 4 + length (packet_bytes p) ≤ max_package_size
    → All (λ piece. length piece < 2 ^ 32) pieces
    → concat pieces ≡ frame 4 (packet_bytes p) ++ rest
    → (tars_request p ≡ some (frame 4 (packet_bytes p)))
      × (b' : NetWorkBuffer) × (parse (receive pieces new) ≡ (packet_full, packet_bytes p, b'))
      × IsValid b'
      × (contents b' ≡ rest)
      × (read_from (input (packet_bytes p)) old 0 ≡ ok p (length (packet_bytes p)))
unfolding parse
tars_request-parse p old pieces rest v small pieces_small e =
    let (b', parsed, valid, left) =
      parse_buffer-receive 4 min_package_size max_package_size (packet_bytes p) pieces rest
        pieces_small (omega arith) (omega (arith, length-packet_bytes_pos p)) small e in
    (tars_request-frame p v small, b', parsed, valid, left, read_from-whole p old v)
