-- ===== src/Protocol/Replies.antt =====
-- A response on its way back: Current::sendResponse and tarsResponse.
use horse_rpc.Base.{
  ℕ, ◌+◌, ◌^◌, ◌≤◌, ◌<◌, ◌≡◌, refl, ap, ◌∙◌, Bool, true, false, List, ◌++◌, if◌then◌else◌, length,
  take, length-append, All, arith,
}
use native.Mathlib.Nat.{mod-eq_of_lt}
use horse_rpc.Base.Bytes.{be_value}
use horse_rpc.Base.Int.{ℤ}
use horse_rpc.Tars.Wire.{ok, ◌>>=◌, >>=_ok}
use horse_rpc.Tars.Reader.Skip.{input}
use horse_rpc.Packet.Response.{ResponsePacket, read_from, empty}
use horse_rpc.Packet.Response.Layout.{IsPacket, packet_bytes, length-packet_bytes_pos}
use horse_rpc.Packet.Response.RoundTrip.{TakesLast, read_from-TakesLast}
use horse_rpc.Net.Buffer.{NetWorkBuffer, packet_full, get_value, new}
use horse_rpc.Net.Buffer.Contents.{contents, IsValid}
use horse_rpc.Net.Buffer.Frames.{get_value-take}
use horse_rpc.Net.Buffer.Streams.{
  frame, receive, concat, parse_buffer-receive, receive-contents, receive-IsValid, new-IsValid,
  new-contents, take-frame, length-frame,
}
use horse_rpc.Protocol.Frame.{min_package_size, max_package_size}
use horse_rpc.Protocol.Outcome.{Outcome, returns, finish, expect}
use horse_rpc.Protocol.Heads.{equals, below_unknown, tars_version, tars_normal, check_packet}
use horse_rpc.Protocol.Responses.{by_length, read_parsed, tars_response, tars_response_len}
use horse_rpc.Protocol.Requests.{At-whole}

by_length-whole :
    (min_length max_length : ℕ) (b : NetWorkBuffer) (rsp : ResponsePacket) (head : Outcome)
    (whole : ℕ → Outcome)
    → 4 ≤ b.buffer_length
    → b.buffer_length < 2 ^ 32
    → min_length ≤ get_value 4 b
    → get_value 4 b ≤ max_length
    → get_value 4 b ≤ b.buffer_length
    → by_length min_length max_length b rsp head whole ≡ whole (get_value 4 b)
unfolding by_length
by_length-whole min_length max_length b rsp head whole some_left small lo hi there =
    rw (mod-eq_of_lt small) (ground arith)

check_packet-ok :
    (has_version : ℤ → Bool) (p : ResponsePacket) (cur : ℕ)
    → has_version p.i_version ≡ true
    → equals p.c_packet_type tars_normal ≡ true
    → below_unknown p.i_ret ≡ false
    → check_packet has_version p cur ≡ ok p cur
unfolding check_packet expect
check_packet-ok has_version p cur hv ht hr = rw (hv, ht, hr)

-- What readFrom leaves of a packet that was written, in one that held `old`.
abbrev pub received : ResponsePacket → ResponsePacket → ResponsePacket
received p old = record p { context = if empty p.context then old.context else p.context }

read_from-received :
    (p old : ResponsePacket)
    → IsPacket p
    → read_from (input (packet_bytes p)) old 0 ≡ ok (received p old) (length (packet_bytes p))
unfolding input TakesLast
read_from-received p old v =
    read_from-TakesLast (input (packet_bytes p)) (length (packet_bytes p)) refl p old v 0
      (At-whole (packet_bytes p)) (omega arith)

module _ (body : List ℕ) (pieces : List (List ℕ)) (rest : List ℕ)
    (small : All (λ piece. length piece < 2 ^ 32) pieces)
    (e : concat pieces ≡ frame 4 body ++ rest) where
  contents-received : contents (receive pieces new) ≡ frame 4 body ++ rest
  contents-received = receive-contents pieces new ∙ ap (λ t. t ++ concat pieces) new-contents ∙ e

  buffer_length-received :
      4 + length body < 2 ^ 32 → (receive pieces new).buffer_length ≡ 4 + length body + length rest
  buffer_length-received fits =
      (receive-IsValid pieces new small new-IsValid).count
      ∙ ap length contents-received
      ∙ length-append (frame 4 body) rest
      ∙ ap (λ k. k + length rest) (length-frame 4 body fits)

  get_value-received : 4 + length body < 2 ^ 32 → get_value 4 (receive pieces new) ≡ 4 + length body
  get_value-received fits =
      let v = receive-IsValid pieces new small new-IsValid in
      get_value-take (receive pieces new) v 4 (omega (arith, buffer_length-received fits, v.count))
      ∙ ap (λ t. be_value (take 4 t)) contents-received
      ∙ take-frame 4 body fits rest

-- When the pieces that were received make up a ResponsePacket behind its length, which fits a
-- package, and what follows it, and are fewer than 2^32 bytes, and the packet is of the Tars
-- version, its cPacketType is TARSNORMAL and its iRet is not below TARSSERVERUNKNOWNERR,
-- tarsResponse says that the packet is there, reads it into the packet it was given, and leaves
-- what follows in the buffer. It keeps the context that it was given where the packet has none.
pub tars_response-receive :
    (p old : ResponsePacket) (pieces : List (List ℕ)) (rest beyond : List ℕ)
    → IsPacket p
    → equals p.i_version tars_version ≡ true
    → equals p.c_packet_type tars_normal ≡ true
    → below_unknown p.i_ret ≡ false
    → 4 + length (packet_bytes p) ≤ max_package_size
    → 4 + length (packet_bytes p) + length rest < 2 ^ 32
    → All (λ piece. length piece < 2 ^ 32) pieces
    → concat pieces ≡ frame 4 (packet_bytes p) ++ rest
    → (b' : NetWorkBuffer) × (tars_response beyond (receive pieces new) old
        ≡ returns packet_full (received p old) b')
      × IsValid b'
      × (contents b' ≡ rest)
unfolding tars_response tars_response_len read_parsed finish
tars_response-receive p old pieces rest beyond v hv ht hr small total pieces_small e =
    let body = packet_bytes p in
    let b = receive pieces new in
    let some_bytes = length-packet_bytes_pos p in
    let count = buffer_length-received body pieces rest pieces_small e (omega arith) in
    let value = get_value-received body pieces rest pieces_small e (omega arith) in
    let (b', parsed, valid, left) =
      parse_buffer-receive 4 min_package_size max_package_size body pieces rest pieces_small
        (omega arith) (omega arith) small e in
    let ran : (read_from (input body) old >>= check_packet (λ n. equals n tars_version)) 0
        ≡ ok (received p old) (length body) =
      >>=_ok (read_from (input body) old) _ (read_from-received p old v)
      ∙ check_packet-ok (λ n. equals n tars_version) (received p old) (length body) hv ht hr in
    (
      b',
      by_length-whole min_package_size max_package_size b old _ _ (omega (arith, count))
            (omega (arith, count)) (omega (arith, value)) (omega (arith, value))
            (omega (arith, count, value))
          ∙ rw (parsed, ran) refl,
      valid,
      left,
    )
