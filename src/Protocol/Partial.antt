-- ===== src/Protocol/Partial.antt =====
-- tarsResponse while a part of the packet is missing.
use horse_rpc.Base.{
  ℕ, ◌+◌, ◌^◌, ◌≤◌, ◌<◌, ◌≡◌, refl, sym, ap, ◌∙◌, Bool, true, false, Option, none, some, List, [],
  ◌++◌, ltb, if◌then◌else◌, length, take, drop, length-append, append-nil, All, arith, Bool-cases,
  inl, inr, ltb_false→le, ltb→lt, lt→ltb,
}
use native.Mathlib.Nat.{mod-eq_of_lt}
use horse_rpc.Base.Bytes.{be_bytes, be_value, length-be_bytes}
use horse_rpc.Tars.Reader.Skip.{input}
use horse_rpc.Packet.Response.{ResponsePacket}
use horse_rpc.Packet.Response.Layout.{IsPacket, packet_bytes, length-packet_bytes_pos}
use horse_rpc.Net.Buffer.{NetWorkBuffer, packet_less, get_header, get_value, new}
use horse_rpc.Net.Buffer.Contents.{contents, take_inside}
use horse_rpc.Net.Buffer.Frames.{get_value-take}
use horse_rpc.Net.Buffer.Header.{get_header-take}
use horse_rpc.Net.Buffer.Streams.{
  frame, receive, concat, receive-contents, receive-IsValid, new-IsValid, new-contents, take-frame,
  length-frame,
}
use horse_rpc.Protocol.Frame.{min_package_size, max_package_size}
use horse_rpc.Protocol.Outcome.{Outcome, returns, finish}
use horse_rpc.Protocol.Responses.{by_length, header_or_empty, tars_response, tars_response_len}
use horse_rpc.Protocol.Heads.{
  equals, below_unknown, tars_version, tars_normal, check_head, head_stream,
}
use horse_rpc.Protocol.HeadReads.{
  packet_head, with_head, check_head-Takes, packet_bytes-head, head_stream-At,
}

by_length-short :
    (min_length max_length : ℕ) (b : NetWorkBuffer) (rsp : ResponsePacket) (head : Outcome)
    (whole : ℕ → Outcome)
    → b.buffer_length < 4
    → by_length min_length max_length b rsp head whole ≡ returns packet_less rsp b
unfolding by_length
by_length-short min_length max_length b rsp head whole h =
    let small : b.buffer_length < 2 ^ 32 = omega (arith, h) in
    rw (mod-eq_of_lt small) (ground arith)

by_length-missing :
    (min_length max_length : ℕ) (b : NetWorkBuffer) (rsp : ResponsePacket) (head : Outcome)
    (whole : ℕ → Outcome)
    → 4 ≤ b.buffer_length
    → b.buffer_length < 2 ^ 32
    → min_length ≤ get_value 4 b
    → get_value 4 b ≤ max_length
    → b.buffer_length < get_value 4 b
    → by_length min_length max_length b rsp head whole
      ≡ (if ltb b.buffer_length 20 then returns packet_less rsp b else head)
unfolding by_length
by_length-missing min_length max_length b rsp head whole some_left small lo hi more =
    rw (mod-eq_of_lt small) (ground arith)

counted :
    (body bytes missing : List ℕ)
    → bytes ++ missing ≡ frame 4 body
    → 4 + length body < 2 ^ 32
    → length bytes + length missing ≡ 4 + length body
counted body bytes missing e fits =
    sym (length-append bytes missing) ∙ ap length e ∙ length-frame 4 body fits

-- The length in front of what has come.
value_of :
    (body bytes missing : List ℕ)
    → bytes ++ missing ≡ frame 4 body
    → 4 + length body < 2 ^ 32
    → 4 ≤ length bytes
    → be_value (take 4 bytes) ≡ 4 + length body
value_of body bytes missing e fits h =
    ap be_value
      (sym (take_inside 4 bytes missing h) ∙ ap (take 4) (e ∙ sym (append-nil (frame 4 body))))
    ∙ take-frame 4 body fits []

abbrev header_of : List ℕ → Option (List ℕ)
header_of bytes = if ltb (length bytes) 20 then none else some (take 20 bytes)

header-there :
    (b : NetWorkBuffer) (bytes : List ℕ)
    → get_header 20 b ≡ header_of bytes
    → ltb (length bytes) 20 ≡ false
    → header_or_empty 20 b ≡ take 20 bytes
unfolding header_or_empty
header-there b bytes got h = rw (got, h, header_or_empty) refl

-- The check of the first 20 bytes, where they have come.
head_read :
    (p old : ResponsePacket) (bytes missing beyond : List ℕ) (b : NetWorkBuffer) (n : ℕ)
    (header : List ℕ)
    → IsPacket p
    → equals p.i_version tars_version ≡ true
    → equals p.c_packet_type tars_normal ≡ true
    → below_unknown p.i_ret ≡ false
    → length (packet_head p) ≤ 16
    → bytes ++ missing ≡ frame 4 (packet_bytes p)
    → n ≡ length bytes
    → (ltb (length bytes) 20 ≡ false → header ≡ take 20 bytes)
    → (if ltb n 20
        then returns packet_less old b
        else finish packet_less b b
            (check_head (λ n. equals n tars_version) (head_stream header beyond) old 0))
      ≡ returns packet_less (if ltb (length bytes) 20 then old else with_head p old) b
unfolding head_stream finish frame input
head_read p old bytes missing beyond b n header v hv ht hr small e count got =
    let (rest, whole) = packet_bytes-head p in
    rw count (elim (Bool-cases (ltb (length bytes) 20)) [
      | inl few ↦ rw few refl
      | inr many ↦
          rw (many, got many)
            (ap (finish packet_less b b) (
              check_head-Takes (λ n. equals n tars_version)
                (input (take 20 (drop 4 (take 20 bytes) ++ beyond))) _ refl p old v hv ht hr 0
                (head_stream-At (be_bytes 4 (4 + length (packet_bytes p))) (packet_head p) rest
                  bytes missing beyond (length-be_bytes 4 (4 + length (packet_bytes p))) small
                  (ltb_false→le (length bytes) 20 many)
                  (e ∙ ap (◌++◌ (be_bytes 4 (4 + length (packet_bytes p)))) whole))))
    ])

-- As long as a byte of a response is missing, tarsResponse says so and keeps the buffer, when the
-- response is of the Tars version, its cPacketType is TARSNORMAL, its iRet is not below
-- TARSSERVERUNKNOWNERR, it fits a package, and its first five fields take at most 16 bytes. From
-- the 20th byte on it has read these fields into the packet that it was given.
pub tars_response-partial :
    (p old : ResponsePacket) (pieces : List (List ℕ)) (missing beyond : List ℕ)
    → IsPacket p
    → equals p.i_version tars_version ≡ true
    → equals p.c_packet_type tars_normal ≡ true
    → below_unknown p.i_ret ≡ false
    → length (packet_head p) ≤ 16
    → 4 + length (packet_bytes p) ≤ max_package_size
    → All (λ piece. length piece < 2 ^ 32) pieces
    → concat pieces ++ missing ≡ frame 4 (packet_bytes p)
    → 1 ≤ length missing
    → tars_response beyond (receive pieces new) old
      ≡ returns packet_less
          (if ltb (length (concat pieces)) 20 then old else with_head p old)
          (receive pieces new)
unfolding tars_response tars_response_len
tars_response-partial p old pieces missing beyond v hv ht hr head_small small pieces_small e
      some_left =
    let b = receive pieces new in
    let valid = receive-IsValid pieces new pieces_small new-IsValid in
    let held : contents b ≡ concat pieces =
      receive-contents pieces new ∙ ap (λ t. t ++ concat pieces) new-contents in
    let count : b.buffer_length ≡ length (concat pieces) = valid.count ∙ ap length held in
    let total = counted (packet_bytes p) (concat pieces) missing e (omega arith) in
    elim (Bool-cases (ltb b.buffer_length 4)) [
      | inl few ↦
          let below = ltb→lt b.buffer_length 4 few in
          by_length-short min_package_size max_package_size b old _ _ below
          ∙ ap (λ (t : Bool). returns packet_less (if t then old else with_head p old) b)
              (sym (lt→ltb (length (concat pieces)) 20 (omega (arith, count, below))))
      | inr many ↦
          let some_bytes = ltb_false→le b.buffer_length 4 many in
          let value : get_value 4 b ≡ 4 + length (packet_bytes p) =
            get_value-take b valid 4 (omega (arith, some_bytes, valid.count))
            ∙ ap (λ t. be_value (take 4 t)) held
            ∙ value_of (packet_bytes p) (concat pieces) missing e (omega arith)
                (omega (arith, some_bytes, count)) in
          by_length-missing min_package_size max_package_size b old _ _ some_bytes
            (omega (arith, count, total)) (omega (arith, value, length-packet_bytes_pos p))
            (omega (arith, value)) (omega (arith, value, count, total))
          ∙ head_read p old (concat pieces) missing beyond b b.buffer_length (header_or_empty 20 b)
              v hv ht hr head_small e count
              (header-there b (concat pieces) (get_header-take 20 b valid ∙ ap header_of held))
    ]
