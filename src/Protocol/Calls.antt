-- ===== src/Protocol/Calls.antt =====
-- A call and its answer: what the server takes from the request, and what the client takes from
-- the response.
use horse_rpc.Base.{
  ℕ, ◌+◌, ◌^◌, ◌≤◌, ◌<◌, ◌≡◌, refl, true, false, some, List, ◌++◌, ◌==◌, length, All, arith,
}
use horse_rpc.Base.Int.{ℤ}
use horse_rpc.Packet.Maps.{StringMap}
use horse_rpc.Packet.Request.{RequestPacket}
use horse_rpc.Packet.Request.RoundTrip as RequestLayout
use horse_rpc.Packet.Response.{ResponsePacket, write_to}
use horse_rpc.Packet.Response.Layout.{IsPacket, packet_bytes, write_to-Appends}
use horse_rpc.Net.Buffer.{NetWorkBuffer, packet_full, new}
use horse_rpc.Net.Buffer.Contents.{contents}
use horse_rpc.Net.Buffer.Streams.{frame, receive, concat}
use horse_rpc.Protocol.Frame.{max_package_size, tars_request, parse}
use horse_rpc.Protocol.Outcome.{returns}
use horse_rpc.Protocol.Heads.{
  equals, below_unknown, tars_version, tup_version, tars_normal, tars_oneway,
}
use horse_rpc.Protocol.Responses.{tars_response}
use horse_rpc.Protocol.Current.{
  Current, initialized, initialize, answer, sends, sent, send_response,
}
use horse_rpc.Protocol.Requests.{framed-frame, read_from-whole, tars_request-parse}
use horse_rpc.Protocol.Replies.{received, tars_response-receive}

-- The request that the server works on.
abbrev pub taking : Current → RequestPacket → Current
taking c p = record c { request = p }

pub initialize-packet :
    (p : RequestPacket) (c : Current)
    → RequestLayout.IsPacket p
    → initialize (RequestLayout.packet_bytes p) c ≡ some (taking c p)
unfolding initialize initialized
initialize-packet p c v = rw (read_from-whole p c.request v, initialized) refl

equals-other : (z : ℤ) (m n : ℕ) → equals z m ≡ true → (m == n) ≡ false → equals z n ≡ false
unfolding equals
equals-other z m n h k = ground arith

module _ (ret : ℤ) (response : ResponsePacket) (status : StringMap) (result_desc : List ℕ) where
  -- The answer to a request of the Tars version that wants one.
  pub send_response-frame :
      (p : RequestPacket) (c : Current)
      → equals p.i_version tars_version ≡ true
      → equals p.c_packet_type tars_normal ≡ true
      → IsPacket (answer ret response status result_desc (taking c p))
      → 4 + length (packet_bytes (answer ret response status result_desc (taking c p)))
        ≤ max_package_size
      → (send_response ret response status result_desc (taking c p)).1
        ≡ sends (frame 4 (packet_bytes (answer ret response status result_desc (taking c p))))
  unfolding send_response sent
  send_response-frame p c hv ht v small =
      let reply = answer ret response status result_desc (taking c p) in
      rw (
        equals-other p.c_packet_type tars_normal tars_oneway ht refl,
        equals-other p.i_version tars_version tup_version hv refl,
        framed-frame (write_to reply) (packet_bytes reply) (write_to-Appends reply v) (omega arith),
      )

  -- For a request of the Tars version with cPacketType TARSNORMAL, within the ranges of its types
  -- and the size of a package, tarsRequest writes a package. A server that receives it in any pieces,
  -- and more behind it, gets from AppProtocol::parse a body from which it takes the request. When
  -- the server's ret is not below TARSSERVERUNKNOWNERR, and its answer is within the ranges of the
  -- types and the size of a package, it sends a package; and a client that receives that in any
  -- pieces, with more behind it, and fewer than 2^32 bytes, gets from tarsResponse a packet with the
  -- id of the request, and the result, buffer, status and description that the server gave.
  pub call-answer :
      (p : RequestPacket) (c : Current) (old : ResponsePacket) (asked pieces : List (List ℕ))
      (more rest beyond : List ℕ)
      → RequestLayout.IsPacket p
      → 4 + length (RequestLayout.packet_bytes p) ≤ max_package_size
      → All (λ piece. length piece < 2 ^ 32) asked
      → concat asked ≡ frame 4 (RequestLayout.packet_bytes p) ++ more
      → equals p.i_version tars_version ≡ true
      → equals p.c_packet_type tars_normal ≡ true
      → below_unknown ret ≡ false
      → IsPacket (answer ret response status result_desc (taking c p))
      → 4 + length (packet_bytes (answer ret response status result_desc (taking c p)))
        ≤ max_package_size
      → 4
          + length (packet_bytes (answer ret response status result_desc (taking c p)))
          + length rest
        < 2 ^ 32
      → All (λ piece. length piece < 2 ^ 32) pieces
      → concat pieces
        ≡ frame 4 (packet_bytes (answer ret response status result_desc (taking c p))) ++ rest
      → (tars_request p ≡ some (frame 4 (RequestLayout.packet_bytes p)))
        × (b : NetWorkBuffer) × (parse (receive asked new)
            ≡ (packet_full, RequestLayout.packet_bytes p, b))
        × (contents b ≡ more)
        × (initialize (RequestLayout.packet_bytes p) c ≡ some (taking c p))
        × ((send_response ret response status result_desc (taking c p)).1
            ≡ sends (frame 4 (packet_bytes (answer ret response status result_desc (taking c p)))))
        × (r : ResponsePacket) × (b' : NetWorkBuffer) × (tars_response beyond
              (receive pieces new)
              old
            ≡ returns packet_full r b')
        × (contents b' ≡ rest)
        × (r.i_request_id ≡ p.i_request_id)
        × (r.i_ret ≡ ret)
        × (r.s_buffer ≡ response.s_buffer)
        × (r.status ≡ status)
        × (r.s_result_desc ≡ result_desc)
  unfolding answer equals
  call-answer p c old asked pieces more rest beyond vp fits asked_small asks hv ht hr v small total
        pieces_small e =
      let reply = answer ret response status result_desc (taking c p) in
      let (requested, b, parsed, _, kept, _) =
        tars_request-parse p p asked more vp fits asked_small asks in
      let (b', taken, _, left) =
        tars_response-receive reply old pieces rest beyond v hv refl hr small total pieces_small
          e in
      (
        requested,
        b,
        parsed,
        kept,
        initialize-packet p c vp,
        send_response-frame p c hv ht v small,
        received reply old,
        b',
        taken,
        left,
        refl,
        refl,
        refl,
        refl,
        refl,
      )
