-- ===== src/Protocol/Responses.antt =====
-- tarsResponse, jsonResponse, tupResponse and totalResponse of ProxyProtocol.
use horse_rpc.Base.{ℕ, ◌%◌, ◌^◌, true, false, ◌||◌, none, some, List, [], ltb, if◌then◌else◌, drop}
use horse_rpc.Base.Int.{ℤ, pos}
use horse_rpc.Tars.Wire.{M, Result, ok, err, stuck, protocol, ◌>>=◌, ◌>>◌, return}
use horse_rpc.Tars.Reader.Skip.{input}
use horse_rpc.Tars.Reader.Fields.{read_short}
use horse_rpc.Packet.Request.{RequestPacket}
use horse_rpc.Packet.Request
use horse_rpc.Packet.Response.{ResponsePacket}
use horse_rpc.Packet.Response
use horse_rpc.Net.Buffer.{
  NetWorkBuffer, PacketType, packet_less, packet_full, packet_full_close, packet_err, get_header,
  get_value, move_header, parse_buffer,
}
use horse_rpc.Protocol.Outcome.{Outcome, returns, throws, never, finish, expect}
use horse_rpc.Protocol.Frame.{min_package_size, max_package_size}
use horse_rpc.Protocol.Heads.{
  tars_version, tup_version, json_version, tars_normal, equals, head_stream, check_head,
  check_json_head, check_tup_head, check_packet,
}

-- `string buffer; in.getHeader(n, buffer)`: it stays empty when there are not as many bytes.
unfoldable pub header_or_empty : ℕ → NetWorkBuffer → List ℕ
header_or_empty n b = elim (get_header n b) [ none ↦ [] | some bs ↦ bs ]

-- What the functions share: the length in front, while it or a part of the packet is missing.
-- `head` checks the first 20 bytes, and `whole` takes a packet of the given length.
unfoldable pub by_length :
    ℕ → ℕ → NetWorkBuffer → ResponsePacket → Outcome → (ℕ → Outcome) → Outcome
by_length min_length max_length b rsp head whole =
    let len = b.buffer_length % 2 ^ 32 in
    let header_len = get_value 4 b in
    if ltb len 4
    then returns packet_less rsp b
    else if ltb header_len min_length || ltb max_length header_len
    then throws protocol b
    else if ltb len header_len
    then (if ltb len 20 then returns packet_less rsp b else head)
    else whole header_len

-- `bool ret = in.parseBufferOf4(...); if (!ret) throw`, and the packet in what it gave.
unfoldable pub read_parsed :
    (ResponsePacket → M ResponsePacket)
    → ResponsePacket
    → PacketType × List ℕ × NetWorkBuffer
    → Outcome
read_parsed check rsp (packet_less, body, b) = throws protocol b
read_parsed check rsp (packet_full, body, b) =
    finish packet_full b b ((Response.read_from (input body) rsp >>= check) 0)
read_parsed check rsp (packet_full_close, body, b) =
    finish packet_full b b ((Response.read_from (input body) rsp >>= check) 0)
read_parsed check rsp (packet_err, body, b) =
    finish packet_full b b ((Response.read_from (input body) rsp >>= check) 0)

-- The packet in a response to a tup call, which is a RequestPacket: `buffer` is kept whole.
unfoldable pub tup_packet : ResponsePacket → List ℕ → RequestPacket → ResponsePacket
tup_packet rsp buffer req = record rsp {
  c_packet_type = req.c_packet_type;
  i_message_type = req.i_message_type;
  i_request_id = req.i_request_id;
  i_version = req.i_version;
  context = req.context;
  s_buffer = buffer;
}

-- RequestPacket()
unfoldable pub new_request : RequestPacket
new_request = record {
  i_version = pos 0;
  c_packet_type = pos 0;
  i_message_type = pos 0;
  i_request_id = pos 0;
  s_servant_name = [];
  s_func_name = [];
  s_buffer = [];
  i_timeout = pos 0;
  context = [];
  status = [];
}

module _ (beyond : List ℕ) (b : NetWorkBuffer) (rsp : ResponsePacket) where
  -- tarsResponseLen; jsonResponseLen is the same over its own head and version.
  unfoldable pub tars_response_len : ℕ → ℕ → Outcome
  tars_response_len min_length max_length =
      by_length min_length max_length b rsp
        (finish packet_less b b (
          check_head (λ v. equals v tars_version) (head_stream (header_or_empty 20 b) beyond) rsp
            0))
        (λ _.
          read_parsed (check_packet (λ v. equals v tars_version)) rsp
            (parse_buffer 4 min_length max_length b))

  unfoldable pub tars_response : Outcome
  tars_response = tars_response_len min_package_size max_package_size

  unfoldable pub json_response_len : ℕ → ℕ → Outcome
  json_response_len min_length max_length =
      by_length min_length max_length b rsp
        (finish packet_less b b (check_json_head (head_stream (header_or_empty 20 b) beyond) rsp 0))
        (λ _.
          read_parsed (check_packet (λ v. equals v json_version)) rsp
            (parse_buffer 4 min_length max_length b))

  -- The whole packet of a tup response, where `check` looks at its version and type.
  unfoldable pub read_tup : (RequestPacket → M (Unit {0})) → ℕ → Outcome
  read_tup check header_len =
      let buffer = header_or_empty header_len b in
      finish packet_full b (move_header header_len b).1 (
        (do
          req ← Request.read_from (input (drop 4 buffer)) new_request
          check req
          return (tup_packet rsp buffer req))
          0)

  unfoldable pub tup_response_len : ℕ → ℕ → Outcome
  tup_response_len min_length max_length =
      by_length min_length max_length b rsp
        (finish packet_less b b
          ((check_tup_head (head_stream (header_or_empty 20 b) beyond) >> return rsp) 0))
        (read_tup λ req.
          (expect (equals req.i_version tup_version)
            >> expect (equals req.c_packet_type tars_normal)))

  -- totalResponseLen: the version in the first 20 bytes says which packet it is.
  unfoldable pub read_total : ℕ → ℕ → ℕ → Result ℤ → Outcome
  read_total min_length max_length header_len (err e cur) = throws e b
  read_total min_length max_length header_len stuck = never
  read_total min_length max_length header_len (ok i_version cur) =
      let old = record rsp { i_version = i_version } in
      if equals i_version tup_version
      then read_tup (λ req. expect (equals req.c_packet_type tars_normal)) header_len
      else if equals i_version tars_version || equals i_version json_version
      then read_parsed (check_packet λ _. true) old (parse_buffer 4 min_length max_length b)
      else throws protocol b

  unfoldable pub total_response_len : ℕ → ℕ → Outcome
  total_response_len min_length max_length =
      let is = head_stream (header_or_empty 20 b) beyond in
      by_length min_length max_length b rsp
        (finish packet_less b b (
          check_head (λ v. equals v tars_version || equals v tup_version || equals v json_version)
            is rsp 0))
        (λ header_len.
          read_total min_length max_length header_len (read_short is rsp.i_version 1 false 0))
