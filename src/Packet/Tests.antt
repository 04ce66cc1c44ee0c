-- ===== src/Packet/Tests.antt =====
-- Runs of the packets on small inputs.
use horse_rpc.Base.{◌≡◌, some, [], ◌∷◌, ◌++◌, length, arith}
use horse_rpc.Base.Int.{pos, negsuc}
use horse_rpc.Tars.Wire.{ok}
use horse_rpc.Tars.Reader.Skip.{input}
use horse_rpc.Tars.Writer.{Writer}
use horse_rpc.Packet.Maps.{StringMap, IsMap}
use horse_rpc.Packet.Request
use horse_rpc.Packet.Request.{RequestPacket}
use horse_rpc.Packet.Request.RoundTrip as RequestRoundTrip
use horse_rpc.Packet.Request.RoundTrip.{read_from-write_to_request}
use horse_rpc.Packet.Response
use horse_rpc.Packet.Response.{ResponsePacket, empty}
use horse_rpc.Packet.Response.Layout as ResponseLayout
use horse_rpc.Packet.Response.RoundTrip.{read_from-write_to_response}

abbrev empty_writer : Writer
empty_writer = record { bytes = []; buf_len = 0 }

abbrev one_key : StringMap
one_key = (107 ∷ [], 118 ∷ []) ∷ []

one_key-IsMap : IsMap one_key
one_key-IsMap = record {
  size = omega arith;
  sorted = (tt, tt);
  keys = omega arith;
  values = omega arith;
}

no_key-IsMap : IsMap []
no_key-IsMap = record { size = omega arith; sorted = tt; keys = tt; values = tt }

abbrev ping : RequestPacket
ping = record {
  i_version = pos 1;
  c_packet_type = pos 0;
  i_message_type = pos 0;
  i_request_id = pos 70000;
  s_servant_name = 65 ∷ [];
  s_func_name = 112 ∷ [];
  s_buffer = 1 ∷ 2 ∷ 3 ∷ [];
  i_timeout = pos 3000;
  context = one_key;
  status = [];
}

ping-IsPacket : RequestRoundTrip.IsPacket ping
ping-IsPacket = record {
  version = omega arith;
  packet_type = omega arith;
  message_type = omega arith;
  request_id = omega arith;
  servant_name = omega arith;
  func_name = omega arith;
  buffer = omega arith;
  timeout = omega arith;
  context = one_key-IsMap;
  status = no_key-IsMap;
}

read_from-write_to_request_example :
    (w' : Writer) × (Request.write_to ping empty_writer ≡ some w')
    × (Request.read_from (input (w'.bytes ++ 0 ∷ [])) ping 0 ≡ ok ping (length w'.bytes))
read_from-write_to_request_example =
    read_from-write_to_request ping ping empty_writer (0 ∷ []) ping-IsPacket

abbrev pong : ResponsePacket
pong = record {
  i_version = pos 1;
  c_packet_type = pos 0;
  i_request_id = pos 70000;
  i_message_type = pos 0;
  i_ret = negsuc 6;
  s_buffer = 9 ∷ [];
  status = one_key;
  s_result_desc = [];
  context = one_key;
}

pong-IsPacket : ResponseLayout.IsPacket pong
pong-IsPacket = record {
  version = omega arith;
  packet_type = omega arith;
  request_id = omega arith;
  message_type = omega arith;
  ret = omega arith;
  buffer = omega arith;
  status = one_key-IsMap;
  result_desc = omega arith;
  context = one_key-IsMap;
}

read_from-write_to_response_example :
    (w' : Writer) × (Response.write_to pong empty_writer ≡ some w')
    × (Response.read_from (input w'.bytes) pong 0 ≡ ok pong (length w'.bytes))
read_from-write_to_response_example =
    read_from-write_to_response pong pong empty_writer pong-IsPacket
