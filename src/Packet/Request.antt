-- ===== src/Packet/Request.antt =====
-- struct RequestPacket of src/include/client/protocol/RequestF.h: writeTo and readFrom.
pub mod RoundTrip
use horse_rpc.Packet.Maps.{StringMap, string_value}
use horse_rpc.Base.{ℕ, true, List, []}
use horse_rpc.Base.Int.{ℤ, pos}
use horse_rpc.Tars.Wire.{M, ◌>>=◌, return}
use horse_rpc.Tars.Reader.Skip.{Input}
use horse_rpc.Tars.Reader.Fields.{
  read_short, read_char, read_int32, read_string, read_chars, read_map,
}
use horse_rpc.Tars.Writer.{
  Write, ◌>>◌, write_short, write_char, write_int32, write_string, write_chars, write_map,
}

pub record RequestPacket : Type 0 where
  pub i_version : ℤ
  pub c_packet_type : ℤ
  pub i_message_type : ℤ
  pub i_request_id : ℤ
  pub s_servant_name : List ℕ
  pub s_func_name : List ℕ
  pub s_buffer : List ℕ
  pub i_timeout : ℤ
  pub context : StringMap
  pub status : StringMap

-- resetDefautlt: the containers keep what they hold.
unfoldable pub reset_default : RequestPacket → RequestPacket
reset_default p = record p {
  i_version = pos 0;
  c_packet_type = pos 0;
  i_message_type = pos 0;
  i_request_id = pos 0;
  s_servant_name = [];
  s_func_name = [];
  i_timeout = pos 0;
}

unfoldable pub write_to : RequestPacket → Write
write_to p = do
  write_short p.i_version 1
  write_char p.c_packet_type 2
  write_int32 p.i_message_type 3
  write_int32 p.i_request_id 4
  write_string p.s_servant_name 5
  write_string p.s_func_name 6
  write_chars p.s_buffer 7
  write_int32 p.i_timeout 8
  write_map write_string p.context 9
  write_map write_string p.status 10

unfoldable pub read_from : Input → RequestPacket → M RequestPacket
read_from is packet = do
  let old = reset_default packet
  i_version ← read_short is old.i_version 1 true
  c_packet_type ← read_char is old.c_packet_type 2 true
  i_message_type ← read_int32 is old.i_message_type 3 true
  i_request_id ← read_int32 is old.i_request_id 4 true
  s_servant_name ← read_string is old.s_servant_name 5 true
  s_func_name ← read_string is old.s_func_name 6 true
  s_buffer ← read_chars is old.s_buffer 7 true
  i_timeout ← read_int32 is old.i_timeout 8 true
  context ← read_map is (string_value is) old.context 9 true
  status ← read_map is (string_value is) old.status 10 true
  return (record {
    i_version = i_version;
    c_packet_type = c_packet_type;
    i_message_type = i_message_type;
    i_request_id = i_request_id;
    s_servant_name = s_servant_name;
    s_func_name = s_func_name;
    s_buffer = s_buffer;
    i_timeout = i_timeout;
    context = context;
    status = status;
  })
