-- ===== src/Packet/Response.antt =====
-- struct ResponsePacket of src/include/client/protocol/RequestF.h: writeTo and readFrom.
pub mod Layout
pub mod RoundTrip
use horse_rpc.Base.{ℕ, Bool, true, false, List, [], ◌∷◌, if◌then◌else◌}
use horse_rpc.Base.Int.{ℤ, pos}
use horse_rpc.Tars.Wire.{M, ◌>>=◌, return}
use horse_rpc.Tars.Reader.Skip.{Input}
use horse_rpc.Tars.Reader.Fields.{
  read_short, read_char, read_int32, read_string, read_chars, read_map,
}
use horse_rpc.Tars.Writer.{
  Write, ◌>>◌, done, write_short, write_char, write_int32, write_string, write_chars, write_map,
}
use horse_rpc.Packet.Maps.{StringMap, string_value}

pub record ResponsePacket : Type 0 where
  pub i_version : ℤ
  pub c_packet_type : ℤ
  pub i_request_id : ℤ
  pub i_message_type : ℤ
  pub i_ret : ℤ
  pub s_buffer : List ℕ
  pub status : StringMap
  pub s_result_desc : List ℕ
  pub context : StringMap

-- resetDefautlt: the containers keep what they hold.
unfoldable pub reset_default : ResponsePacket → ResponsePacket
reset_default p = record p {
  i_version = pos 0;
  c_packet_type = pos 0;
  i_request_id = pos 0;
  i_message_type = pos 0;
  i_ret = pos 0;
  s_result_desc = [];
}

abbrev pub empty {ℓ} : {A : Type ℓ} → List A → Bool
empty [] = true
empty (x ∷ xs) = false

-- The last two fields are written unless they are empty.
unfoldable pub write_to : ResponsePacket → Write
write_to p = do
  write_short p.i_version 1
  write_char p.c_packet_type 2
  write_int32 p.i_request_id 3
  write_int32 p.i_message_type 4
  write_int32 p.i_ret 5
  write_chars p.s_buffer 6
  write_map write_string p.status 7
  if empty p.s_result_desc then done else write_string p.s_result_desc 8
  if empty p.context then done else write_map write_string p.context 9

unfoldable pub read_from : Input → ResponsePacket → M ResponsePacket
read_from is packet = do
  let old = reset_default packet
  i_version ← read_short is old.i_version 1 true
  c_packet_type ← read_char is old.c_packet_type 2 true
  i_request_id ← read_int32 is old.i_request_id 3 true
  i_message_type ← read_int32 is old.i_message_type 4 true
  i_ret ← read_int32 is old.i_ret 5 true
  s_buffer ← read_chars is old.s_buffer 6 true
  status ← read_map is (string_value is) old.status 7 true
  s_result_desc ← read_string is old.s_result_desc 8 false
  context ← read_map is (string_value is) old.context 9 false
  return (record {
    i_version = i_version;
    c_packet_type = c_packet_type;
    i_request_id = i_request_id;
    i_message_type = i_message_type;
    i_ret = i_ret;
    s_buffer = s_buffer;
    status = status;
    s_result_desc = s_result_desc;
    context = context;
  })
