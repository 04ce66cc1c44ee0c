-- ===== src/Protocol/Heads.antt =====
-- What the response functions of ProxyProtocol check of a packet: its version, type and result, in
-- its first bytes while the rest is missing, or in the whole packet.
use horse_rpc.Base.{ℕ, Bool, true, false, not, List, ◌++◌, ltb, ◌==◌, take, drop}
use horse_rpc.Base.Int.{ℤ, pos, negsuc}
use horse_rpc.Tars.Wire.{M, ◌>>=◌, ◌>>◌, return}
use horse_rpc.Tars.Reader.Skip.{Input, input}
use horse_rpc.Tars.Reader.Fields.{read_short, read_char, read_int32}
use horse_rpc.Packet.Response.{ResponsePacket}
use horse_rpc.Protocol.Outcome.{expect}

abbrev pub tars_version : ℕ
tars_version = 1

abbrev pub tup_version : ℕ
tup_version = 3

abbrev pub json_version : ℕ
json_version = 5

abbrev pub tars_normal : ℕ
tars_normal = 0

abbrev pub tars_oneway : ℕ
tars_oneway = 1

unfoldable pub equals : ℤ → ℕ → Bool
equals (pos n) k = n == k
equals (negsuc n) k = false

-- iRet < TARSSERVERUNKNOWNERR, which is -99.
unfoldable pub below_unknown : ℤ → Bool
below_unknown (pos n) = false
below_unknown (negsuc n) = ltb 98 n

-- The stream that setBuffer(buffer.c_str() + 4, 20) gives: `beyond` is the memory behind the bytes
-- of `buffer`.
unfoldable pub head_stream : List ℕ → List ℕ → Input
head_stream buffer beyond = input (take 20 (drop 4 buffer ++ beyond))

-- The first bytes of a ResponsePacket in tarsResponseLen and totalResponseLen.
unfoldable pub check_head : (ℤ → Bool) → Input → ResponsePacket → M ResponsePacket
check_head has_version is rsp = do
  i_version ← read_short is rsp.i_version 1 false
  expect (has_version i_version)
  c_packet_type ← read_char is rsp.c_packet_type 2 false
  expect (equals c_packet_type tars_normal)
  i_request_id ← read_int32 is rsp.i_request_id 3 false
  i_message_type ← read_int32 is rsp.i_message_type 4 false
  i_ret ← read_int32 is rsp.i_ret 5 false
  expect (not (below_unknown i_ret))
  return (record rsp {
    i_version = i_version;
    c_packet_type = c_packet_type;
    i_request_id = i_request_id;
    i_message_type = i_message_type;
    i_ret = i_ret;
  })

-- The same in jsonResponseLen, which reads the ids the other way round.
unfoldable pub check_json_head : Input → ResponsePacket → M ResponsePacket
check_json_head is rsp = do
  i_version ← read_short is rsp.i_version 1 false
  expect (equals i_version json_version)
  c_packet_type ← read_char is rsp.c_packet_type 2 false
  expect (equals c_packet_type tars_normal)
  i_message_type ← read_int32 is rsp.i_message_type 3 false
  i_request_id ← read_int32 is rsp.i_request_id 4 false
  i_ret ← read_int32 is rsp.i_ret 5 false
  expect (not (below_unknown i_ret))
  return (record rsp {
    i_version = i_version;
    c_packet_type = c_packet_type;
    i_request_id = i_request_id;
    i_message_type = i_message_type;
    i_ret = i_ret;
  })

-- The first bytes of a RequestPacket in tupResponseLen, read into a packet that is then dropped.
unfoldable pub check_tup_head : Input → M (Unit {0})
check_tup_head is = do
  i_version ← read_short is (pos 0) 1 true
  expect (equals i_version tup_version)
  c_packet_type ← read_char is (pos 0) 2 true
  expect (equals c_packet_type tars_normal)
  i_message_type ← read_int32 is (pos 0) 3 true
  i_request_id ← read_int32 is (pos 0) 4 true
  return tt

-- A whole packet.
unfoldable pub check_packet : (ℤ → Bool) → ResponsePacket → M ResponsePacket
check_packet has_version rsp = do
  expect (has_version rsp.i_version)
  expect (equals rsp.c_packet_type tars_normal)
  expect (not (below_unknown rsp.i_ret))
  return rsp
