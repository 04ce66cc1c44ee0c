-- ===== src/Protocol/Current.antt =====
-- class Current of src/client/Current.cpp: the call that a server answers.
use Prim.Native.Nat.{Ordering}
use Prim.Native.Char.{code}
use Prim.Native.String.{String}
use horse_rpc.Base.{
  ℕ, zero, suc, ◌+◌, ◌/◌, ◌%◌, not, Option, none, some, List, [], ◌∷◌, ◌++◌, ◌==◌, if◌then◌else◌,
}
use horse_rpc.Base.Int.{ℤ, pos, negsuc}
use horse_rpc.Tars.Wire.{Result, ok, err, stuck}
use horse_rpc.Tars.Reader.Skip.{input}
use horse_rpc.Tars.Reader.Fields.{compare_bytes}
use horse_rpc.Packet.Maps.{StringMap}
use horse_rpc.Packet.Request.{RequestPacket}
use horse_rpc.Packet.Request
use horse_rpc.Packet.Response.{ResponsePacket, empty}
use horse_rpc.Packet.Response
use horse_rpc.Protocol.Frame.{framed}
use horse_rpc.Protocol.Heads.{tup_version, tars_normal, tars_oneway, equals}
use horse_rpc.Protocol.Responses.{new_request}

-- The bytes of a text.
abbrev codes : String → List ℕ
codes String.[] = []
codes (String.◌∷◌ c s) = code c ∷ codes s

-- TC_Common::tostr of an int: its decimal digits, for which ten rounds are enough.
unfoldable pub digits : ℕ → ℕ → List ℕ
digits zero n = []
digits (suc rounds) n =
    let rest = digits rounds (n / 10) in (if n / 10 == 0 then [] else rest) ++ (b'0' + n % 10) ∷ []

unfoldable pub tostr : ℤ → List ℕ
tostr (pos n) = digits 10 n
tostr (negsuc n) = b'-' ∷ digits 10 (n + 1)

-- m[key] = value
unfoldable pub map_set : List ℕ → List ℕ → StringMap → StringMap
map_set k v [] = (k, v) ∷ []
map_set k v ((j, w) ∷ m) = elim (compare_bytes k j) [
  | Ordering.lt ↦ (k, v) ∷ (j, w) ∷ m
  | Ordering.eq ↦ (j, v) ∷ m
  | Ordering.gt ↦ (j, w) ∷ map_set k v m
]

pub record Current : Type 0 where
  pub request : RequestPacket
  pub response_context : StringMap
  pub ret : ℤ

-- initialize(sRecvBuffer): `none` when readFrom throws.
unfoldable pub initialized : Current → Result RequestPacket → Option Current
initialized c (ok request cur) = some (record c { request = request })
initialized c (err e cur) = none
initialized c stuck = none

unfoldable pub initialize : List ℕ → Current → Option Current
initialize bytes c = initialized c (Request.read_from (input bytes) c.request 0)

-- The answer to a call of a version other than TUP.
unfoldable pub answer : ℤ → ResponsePacket → StringMap → List ℕ → Current → ResponsePacket
answer ret response status result_desc c = record response {
  i_request_id = c.request.i_request_id;
  c_packet_type = pos tars_normal;
  i_message_type = c.request.i_message_type;
  i_version = c.request.i_version;
  status = status;
  context = c.response_context;
  s_result_desc = result_desc;
  i_ret = ret;
}

-- The answer to a TUP call. The empty attributes that are encoded where there is no buffer go to
-- `response`, which is not sent.
unfoldable pub with_result : ℤ → StringMap → StringMap
with_result ret status =
    if equals ret 0 then status else map_set (codes "STATUS_RESULT_CODE") (tostr ret) status

unfoldable pub with_desc : List ℕ → StringMap → StringMap
with_desc result_desc status =
    if empty result_desc then status else map_set (codes "STATUS_RESULT_DESC") result_desc status

unfoldable pub tup_answer : ℤ → ResponsePacket → StringMap → List ℕ → Current → RequestPacket
tup_answer ret response status result_desc c = record new_request {
  i_request_id = c.request.i_request_id;
  i_message_type = c.request.i_message_type;
  c_packet_type = pos tars_normal;
  i_version = c.request.i_version;
  status = with_desc result_desc (with_result ret status);
  context = c.response_context;
  s_buffer = response.s_buffer;
  s_servant_name = c.request.s_servant_name;
  s_func_name = c.request.s_func_name;
}

-- What is handed to the servant handle: nothing for a one-way call, or bytes; `fails` is a throw.
pub data Sent : Type 0 where
  nothing : Sent
  sends : List ℕ → Sent
  fails : Sent

unfoldable pub sent : Option (List ℕ) → Sent
sent none = fails
sent (some bytes) = sends bytes

-- sendResponse(iRet, response, status, sResultDesc)
unfoldable pub send_response : ℤ → ResponsePacket → StringMap → List ℕ → Current → Current × Sent
send_response ret response status result_desc c =
    let c' = record c { ret = ret } in
    if equals c.request.c_packet_type tars_oneway
    then (c', nothing)
    else if not (equals c.request.i_version tup_version)
    then (c', sent (framed (Response.write_to (answer ret response status result_desc c))))
    else (c', sent (framed (Request.write_to (tup_answer ret response status result_desc c))))
