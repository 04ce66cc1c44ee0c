-- ===== src/Protocol/Outcome.antt =====
-- What the response functions of ProxyProtocol leave behind.
use horse_rpc.Base.{Bool, true, false}
use horse_rpc.Tars.Wire.{M, DecodeError, protocol, Result, ok, err, stuck, return, throw}
use horse_rpc.Packet.Response.{ResponsePacket}
use horse_rpc.Net.Buffer.{NetWorkBuffer, PacketType}

-- They return with the packet and the buffer that they were given, or throw with the buffer.
pub data Outcome : Type 0 where
  returns : PacketType → ResponsePacket → NetWorkBuffer → Outcome
  throws : DecodeError → NetWorkBuffer → Outcome
  never : Outcome

-- A run of the decoder that ends the function with `type` and the buffer `after`; a throw leaves
-- `before`.
unfoldable pub finish : PacketType → NetWorkBuffer → NetWorkBuffer → Result ResponsePacket → Outcome
finish type before after (ok rsp cur) = returns type rsp after
finish type before after (err e cur) = throws e before
finish type before after stuck = never

-- if (...) throw TarsDecodeException(...), where the test fails.
unfoldable pub expect : Bool → M (Unit {0})
expect true = return tt
expect false = throw protocol
