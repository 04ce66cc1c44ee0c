-- ===== src/Packet.antt =====
-- The RPC packets and their frames: include/client/protocol/RequestF.h.
pub mod Maps
pub mod Request
pub mod Response
mod Tests
