-- ===== src/Net.antt =====
-- Bytes between the socket and the protocol: src/include/util/tc_network_buffer.h and
-- src/util/tc_network_buffer.cpp.
pub mod Buffer
mod Tests
