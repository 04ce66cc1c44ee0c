-- ===== src/Protocol.antt =====
-- The protocols that put packets on a connection: src/include/client/AppProtocol.h and
-- src/client/AppProtocol.cpp at the client, and class Current of src/client/Current.cpp at the
-- server.
pub mod Frame
pub mod Outcome
pub mod Heads
pub mod Responses
pub mod Current
pub mod Requests
pub mod Replies
pub mod HeadReads
pub mod Partial
pub mod Calls
mod Tests
