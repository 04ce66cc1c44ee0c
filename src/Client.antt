-- ===== src/Client.antt =====
-- The client's proxies: src/client/AdapterProxy.cpp, Transceiver.cpp, EndpointManager.cpp.
pub mod Adapter
pub mod Messages
pub mod Invocation
pub mod Sending
pub mod Connection
pub mod EndpointManager
mod Tests
