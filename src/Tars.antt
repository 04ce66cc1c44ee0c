-- ===== src/Tars.antt =====
-- The Tars wire format: src/include/client/protocol/Tars.h.
pub mod Wire
pub mod Layout
pub mod Reader
pub mod Writer
pub mod RoundTrip
mod Tests
