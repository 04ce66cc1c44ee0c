-- ===== src/Queues.antt =====
-- The queues between the threads of the client: src/include/client/util.
pub mod LoopQueue
pub mod TimeoutQueue
mod Tests
