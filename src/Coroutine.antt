-- ===== src/Coroutine.antt =====
-- The coroutines of a client thread: src/include/client/CoroutineScheduler.h and
-- src/client/CoroutineScheduler.cpp.
pub mod Links
pub mod Scheduler
mod Tests
