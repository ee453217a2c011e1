-- ===== src/Queue.antt =====
-- internal/queue.
pub mod Ring
pub mod Heap
pub mod Policy
pub mod Table
pub mod Broker
pub mod Samples
mod Tests
