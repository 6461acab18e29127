-- ===== src/Queue.antt =====
-- brokers/internal/mt_queue.nim: the queue primitives of the brokers between threads.
pub mod Cells
pub mod Ring
pub mod Response
mod Tests
