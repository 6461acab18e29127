-- ===== src/Bench.antt =====
-- The drivers under test/ffibench.
pub mod Stats
pub mod NoNim
pub mod StressMt
pub mod StressShutdown
pub mod Perf
mod Tests
