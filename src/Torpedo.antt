-- ===== src/Torpedo.antt =====
-- The torpedo duel's terminal client, examples/torpedo/cpp_example/main.cpp.
pub mod RawTerminal
pub mod Config
pub mod EventLog
pub mod Ansi
pub mod Cells
pub mod Board
pub mod Status
pub mod Screen
pub mod Messages
pub mod Session
mod Tests
