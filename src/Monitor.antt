-- ===== src/Monitor.antt =====
-- The device monitor: the library of examples/ffiapi/nimlib/mylib.nim and its clients in C++ and in C.
pub mod Types
pub mod Format
pub mod Provider
pub mod Session
pub mod Cpp
pub mod C
mod Tests
