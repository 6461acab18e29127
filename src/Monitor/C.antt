-- ===== src/Monitor/C.antt =====
-- The client examples/ffiapi/example/main.c and the interface of mylib.h that it uses.
pub mod Types
pub mod Callbacks
pub mod Queries
pub mod Main
pub mod Sound
pub mod Frees
pub mod Freed
pub mod Bound
