-- ===== src/Hier.antt =====
-- The library of examples/ffiapi/hierlib with its client: a main interface, and widgets as instances of
-- their own.
pub mod Impl
pub mod Client
pub mod Asserts
mod Tests
