-- ===== src/Persist.antt =====
-- The library of examples/persistence with its client in C++: backends under a facade, each with a
-- context of its own.
pub mod Server
pub mod Client
mod Tests
