-- ===== src/Extapi.antt =====
-- The EXTAPI examples in C++.
pub mod Abi
pub mod Codec
pub mod Plugin
pub mod HostLib
mod Tests
