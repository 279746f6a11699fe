-- ===== src/Go.antt =====
-- The parts of Go's standard library and of its semantics that the code below relies on.
pub mod Result
pub mod Int
pub mod Bytes
pub mod Text
pub mod Format
