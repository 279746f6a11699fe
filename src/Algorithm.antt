-- ===== src/Algorithm.antt =====
-- algorithm/algorithm.go
pub mod Words
pub mod Primitives
pub mod Cipher
pub mod Address
mod Tests
