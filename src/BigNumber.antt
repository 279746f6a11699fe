-- ===== src/BigNumber.antt =====
-- bignumber_v1.0: the older number package.
pub mod Wrap
pub mod Ex
pub mod Text
pub mod Laws
mod Tests
