-- ===== src/TestUtils.antt =====
-- The crate test-utils: random data and directories for tests. The generator of random numbers is a parameter.
pub mod Random
pub mod Split
pub mod Text
pub mod Shuffle
pub mod Dir
