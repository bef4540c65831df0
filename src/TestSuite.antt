-- ===== src/TestSuite.antt =====
-- The crate storage/backend-test-suite: the reference model of one map, and the tests that every backend is
-- to pass, as functions of the backend. A test that fails panics.
pub mod Model
pub mod Harness
pub mod Property
pub mod Basic
pub mod Entries
pub mod Prefixes
pub mod Concurrent
