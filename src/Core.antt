-- ===== src/Core.antt =====
-- The crate storage/core: errors, the types that identify maps, the prefix iterator, the interface
-- of a backend, and the adaptor that adds transactions.
pub mod Data
pub mod Error
pub mod Exec
pub mod Types
pub mod Util
pub mod Backend
pub mod Contract
pub mod Locking
pub mod Sessions
