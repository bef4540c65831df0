-- ===== src/Lmdb.antt =====
-- The crate storage/lmdb: the classification of the errors of the environment, and memory sizes.
pub mod Errors
pub mod MemSize
pub mod Transaction
pub mod Resize
pub mod Open
pub mod Laws
pub mod Iter
pub mod Reads
pub mod Refines
pub mod Opens
