-- ===== src/Sqlite.antt =====
-- storage/sqlite/src: the backend over SQLite.
pub mod Queries
pub mod Driver
pub mod Errors
pub mod Transaction
pub mod Open
pub mod Laws
pub mod Atomic
pub mod Shown
pub mod Refines
pub mod Opens
pub mod Tables
