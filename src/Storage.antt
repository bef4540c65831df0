-- ===== src/Storage.antt =====
-- The crate storage: the typed interface over a backend. A schema, which the code has at the level of types, is a value
-- here, and the codec of a type is a parameter, since it is parity-scale-codec's.
pub mod Encoded
pub mod Schema
pub mod Raw
pub mod Database
