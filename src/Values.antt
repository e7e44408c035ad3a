-- ===== src/Values.antt =====
-- The encodings of keys and values: crates/common/src/types.rs.
pub mod Varint
pub mod Value
pub mod Scalars
pub mod Options
pub mod Vecs
pub mod Keys
pub mod Texts
pub mod Names
mod Tests
