-- ===== src/Wal.antt =====
-- The write-ahead log, crates/storage/src/wal.rs.
pub mod Error
pub mod Ring
pub mod Record
pub mod State
pub mod Reader
pub mod Checkpoint
pub mod Payloads
mod Tests
