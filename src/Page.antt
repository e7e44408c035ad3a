-- ===== src/Page.antt =====
-- The page layer: crates/storage/src/page.
pub mod Bytes
pub mod Tables
pub mod Slices
pub mod Frames
pub mod Header
pub mod Leaf
pub mod Internal
pub mod Flags
pub mod Checksum
pub mod FreeSpace
pub mod Meta
pub mod Overflow
mod Tests
