-- ===== src/BufferPool.antt =====
-- The buffer pool: crates/storage/src/buffer_pool.
pub mod Errors
pub mod Replacer
pub mod Victim
pub mod Shard
pub mod Write
pub mod Manager
pub mod Alloc
mod Tests
