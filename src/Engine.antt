-- ===== src/Engine.antt =====
-- The engine: crates/engine/src.
pub mod Txn
mod Tests
