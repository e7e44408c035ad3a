-- ===== src/Mvcc.antt =====
-- Transactions, snapshots and the commit log: crates/db-core.
pub mod State
pub mod Manager
pub mod Visibility
pub mod Handle
pub mod Invariant
pub mod Steps
pub mod Horizon
pub mod Persist
pub mod Begin
pub mod Vacuum
pub mod Reads
pub mod Outcome
mod Tests
