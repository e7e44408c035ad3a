-- ===== src/Recovery.antt =====
-- Crash recovery, crates/storage/src/recovery/mod.rs.
pub mod Apply
pub mod Fields
pub mod Logs
pub mod Passes
pub mod Replays
pub mod Sizes
pub mod Gate
pub mod Scan
pub mod Follows
pub mod Mixed
pub mod Advance
pub mod Restart
pub mod Outcomes
pub mod Collects
pub mod Settle
pub mod Succeeds
pub mod Victims
pub mod Rerun
mod Tests
