-- ===== src/Wal/Error.antt =====
-- `WalError` of crates/common/src/error.rs, without the texts of its messages, and results.
use flux_db.Common.{ℕ}

pub data WalError : Type 0 where
  io : WalError
  corrupted_log : WalError
  invalid_entry_type : ℕ → WalError
  checksum_mismatch : (lsn expected actual : ℕ) → WalError
  record_too_large : (lsn record_len capacity : ℕ) → WalError
  buffer_full : (needed available : ℕ) → WalError
  flush_failed : WalError
  invalid_lsn : WalError
  disk : WalError

pub data Result {ℓ} (A : Type ℓ) : Type ℓ where
  ok : A → Result A
  err : WalError → Result A
