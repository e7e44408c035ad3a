-- ===== src/BufferPool/Errors.antt =====
-- `BufferPoolError` of crates/common/src/error.rs, and results.
use flux_db.Common.{ℕ}

pub data BufferPoolError : Type 0 where
  page_not_found : ℕ → BufferPoolError
  pin_count_error : BufferPoolError
  no_evictable_frames : BufferPoolError
  page_corruption : ℕ → ℕ → ℕ → BufferPoolError
  disk : BufferPoolError
  wal : BufferPoolError
  internal_error : BufferPoolError

pub data Result {ℓ} (A : Type ℓ) : Type ℓ where
  ok : A → Result A
  err : BufferPoolError → Result A
