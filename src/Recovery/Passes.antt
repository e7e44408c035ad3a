-- ===== src/Recovery/Passes.antt =====
-- The superblock and the first pass of crates/storage/src/recovery/mod.rs.
use flux_db.Common.{ℕ, ◌&&◌, Option, none, some, List, [], ◌∷◌, length, ◌==◌, if◌then◌else◌}
use flux_db.Page.Bytes.{read_le}
use flux_db.Page.Overflow.{PageError}
use flux_db.Wal.Error.{WalError, corrupted_log}
use flux_db.Wal.Error
use flux_db.Wal.Reader.{WalRecord}
use flux_db.Wal.Checkpoint.{CheckpointData, is_checkpoint, parse_checkpoint}
use flux_db.BufferPool.Errors.{BufferPoolError}

-- `IndexError` of crates/common/src/error.rs
pub data IndexError : Type 0 where
  key_not_found : IndexError
  key_too_large : (size limit : ℕ) → IndexError
  value_too_large : (size limit : ℕ) → IndexError
  duplicate_key : IndexError
  write_conflict : IndexError
  unexpected_page_type : (expected found : ℕ) → IndexError
  buffer_pool : BufferPoolError → IndexError
  page_error : PageError → IndexError
  wal_error : WalError → IndexError
  wait_for : ℕ → IndexError
  corrupt_metadata : IndexError

pub data Result {ℓ} (A : Type ℓ) : Type ℓ where
  ok : A → Result A
  err : IndexError → Result A

-- What reading the superblock's file gives.
pub data FileRead : Type 0 where
  contents : List ℕ → FileRead
  not_found : FileRead
  unreadable : FileRead

pub data SuperblockState : Type 0 where
  missing : SuperblockState
  invalid : SuperblockState
  valid : ℕ → SuperblockState

unfoldable pub read_superblock : FileRead → SuperblockState
read_superblock not_found = missing
read_superblock unreadable = invalid
read_superblock (contents bytes) = if length bytes == 8 then valid (read_le 8 bytes 0) else invalid

-- What an iterator over the log gives: records, and the errors of reading one.
abbrev pub Items : Type 0
Items = List (Error.Result WalRecord)

-- An unreadable checkpoint is logged, and none.
abbrev pub parsed : Error.Result CheckpointData → Option CheckpointData
parsed (Error.ok checkpoint_data) = some checkpoint_data
parsed (Error.err e) = none

-- The first pass, for the LSN that the superblock names.
unfoldable pub find_checkpoint : ℕ → Items → Result (Option CheckpointData)
unfolding parse_checkpoint
find_checkpoint target_lsn [] = ok none
find_checkpoint target_lsn (Error.err e ∷ items) = err (wal_error e)
find_checkpoint target_lsn (Error.ok rec ∷ items) =
    let later = find_checkpoint target_lsn items in
    if is_checkpoint rec.entry_type && (rec.lsn == target_lsn)
    then ok (parsed (parse_checkpoint rec))
    else later
