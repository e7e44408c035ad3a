-- ===== src/Wal/Record.antt =====
-- The records of crates/storage/src/wal.rs as `append` serializes them.
use flux_db.Common.{
  ℕ, ◌+◌, ◌%◌, ◌^◌, ◌≡◌, Option, none, some, List, [], ◌∷◌, ◌++◌, length, length-append, arith,
  ◌==◌, if◌then◌else◌,
}
use flux_db.Wal.Error.{Result, ok, err, invalid_entry_type}
use flux_db.Values.Scalars.{to_le_bytes, length-to_le_bytes}

pub data WalRecordType : Type 0 where
  insert : WalRecordType
  set_x_max : WalRecordType
  commit : WalRecordType
  abort : WalRecordType
  leaf_split : WalRecordType
  internal_s_plit : WalRecordType
  insert_down_link : WalRecordType
  new_root : WalRecordType
  page_compact : WalRecordType
  mark_half_dead : WalRecordType
  unlink_page : WalRecordType
  checkpoint : WalRecordType
  overflow_write : WalRecordType
  overflow_free : WalRecordType

-- `entry_type as u8`
abbrev pub as_u8 : WalRecordType → ℕ
as_u8 insert = 0
as_u8 set_x_max = 1
as_u8 commit = 2
as_u8 abort = 3
as_u8 leaf_split = 4
as_u8 internal_s_plit = 5
as_u8 insert_down_link = 6
as_u8 new_root = 7
as_u8 page_compact = 8
as_u8 mark_half_dead = 9
as_u8 unlink_page = 10
as_u8 checkpoint = 11
as_u8 overflow_write = 12
as_u8 overflow_free = 13

unfoldable pub try_from : ℕ → Result WalRecordType
try_from value =
    if value == 0
    then ok insert
    else if value == 1
    then ok set_x_max
    else if value == 2
    then ok commit
    else if value == 3
    then ok abort
    else if value == 4
    then ok leaf_split
    else if value == 5
    then ok internal_s_plit
    else if value == 6
    then ok insert_down_link
    else if value == 7
    then ok new_root
    else if value == 8
    then ok page_compact
    else if value == 9
    then ok mark_half_dead
    else if value == 10
    then ok unlink_page
    else if value == 11
    then ok checkpoint
    else if value == 12
    then ok overflow_write
    else if value == 13
    then ok overflow_free
    else err (invalid_entry_type value)

pub record Block : Type 0 where
  pub page_id : ℕ
  pub blk_flags : ℕ
  pub fpi : Option (List ℕ)
  pub data_bytes : Option (List ℕ)

-- The bytes of an optional part, none without it.
abbrev pub bytes_of : Option (List ℕ) → List ℕ
bytes_of none = []
bytes_of (some bytes) = bytes

abbrev pub block_size : Block → ℕ
block_size block =
    let with_fpi : ℕ = elim block.fpi [ none ↦ 11 | some image ↦ 11 + 4096 ] in
    with_fpi + length (bytes_of block.data_bytes)

abbrev pub blocks_size : List Block → ℕ
blocks_size [] = 0
blocks_size (block ∷ rest) = block_size block + blocks_size rest

abbrev pub record_size : List Block → Option (List ℕ) → ℕ
record_size blocks main_data = 24 + blocks_size blocks + length (bytes_of main_data) + 4

abbrev pub block_bytes : Block → List ℕ
block_bytes block =
    to_le_bytes 8 block.page_id
    ++ block.blk_flags ∷ []
    ++ to_le_bytes 2 (length (bytes_of block.data_bytes) % 2 ^ 16)
    ++ bytes_of block.fpi
    ++ bytes_of block.data_bytes

abbrev pub all_block_bytes : List Block → List ℕ
all_block_bytes [] = []
all_block_bytes (block ∷ rest) = block_bytes block ++ all_block_bytes rest

-- What a record has behind its LSN and before its checksum.
abbrev pub body : WalRecordType → ℕ → List Block → Option (List ℕ) → List ℕ
body entry_type txn_id blocks main_data =
    to_le_bytes 4 (record_size blocks main_data % 2 ^ 32)
    ++ as_u8 entry_type ∷ []
    ++ (length blocks % 2 ^ 8) ∷ []
    ++ to_le_bytes 8 txn_id
    ++ to_le_bytes 2 (length (bytes_of main_data) % 2 ^ 16)
    ++ all_block_bytes blocks
    ++ bytes_of main_data

module _ (crc32 : List ℕ → ℕ) where
  -- The checksum is that of the LSN and the body.
  unfoldable pub stamped : ℕ → List ℕ → List ℕ
  stamped lsn bytes =
      let numbered = to_le_bytes 8 lsn ++ bytes in numbered ++ to_le_bytes 4 (crc32 numbered)

  pub length-stamped : (lsn : ℕ) (bytes : List ℕ) → length (stamped lsn bytes) ≡ length bytes + 12
  unfolding stamped
  length-stamped lsn bytes =
      let numbered = to_le_bytes 8 lsn ++ bytes in
      omega (
        arith,
        length-append numbered (to_le_bytes 4 (crc32 numbered)),
        length-append (to_le_bytes 8 lsn) bytes,
        length-to_le_bytes 8 lsn,
        length-to_le_bytes 4 (crc32 numbered),
      )
