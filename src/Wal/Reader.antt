-- ===== src/Wal/Reader.antt =====
-- `next_record` of `WalIterator` in crates/storage/src/wal.rs, on the bytes that are left of a segment.

pub mod Laws
pub mod Blocks
pub mod Roundtrip
use flux_db.Common.{
  ℕ, zero, suc, ◌+◌, ◌%◌, Option, none, some, List, [], ◌∷◌, ◌++◌, length, get_or, take, drop, ltb,
  ◌==◌, if◌then◌else◌,
}
use flux_db.Page.Bytes.{read_le}
use flux_db.Wal.Error.{Result, ok, err, io, checksum_mismatch}
use flux_db.Wal.Record.{WalRecordType, try_from, Block, bytes_of}

pub record WalRecord : Type 0 where
  pub lsn : ℕ
  pub rec_len : ℕ
  pub entry_type : WalRecordType
  pub txn_id : ℕ
  pub blocks : List Block
  pub main_data : Option (List ℕ)

-- `read_exact` of `n` bytes, and what follows: an error if the segment ends before them.
unfoldable pub read_exact : {A : Type 0} → ℕ → List ℕ → (List ℕ → List ℕ → Result A) → Result A
read_exact n bytes next =
    if ltb (length bytes) n then err io else next (take n bytes) (drop n bytes)

-- A part that is there only on a condition.
unfoldable pub read_part :
    {A : Type 0} → Option ℕ → List ℕ → (Option (List ℕ) → List ℕ → Result A) → Result A
read_part none bytes next = next none bytes
read_part (some n) bytes next = read_exact n bytes (λ part left. next (some part) left)

-- The parts of a block that its flags and its length announce.
abbrev pub image_part : ℕ → Option ℕ
image_part blk_flags = if blk_flags % 2 == 1 then some 4096 else none

abbrev pub sized_part : ℕ → Option ℕ
sized_part n = if ltb 0 n then some n else none

-- One block, with what the checksum has read before it; both go on behind it.
unfoldable pub read_block :
    {A : Type 0} → List ℕ → List ℕ → (Block → List ℕ → List ℕ → Result A) → Result A
read_block hashed bytes next = read_exact 8 bytes (λ page_id_buf left.
    read_exact 1 left (λ blk_flags_buf left. read_exact 2 left (λ data_len_buf left.
      let blk_flags = get_or blk_flags_buf 0 0 in
      read_part (image_part blk_flags) left (λ fpi left.
        read_part (sized_part (read_le 2 data_len_buf 0)) left (λ data_bytes left.
          next
            (record {
              page_id = read_le 8 page_id_buf 0;
              blk_flags = blk_flags;
              fpi = fpi;
              data_bytes = data_bytes;
            })
            (hashed
              ++ (page_id_buf
                  ++ blk_flags_buf
                  ++ data_len_buf
                  ++ bytes_of fpi
                  ++ bytes_of data_bytes))
            left)))))

unfoldable pub read_blocks :
    {A : Type 0} → ℕ → List ℕ → List ℕ → (List Block → List ℕ → List ℕ → Result A) → Result A
read_blocks zero hashed bytes next = next [] hashed bytes
read_blocks (suc n) hashed bytes next = read_block hashed bytes (λ block hashed' left.
    read_blocks n hashed' left (λ blocks hashed'' left'. next (block ∷ blocks) hashed'' left'))

-- The checksum, and the record if it is right.
unfoldable pub read_checked :
    (List ℕ → ℕ) → WalRecord → List ℕ → List ℕ → Result (WalRecord × List ℕ)
read_checked crc32 rec hashed bytes = read_exact 4 bytes (λ checksum_buf left.
    if crc32 hashed == read_le 4 checksum_buf 0
    then ok (rec, left)
    else err (checksum_mismatch rec.lsn (read_le 4 checksum_buf 0) (crc32 hashed)))

unfoldable pub read_typed :
    (List ℕ → ℕ) → List ℕ → List ℕ → List ℕ → WalRecordType → List ℕ → Result (WalRecord × List ℕ)
read_typed crc32 lsn_buf rec_len_buf type_buf entry_type bytes =
    read_exact 1 bytes (λ nblocks_buf left. read_exact 8 left (λ txn_id_buf left.
      read_exact 2 left (λ main_len_buf left.
        read_blocks (get_or nblocks_buf 0 0)
          (lsn_buf ++ (rec_len_buf ++ type_buf ++ nblocks_buf ++ txn_id_buf ++ main_len_buf)) left
          (λ blocks hashed left.
            read_part (sized_part (read_le 2 main_len_buf 0)) left (λ main_data left.
              read_checked crc32
                (record {
                  lsn = read_le 8 lsn_buf 0;
                  rec_len = read_le 4 rec_len_buf 0;
                  entry_type = entry_type;
                  txn_id = read_le 8 txn_id_buf 0;
                  blocks = blocks;
                  main_data = main_data;
                })
                (hashed ++ bytes_of main_data) left)))))

-- The record at the front of the bytes.
unfoldable pub read_record : (List ℕ → ℕ) → List ℕ → Result (WalRecord × List ℕ)
read_record crc32 bytes = read_exact 8 bytes (λ lsn_buf left. read_exact 4 left (λ rec_len_buf left.
    read_exact 1 left (λ type_buf left. elim (try_from (get_or type_buf 0 0)) [
      | err e ↦ err e
      | ok entry_type ↦ read_typed crc32 lsn_buf rec_len_buf type_buf entry_type left
    ])))

-- The record and the bytes behind it; none where the segment ends.
unfoldable pub next_record : (List ℕ → ℕ) → List ℕ → Option (Result (WalRecord × List ℕ))
next_record crc32 [] = none
next_record crc32 (b ∷ bytes) = some (read_record crc32 (b ∷ bytes))
