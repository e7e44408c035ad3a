-- ===== src/Wal/Checkpoint/Recovered.antt =====
-- A checkpoint of crates/storage/src/wal.rs through the log: `log_checkpoint`, `next_record`,
-- `parse_checkpoint`.
use flux_db.Common.{ℕ, ◌^◌, ◌<◌, ◌≡◌, some, List, [], ◌++◌, length, arith}
use flux_db.Wal.Error.{ok}
use flux_db.Wal.Record.{checkpoint, stamped}
use flux_db.Wal.Reader.{WalRecord, next_record}
use flux_db.Wal.Reader.Roundtrip.{next_record-stamped, written, RecordFits}
use flux_db.Wal.Checkpoint.{CheckpointData, checkpoint_bytes, checkpoint_body, parse_checkpoint}
use flux_db.Wal.Checkpoint.Roundtrip.{
  CheckpointFits, checkpoint_bytes_pos, from_bytes-checkpoint_bytes,
}

module _ (crc32 : List ℕ → ℕ) (crc32_bound : (bytes : List ℕ) → crc32 bytes < 2 ^ 32) where
  -- A checkpoint whose numbers keep to 64 bits, and whose payload is shorter than 2^16 bytes, comes
  -- back from the log: next_record reads its record, whatever follows it, and parse_checkpoint of that
  -- record gives the checkpoint.
  pub next_record-checkpoint :
      (lsn : ℕ) (c : CheckpointData) (rest : List ℕ)
      → lsn < 2 ^ 64
      → CheckpointFits c
      → length (checkpoint_bytes c) < 2 ^ 16
      → (rec : WalRecord) × (next_record crc32 (stamped crc32 lsn (checkpoint_body c) ++ rest)
          ≡ some (ok (rec, rest)))
        × (parse_checkpoint rec ≡ ok c)
  unfolding parse_checkpoint
  next_record-checkpoint lsn c rest bound fits short =
      let some_bytes = checkpoint_bytes_pos c in
      let keeps : RecordFits lsn 0 [] (some (checkpoint_bytes c)) = record {
        lsn_bound = bound;
        txn_bound = omega arith;
        size_bound = omega (arith, short);
        block_count = omega arith;
        blocks_fit = tt;
        main_fits = (some_bytes, short);
      } in
      (
        written crc32 crc32_bound lsn 0 [] (some (checkpoint_bytes c)) rest keeps checkpoint,
        next_record-stamped crc32 crc32_bound lsn 0 [] (some (checkpoint_bytes c)) rest keeps
            checkpoint,
        from_bytes-checkpoint_bytes c fits,
      )
