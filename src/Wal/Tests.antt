-- ===== src/Wal/Tests.antt =====
-- Runs of the write-ahead log of crates/storage/src/wal.rs.
use flux_db.Common.{ℕ, ◌≡◌, refl, none, some, List, [], ◌∷◌, ◌++◌, length, arith, true, false}
use flux_db.Page.Bytes.{write_le}
use flux_db.Page.Slices.{write_bytes}
use flux_db.Wal.Error.{ok}
use flux_db.Wal.Record.{commit, abort, body, stamped}
use flux_db.Wal.Ring.{
  WalBuffer, push_record, copy_records, consume_prefix, buffered_prefix_len, used_space, free_space,
  copy_into_ring,
}
use flux_db.Wal.Ring.Content.{Holds, place}
use flux_db.Wal.Ring.Refine.{Pushes, push_record-Pushes, Drains, drain-Drains}
use flux_db.Wal.State.{Wal, append, flush_round, finish_flush, returned, Flight}
use flux_db.Wal.State.Steps.{Config, record_append, appends, starts, syncs, Reach, here, step}
use flux_db.Wal.State.Durable.{IsDurable}
use flux_db.Wal.State.Rounds.{Rounds, flush_round-Rounds}
use flux_db.Wal.State.Keeps.{opened, opened-IsDurable, Reach-IsDurable}
use flux_db.Wal.State.Promise.{SyncedUpTo, flush_round-SyncedUpTo, finish_flush-returns}
use flux_db.Wal.Record.{Block, insert}
use flux_db.Wal.Reader.{next_record}
use flux_db.Wal.Reader.Roundtrip.{RecordFits, next_record-stamped}
use flux_db.Wal.Reader.{WalRecord}
use flux_db.Wal.Checkpoint.{CheckpointData, checkpoint_body, parse_checkpoint}
use flux_db.Wal.Checkpoint.Roundtrip.{CheckpointFits}
use flux_db.Wal.Checkpoint.Recovered.{next_record-checkpoint}

-- A ring of eight bytes whose queue wraps around: two records from position 5 on.
abbrev wrapped : WalBuffer
wrapped = record {
  bytes = 12 ∷ 21 ∷ 22 ∷ 0 ∷ 0 ∷ 9 ∷ 10 ∷ 11 ∷ [];
  read_pos = 5;
  write_pos = 3;
  records = (record { lsn = 4; len = 4 }) ∷ (record { lsn = 5; len = 2 }) ∷ [];
}

abbrev front : List (ℕ × List ℕ)
front = (4, 9 ∷ 10 ∷ 11 ∷ 12 ∷ []) ∷ []

abbrev two : List (ℕ × List ℕ)
two = front ++ (5, 21 ∷ 22 ∷ []) ∷ []

-- The ring before the second record came.
abbrev found : WalBuffer
found = record {
  bytes = 12 ∷ 0 ∷ 0 ∷ 0 ∷ 0 ∷ 9 ∷ 10 ∷ 11 ∷ [];
  read_pos = 5;
  write_pos = 1;
  records = (record { lsn = 4; len = 4 }) ∷ [];
}

found-Holds : Holds found front
unfolding place
found-Holds = record {
  read_inside = omega arith;
  entries_of = refl;
  none_empty = (omega arith, tt);
  fits = omega arith;
  write_at = refl;
  stored = λ k b. ground arith;
}

wrapped-Holds : Holds wrapped two
unfolding place
wrapped-Holds = record {
  read_inside = omega arith;
  entries_of = refl;
  none_empty = (omega arith, (omega arith, tt));
  fits = omega arith;
  write_at = refl;
  stored = λ k b. ground arith;
}

push_record-Pushes_example :
    Pushes found front 5 (21 ∷ 22 ∷ []) (push_record found 5 (21 ∷ 22 ∷ []))
push_record-Pushes_example =
    push_record-Pushes found front found-Holds 5 (21 ∷ 22 ∷ []) (omega arith)

drain-Drains_example : Drains found wrapped front ((5, 21 ∷ 22 ∷ []) ∷ [])
drain-Drains_example =
    drain-Drains found wrapped front ((5, 21 ∷ 22 ∷ []) ∷ []) found-Holds wrapped-Holds

-- A log with room for two small records.
abbrev crc : List ℕ → ℕ
crc bytes = length bytes

abbrev start : Config
start = opened none 1 64 1000

start-IsDurable : IsDurable 1 start
start-IsDurable = opened-IsDurable none 1 64 1000 (omega arith) refl

abbrev one : Config
one = record_append crc (body commit 3 [] none) start (append crc commit 3 [] none start.wal)

abbrev flight_of_one : Flight
flight_of_one = record {
  bytes_to_consume = 28;
  durable_lsn = 1;
  flight_records = (1, stamped crc 1 (body commit 3 [] none)) ∷ [];
}

abbrev flushing : Config
flushing = record one {
  wal = record one.wal { is_flushing = true; flush_active = true };
  flight = some flight_of_one;
}

-- The second record comes while the first is flushed.
abbrev both : Config
both = record_append crc (body abort 4 [] none) flushing (append crc abort 4 [] none flushing.wal)

Reach-one : Reach crc start one
Reach-one = step here (appends commit 3 [] none (omega arith))

-- What the runs evaluate.
program : Unit {0}
unfolding append stamped flush_round finish_flush buffered_prefix_len used_space free_space
    copy_into_ring push_record copy_records consume_prefix write_le write_bytes
program = tt

Reach-flushing : Reach crc start flushing
unfolding program
Reach-flushing = step Reach-one (starts 1 flight_of_one flushing.wal (omega arith) refl)

Reach-both : Reach crc start both
unfolding program
Reach-both = step Reach-flushing (appends abort 4 [] none (omega arith))

Reach-IsDurable_example : IsDurable 1 both
Reach-IsDurable_example = Reach-IsDurable crc 1 start both start-IsDurable Reach-both

abbrev synced_one : Config
synced_one = record both {
  wal = record both.wal {
    buffer = record both.wal.buffer {
      read_pos = 28;
      records = (record { lsn = 2; len = 28 }) ∷ [];
    };
    is_flushing = false;
    flush_active = false;
    flushed_lsn = 1;
  };
  flight = none;
  synced = flight_of_one.flight_records;
}

Reach-synced : Reach crc start synced_one
unfolding program
Reach-synced = step Reach-both (syncs flight_of_one synced_one.wal refl refl)

flush_round-SyncedUpTo_example : SyncedUpTo 1 synced_one
unfolding program
flush_round-SyncedUpTo_example =
    flush_round-SyncedUpTo crc 1 start synced_one start-IsDurable Reach-synced 1 synced_one.wal
      (omega arith) refl

one-IsDurable : IsDurable 1 one
one-IsDurable = Reach-IsDurable crc 1 start one start-IsDurable Reach-one

flush_round-Rounds_example : Rounds one 1 one-IsDurable.content (flush_round 1 one.wal)
unfolding program
flush_round-Rounds_example = flush_round-Rounds 1 one 1 (omega arith) one-IsDurable

finish_flush-returns_example :
    (wal : Wal) × (finish_flush true flight_of_one both.wal ≡ some wal)
    × (flush_round 1 wal ≡ returned (ok tt) wal)
unfolding program
finish_flush-returns_example =
    finish_flush-returns 1 both flight_of_one 1
      (Reach-IsDurable crc 1 start both start-IsDurable Reach-both) refl (omega arith)

-- An insert that touches two pages.
abbrev two_blocks : List Block
two_blocks =
    (record { page_id = 300; blk_flags = 2; fpi = none; data_bytes = some (1 ∷ 2 ∷ 3 ∷ []) })
    ∷ (record { page_id = 7; blk_flags = 0; fpi = none; data_bytes = none })
    ∷ []

abbrev crc_of_one : List ℕ → ℕ
crc_of_one bytes = 4711

two_blocks-RecordFits : RecordFits 513 9 two_blocks (some (8 ∷ []))
two_blocks-RecordFits = record {
  lsn_bound = omega arith;
  txn_bound = omega arith;
  size_bound = omega arith;
  block_count = omega arith;
  blocks_fit = (
    record { id_bound = omega arith; image_fits = refl; data_fits = (omega arith, omega arith) },
    (record { id_bound = omega arith; image_fits = refl; data_fits = tt }, tt),
  );
  main_fits = (omega arith, omega arith);
}

next_record-stamped_example :
    next_record crc_of_one
      (stamped crc_of_one 513 (body insert 9 two_blocks (some (8 ∷ []))) ++ 5 ∷ [])
    ≡ some (
        ok (
          record {
            lsn = 513;
            rec_len = 54;
            entry_type = insert;
            txn_id = 9;
            blocks = two_blocks;
            main_data = some (8 ∷ []);
          },
          5 ∷ [],
        ))
next_record-stamped_example =
    next_record-stamped crc_of_one (λ bytes. omega arith) 513 9 two_blocks (some (8 ∷ [])) (5 ∷ [])
      two_blocks-RecordFits insert

abbrev one_checkpoint : CheckpointData
one_checkpoint = record {
  redo_point = 77;
  next_txn_id = 12;
  vacuum_horizon = 3;
  root_pid = 5;
  next_page_id = 40;
  active_txns = 9 ∷ 11 ∷ [];
  pinned_aborted = 4 ∷ [];
}

one_checkpoint-CheckpointFits : CheckpointFits one_checkpoint
one_checkpoint-CheckpointFits = record {
  redo_bound = omega arith;
  txn_bound = omega arith;
  horizon_bound = omega arith;
  root_bound = omega arith;
  page_bound = omega arith;
  active_ids = (omega arith, (omega arith, tt));
  aborted_ids = (omega arith, tt);
  active_count = omega arith;
  aborted_count = omega arith;
}

next_record-checkpoint_example :
    (rec : WalRecord) × (next_record crc_of_one
        (stamped crc_of_one 78 (checkpoint_body one_checkpoint) ++ 1 ∷ [])
      ≡ some (ok (rec, 1 ∷ [])))
    × (parse_checkpoint rec ≡ ok one_checkpoint)
unfolding program
next_record-checkpoint_example =
    next_record-checkpoint crc_of_one (λ bytes. omega arith) 78 one_checkpoint (1 ∷ [])
      (omega arith) one_checkpoint-CheckpointFits (omega arith)
