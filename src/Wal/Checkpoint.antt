-- ===== src/Wal/Checkpoint.antt =====
-- The payload of a checkpoint record, crates/storage/src/wal.rs: `log_checkpoint` and `CheckpointData`.
pub mod Roundtrip
pub mod Recovered
use flux_db.Common.{
  Bool, true, false, not, none, some, ℕ, zero, suc, ◌-◌, ◌/◌, ◌%◌, ◌^◌, List, [], ◌∷◌, ◌++◌, length,
  drop, ltb, ◌==◌, if◌then◌else◌,
}
use flux_db.Page.Bytes.{read_le}
use flux_db.Values.Scalars.{to_le_bytes}
use flux_db.Wal.Reader.{WalRecord}
use flux_db.Wal.Record.{WalRecordType, checkpoint, body}
use flux_db.Wal.Error.{Result, ok, err, corrupted_log}

pub record CheckpointData : Type 0 where
  pub redo_point : ℕ
  pub next_txn_id : ℕ
  pub vacuum_horizon : ℕ
  pub root_pid : ℕ
  pub next_page_id : ℕ
  pub active_txns : List ℕ
  pub pinned_aborted : List ℕ

abbrev pub ids_bytes : List ℕ → List ℕ
ids_bytes [] = []
ids_bytes (id ∷ rest) = to_le_bytes 8 id ++ ids_bytes rest

-- The main data that `log_checkpoint` writes.
abbrev pub checkpoint_bytes : CheckpointData → List ℕ
checkpoint_bytes data_of =
    to_le_bytes 8 data_of.redo_point
    ++ to_le_bytes 8 data_of.next_txn_id
    ++ to_le_bytes 8 data_of.vacuum_horizon
    ++ to_le_bytes 8 data_of.root_pid
    ++ to_le_bytes 8 data_of.next_page_id
    ++ to_le_bytes 4 (length data_of.active_txns % 2 ^ 32)
    ++ ids_bytes data_of.active_txns
    ++ to_le_bytes 4 (length data_of.pinned_aborted % 2 ^ 32)
    ++ ids_bytes data_of.pinned_aborted

-- The ids of an array, from the bytes from its position on, and the bytes behind it.
unfoldable pub read_ids : ℕ → List ℕ → Result (List ℕ × List ℕ)
read_ids zero left = ok ([], left)
read_ids (suc n) left =
    let more = read_ids n (drop 8 left) in
    if ltb (length left) 8
    then err corrupted_log
    else elim more [ err e ↦ err e | ok (ids, rest) ↦ ok (read_le 8 left 0 ∷ ids, rest) ]

-- The count of an array and the array, with `reserved` bytes that must come behind it.
unfoldable pub read_counted : ℕ → List ℕ → Result (List ℕ × List ℕ)
read_counted reserved left =
    let count = read_le 4 left 0 in
    let rest = drop 4 left in
    if ltb (length left) 4
    then err corrupted_log
    else if ltb ((length rest - reserved) / 8) count
    then err corrupted_log
    else read_ids count rest

-- The arrays, and that nothing comes behind them.
unfoldable pub read_arrays : List ℕ → Result (List ℕ × List ℕ)
read_arrays left = elim (read_counted 4 left) [
  | err e ↦ err e
  | ok (active, rest) ↦ elim (read_counted 0 rest) [
    | err e ↦ err e
    | ok (aborted, end) ↦ if length end == 0 then ok (active, aborted) else err corrupted_log
  ]
]

unfoldable pub from_bytes : List ℕ → Result CheckpointData
from_bytes bytes =
    let at8 = drop 8 bytes in
    let at16 = drop 8 at8 in
    let at24 = drop 8 at16 in
    let at32 = drop 8 at24 in
    if ltb (length bytes) 48 then err corrupted_log else elim (read_arrays (drop 8 at32)) [
      | err e ↦ err e
      | ok (active, aborted) ↦ ok (record {
        redo_point = read_le 8 bytes 0;
        next_txn_id = read_le 8 at8 0;
        vacuum_horizon = read_le 8 at16 0;
        root_pid = read_le 8 at24 0;
        next_page_id = read_le 8 at32 0;
        active_txns = active;
        pinned_aborted = aborted;
      })
    ]

-- `CheckpointData::empty`
abbrev pub empty : CheckpointData
empty = record {
  redo_point = 0;
  next_txn_id = 1;
  vacuum_horizon = 0;
  root_pid = 0;
  next_page_id = 0;
  active_txns = [];
  pinned_aborted = [];
}

abbrev pub is_checkpoint : WalRecordType → Bool
is_checkpoint checkpoint = true
is_checkpoint _ = false

unfoldable pub parse_checkpoint : WalRecord → Result CheckpointData
parse_checkpoint rec =
    if not (is_checkpoint rec.entry_type)
    then err corrupted_log
    else elim rec.main_data [ none ↦ err corrupted_log | some bytes ↦ from_bytes bytes ]

-- The body of the record of a checkpoint, as `log_checkpoint` has `append` make it.
abbrev pub checkpoint_body : CheckpointData → List ℕ
checkpoint_body data_of = body checkpoint 0 [] (some (checkpoint_bytes data_of))
