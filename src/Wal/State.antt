-- ===== src/Wal/State.antt =====
-- `Wal` of crates/storage/src/wal.rs: `append` and the rounds of `flush_up_to`. A lock's section is one
-- function on the shared state; of `flush_error` there is only whether it is set.
pub mod Appends
pub mod Steps
pub mod Durable
pub mod Rounds
pub mod Keeps
pub mod Promise
use Prim.Native.Nat.{min}
use flux_db.Common.{
  ℕ, ◌+◌, ◌-◌, ◌%◌, ◌^◌, Bool, true, false, Option, none, some, List, ◌++◌, length, ltb, leb,
  if◌then◌else◌,
}
use flux_db.Wal.Error.{Result, ok, err, record_too_large, buffer_full, flush_failed}
use flux_db.Wal.Record.{WalRecordType, Block, record_size, body, stamped}
use flux_db.Wal.Ring.{
  WalBuffer, with_capacity, free_space, push_record, buffered_prefix_len, copy_records,
  consume_prefix,
}
use flux_db.Values.Scalars.{to_le_bytes}

pub record Wal : Type 0 where
  pub buffer : WalBuffer
  pub is_flushing : Bool
  pub flush_error : Bool
  pub flushed_lsn : ℕ
  pub failed : Bool
  pub flush_active : Bool
  pub segment_size : ℕ
  pub buffer_capacity : ℕ
  pub next_lsn : ℕ

-- The shared state that `new_with_options` ends with, of what it has read from the segments.
abbrev pub open_wal : (next_lsn : ℕ) → Option ℕ → (buffer_capacity segment_size : ℕ) → Wal
open_wal next_lsn flushed_lsn buffer_capacity segment_size = record {
  buffer = with_capacity buffer_capacity;
  is_flushing = false;
  flush_error = false;
  flushed_lsn = elim flushed_lsn [ none ↦ 0 | some lsn ↦ lsn ];
  failed = false;
  flush_active = false;
  segment_size = segment_size;
  buffer_capacity = buffer_capacity;
  next_lsn = next_lsn;
}

module _ (crc32 : List ℕ → ℕ) where
  -- The section under the lock, for a record that is serialized up to its LSN and its checksum. The
  -- LSN is taken only when the record is known to fit.
  unfoldable pub append_body : List ℕ → Wal → Result ℕ × Wal
  append_body bytes wal =
      let needed = length (to_le_bytes 8 0 ++ bytes) + 4 in
      let lsn = wal.next_lsn in
      let numbered = record wal { next_lsn = (lsn + 1) % 2 ^ 64 } in
      if wal.flush_error
      then (err flush_failed, wal)
      else if ltb (free_space wal.buffer) needed
      then (err (buffer_full needed (free_space wal.buffer)), wal)
      else elim (push_record wal.buffer lsn (stamped crc32 lsn bytes)) [
        | err e ↦ (err e, numbered)
        | ok pushed ↦ (ok lsn, record numbered { buffer = pushed })
      ]

  unfoldable pub append : WalRecordType → ℕ → List Block → Option (List ℕ) → Wal → Result ℕ × Wal
  unfolding append_body
  append entry_type txn_id blocks main_data wal =
      let size = record_size blocks main_data in
      let max_allowed_size = min wal.segment_size wal.buffer_capacity in
      if ltb wal.segment_size size
      then (err (record_too_large 0 size wal.segment_size), wal)
      else if ltb max_allowed_size size
      then (err (record_too_large wal.next_lsn size max_allowed_size), wal)
      else append_body (body entry_type txn_id blocks main_data) wal

-- The target of `flush_up_to lsn`: no LSN that has not been given out; 0 is nothing to flush.
abbrev pub flush_target : ℕ → Wal → ℕ
flush_target lsn wal = min lsn (wal.next_lsn - 1)

-- What the leader of a flush takes along when it gives up the lock.
pub record Flight : Type 0 where
  pub bytes_to_consume : ℕ
  pub durable_lsn : ℕ
  pub flight_records : List (ℕ × List ℕ)

-- What a round of the loop comes to.
pub data Round : Type 0 where
  returned : Result (Unit {0}) → Wal → Round
  parked : Wal → Round
  leads : Flight → Wal → Round
  panicked : Round

-- The round, for a target that is not 0; as the leader, up to where it gives up the lock.
unfoldable pub flush_round : ℕ → Wal → Round
flush_round target wal =
    if leb target wal.flushed_lsn
    then returned (ok tt) wal
    else if wal.flush_error
    then returned (err flush_failed) wal
    else if wal.is_flushing
    then parked wal
    else elim (buffered_prefix_len wal.buffer) [
      | none ↦ returned (ok tt) (record wal { is_flushing = false; flush_active = false })
      | some (bytes, lsn) ↦ elim (copy_records wal.buffer) [
        | none ↦ panicked
        | some recs ↦
            leads (record { bytes_to_consume = bytes; durable_lsn = lsn; flight_records = recs })
              (record wal { is_flushing = true; flush_active = true })
      ]
    ]

-- The leader with the lock again, and whether all its records are written and synced.
unfoldable pub finish_flush : Bool → Flight → Wal → Option Wal
finish_flush true flight wal = elim (consume_prefix wal.buffer flight.bytes_to_consume) [
  | none ↦ none
  | some buffer ↦ some (record wal {
    buffer = buffer;
    is_flushing = false;
    flush_active = false;
    flushed_lsn = flight.durable_lsn;
  })
]
finish_flush false flight wal =
    some
      (record wal { is_flushing = false; flush_active = false; flush_error = true; failed = true })
