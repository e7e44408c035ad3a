-- ===== src/Recovery/Scan.antt =====
-- The scans and the end of `RecoveryManager::recover`, crates/storage/src/recovery/mod.rs.
use Prim.Native.Nat.{max}
use flux_db.Common.{
  ℕ, zero, suc, ◌-◌, ◌/◌, ◌%◌, Bool, not, ◌&&◌, Option, none, some, List, [], ◌∷◌, ◌++◌, length,
  drop, ltb, ◌==◌, if◌then◌else◌, contains,
}
use flux_db.Values.Keys.{Key}
use flux_db.Page.Bytes.{read_le}
use flux_db.Page.Overflow.{PageError}
use flux_db.Page.Overflow
use flux_db.Wal.Error.{WalError, corrupted_log}
use flux_db.Wal.Error
use flux_db.Wal.Record.{WalRecordType, Block, commit, abort, checkpoint, overflow_free}
use flux_db.Wal.Reader.{WalRecord}
use flux_db.Wal.Checkpoint.{CheckpointData}
use flux_db.Mvcc.State.{TransactionManager}
use flux_db.Mvcc.Manager.{
  u64_add, mark_committed, mark_aborted, is_committed, is_aborted, seed_clog_from_checkpoint,
  publish_vacuum_horizon,
}
use flux_db.Recovery.Apply.{Pages, redo_record}
use flux_db.Recovery.Passes.{
  page_error, wal_error, ok, err, missing, invalid, valid, Result, FileRead, SuperblockState,
  read_superblock, Items, find_checkpoint,
}

-- `chunks_exact(8)`, of so many chunks
unfoldable pub page_ids : ℕ → List ℕ → List ℕ
page_ids zero bytes = []
page_ids (suc n) bytes = read_le 8 bytes 0 ∷ page_ids n (drop 8 bytes)

-- The pages that `redo_overflow_free` deletes.
unfoldable pub redo_overflow_free : WalRecord → Result (List ℕ)
unfolding page_ids
redo_overflow_free rec = elim rec.main_data [
  | none ↦ err (wal_error corrupted_log)
  | some bytes ↦
      if length bytes % 8 == 0
      then ok (page_ids (length bytes / 8) bytes)
      else err (wal_error corrupted_log)
]

abbrev pub max_block : ℕ → List Block → ℕ
max_block page_id [] = page_id
max_block page_id (block ∷ blocks) = max_block (max page_id block.page_id) blocks

-- `u64::saturating_sub` of one, or 0 without a checkpoint
abbrev pub before_next : Option ℕ → ℕ
before_next none = 0
before_next (some next) = next - 1

abbrev pub next_of : ℕ → Option ℕ → ℕ
next_of highest none = u64_add highest 1
next_of highest (some next) = max next (u64_add highest 1)

-- The loop that marks crash victims.
unfoldable pub settle_victims : List ℕ → TransactionManager → TransactionManager
unfolding is_committed is_aborted mark_aborted
settle_victims [] tm = tm
settle_victims (txn_id ∷ ids) tm = settle_victims ids (
    if not (is_committed tm txn_id) && not (is_aborted tm txn_id)
    then mark_aborted txn_id tm
    else tm)

-- The set of ids as a list.
abbrev pub see : ℕ → List ℕ → List ℕ
see txn_id seen = if contains seen txn_id then seen else txn_id ∷ seen

abbrev pub redo_point_of : Option CheckpointData → ℕ
redo_point_of none = 0
redo_point_of (some ckpt) = ckpt.redo_point

abbrev pub seeded : Option CheckpointData → TransactionManager → TransactionManager
seeded none tm = tm
seeded (some ckpt) tm =
    publish_vacuum_horizon ckpt.vacuum_horizon (seed_clog_from_checkpoint ckpt.pinned_aborted tm)

abbrev pub next_txn_of : Option CheckpointData → Option ℕ
next_txn_of none = none
next_txn_of (some ckpt) = some ckpt.next_txn_id

abbrev pub next_page_of : Option CheckpointData → Option ℕ
next_page_of none = none
next_page_of (some ckpt) = some ckpt.next_page_id

abbrev pub candidates : Option CheckpointData → List ℕ → List ℕ
candidates none seen = seen
candidates (some ckpt) seen = ckpt.active_txns ++ seen

-- Both passes read the same log.
abbrev pub checkpoint_of : SuperblockState → Items → Result (Option CheckpointData)
checkpoint_of missing items = ok none
checkpoint_of invalid items = ok none
checkpoint_of (valid target_lsn) items = find_checkpoint target_lsn items

module _ {ℓ} {K : Type ℓ} (key : Key K) where
  -- The state of the second pass: the pages of the pool, those deleted, and what the loop collects.
  pub record Scan : Type 0 where
    pub pages : Pages key
    pub deleted : List ℕ
    pub tm : TransactionManager
    pub seen : List ℕ
    pub max_txn : ℕ
    pub max_page_id : ℕ

  -- The ids that a record's header and blocks name.
  unfoldable pub track : WalRecord → Scan → Scan
  track rec s = record s {
    seen = if rec.txn_id == 0 then s.seen else see rec.txn_id s.seen;
    max_txn = if rec.txn_id == 0 then s.max_txn else max s.max_txn rec.txn_id;
    max_page_id = max_block s.max_page_id rec.blocks;
  }

  -- The branches on the type of a record.
  unfoldable pub replay : WalRecordType → Bool → WalRecord → Scan → Option (Result Scan)
  unfolding mark_committed mark_aborted redo_overflow_free redo_record
  replay commit below rec s = some (ok (record s { tm = mark_committed rec.txn_id s.tm }))
  replay abort below rec s = some (ok (record s { tm = mark_aborted rec.txn_id s.tm }))
  replay checkpoint below rec s = some (ok s)
  replay overflow_free below rec s = if below then some (ok s) else elim (redo_overflow_free rec) [
    | err e ↦ some (err e)
    | ok ids ↦ some (ok (record s { deleted = ids ++ s.deleted }))
  ]
  replay _ below rec s = if below then some (ok s) else elim (redo_record key rec s.pages) [
    | none ↦ none
    | some (Overflow.err e) ↦ some (err (page_error e))
    | some (Overflow.ok pages) ↦ some (ok (record s { pages = pages }))
  ]

  unfoldable pub scan_record : ℕ → WalRecord → Scan → Option (Result Scan)
  unfolding track replay
  scan_record redo_point rec s = replay rec.entry_type (ltb rec.lsn redo_point) rec (track rec s)

  -- The second pass.
  unfoldable pub scan : ℕ → Items → Scan → Option (Result Scan)
  unfolding scan_record
  scan redo_point [] s = some (ok s)
  scan redo_point (Error.err e ∷ items) s = some (err (wal_error e))
  scan redo_point (Error.ok rec ∷ items) s = elim (scan_record redo_point rec s) [
    | none ↦ none
    | some (err e) ↦ some (err e)
    | some (ok s') ↦ scan redo_point items s'
  ]

  -- What recovery leaves behind, before `flush_all_pages`.
  pub record Recovered : Type 0 where
    pub pages : Pages key
    pub deleted : List ℕ
    pub tm : TransactionManager
    pub next_page_id : ℕ

  abbrev pub start_scan : Option CheckpointData → Pages key → TransactionManager → Scan
  start_scan ckpt pages tm = record {
    pages = pages;
    deleted = [];
    tm = seeded ckpt tm;
    seen = [];
    max_txn = before_next (next_txn_of ckpt);
    max_page_id = before_next (next_page_of ckpt);
  }

  -- `fetch_max` of the next transaction id and the next page id, behind the scan.
  unfoldable pub finish_recovery : Option CheckpointData → ℕ → Scan → Recovered
  unfolding settle_victims
  finish_recovery ckpt next_page_id s =
      let tm = settle_victims (candidates ckpt s.seen) s.tm in
      record {
        pages = s.pages;
        deleted = s.deleted;
        tm = record tm { next_txn_id = max tm.next_txn_id (next_of s.max_txn (next_txn_of ckpt)) };
        next_page_id = max next_page_id (next_of s.max_page_id (next_page_of ckpt));
      }

  unfoldable pub recover_from :
      Option CheckpointData → Items → Pages key → ℕ → TransactionManager → Option (Result Recovered)
  unfolding scan finish_recovery seed_clog_from_checkpoint publish_vacuum_horizon
  recover_from ckpt items pages next_page_id tm =
      elim (scan (redo_point_of ckpt) items (start_scan ckpt pages tm)) [
        | none ↦ none
        | some (err e) ↦ some (err e)
        | some (ok s) ↦ some (ok (finish_recovery ckpt next_page_id s))
      ]

  unfoldable pub recover :
      FileRead → Items → Pages key → ℕ → TransactionManager → Option (Result Recovered)
  unfolding read_superblock find_checkpoint recover_from
  recover file items pages next_page_id tm = elim (checkpoint_of (read_superblock file) items) [
    | err e ↦ some (err e)
    | ok ckpt ↦ recover_from ckpt items pages next_page_id tm
  ]
