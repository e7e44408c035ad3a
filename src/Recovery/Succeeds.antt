-- ===== src/Recovery/Succeeds.antt =====
-- When `recover` of crates/storage/src/recovery/mod.rs succeeds.
use mathlib.Core.Path.{subst}
use flux_db.Common.{
  ℕ, ◌%◌, ◌/◌, ◌==◌, ◌++◌, ◌≡◌, refl, sym, ap, Bool, true, false, Option, none, some, List, [], ◌∷◌,
  length, ltb, arith, ◌∙◌,
}
use flux_db.Values.Keys.{Key}
use flux_db.Page.Overflow
use flux_db.Wal.Error
use flux_db.Wal.Checkpoint.{CheckpointData}
use flux_db.Wal.Record.{
  WalRecordType, insert, set_x_max, commit, abort, leaf_split, internal_s_plit, insert_down_link,
  new_root, page_compact, mark_half_dead, unlink_page, checkpoint, overflow_write, overflow_free,
}
use flux_db.Wal.Reader.{WalRecord}
use flux_db.Mvcc.State.{TransactionManager}
use flux_db.Recovery.Apply.{Pages, redo_record}
use flux_db.Recovery.Passes.{Items, FileRead, read_superblock, Result, ok, err, page_error}
use flux_db.Recovery.Scan.{
  Scan, track, replay, scan_record, scan, redo_overflow_free, page_ids, redo_point_of, start_scan,
  Recovered, finish_recovery, checkpoint_of, recover_from, recover,
}

redo_overflow_free_ok :
    (rec : WalRecord) (bytes : List ℕ)
    → rec.main_data ≡ some bytes
    → length bytes % 8 ≡ 0
    → redo_overflow_free rec ≡ ok (page_ids (length bytes / 8) bytes)
unfolding redo_overflow_free
redo_overflow_free_ok rec bytes data_of whole =
    let even : (length bytes % 8 == 0) ≡ true = ground arith in rw (data_of, even) refl

module _ {ℓ} {K : Type ℓ} (key : Key K) where
  -- That the page redo of a record goes through, and what it makes of the pages.
  abbrev pub Replayed : WalRecordType → Bool → WalRecord → Pages key → Pages key → Type 0
  Replayed commit below rec pages pages' = pages ≡ pages'
  Replayed abort below rec pages pages' = pages ≡ pages'
  Replayed checkpoint below rec pages pages' = pages ≡ pages'
  Replayed overflow_free true rec pages pages' = pages ≡ pages'
  Replayed overflow_free false rec pages pages' =
      ((bytes : List ℕ) × (rec.main_data ≡ some bytes) × (length bytes % 8 ≡ 0)) × (pages ≡ pages')
  Replayed _ true rec pages pages' = pages ≡ pages'
  Replayed _ false rec pages pages' = redo_record key rec pages ≡ some (Overflow.ok pages')

  -- The same of all records of a log that can be read to its end.
  abbrev pub Replays : ℕ → Items → Pages key → Pages key → Type 0
  Replays redo_point [] pages pages' = pages ≡ pages'
  Replays redo_point (Error.err e ∷ items) pages pages' = ⊥
  Replays redo_point (Error.ok rec ∷ items) pages pages' =
      (between : Pages key) × Replayed rec.entry_type (ltb rec.lsn redo_point) rec pages between
      × Replays redo_point items between pages'

  -- A step that succeeds with the pages.
  abbrev Leaves : Option (Result (Scan key)) → Pages key → Type 0
  Leaves o pages = (s' : Scan key) × (o ≡ some (ok s')) × (s'.pages ≡ pages)

  module _ (rec : WalRecord) (s : Scan key) (pages : Pages key) where
    freed-Leaves :
        (below : Bool)
        → Replayed overflow_free below rec s.pages pages
        → Leaves (replay key overflow_free below rec s) pages
    unfolding replay
    freed-Leaves true h = (s, refl, h)
    freed-Leaves false ((bytes, data_of, whole), h) =
        let freed = redo_overflow_free_ok rec bytes data_of whole in
        (
          record s { deleted = page_ids (length bytes / 8) bytes ++ s.deleted },
          rw (freed, replay) refl,
          h,
        )

    redo-Leaves :
        (r : Option (Overflow.Result (Pages key)))
        → r ≡ some (Overflow.ok pages)
        → Leaves
            (elim r [
              | none ↦ none
              | some (Overflow.err e) ↦ some (err (page_error e))
              | some (Overflow.ok pages) ↦ some (ok (record s { pages = pages }))
            ])
            pages
    redo-Leaves none h = ground arith
    redo-Leaves (some (Overflow.err e)) h = ground arith
    redo-Leaves (some (Overflow.ok pages')) h = (
      record s { pages = pages' },
      refl,
      ap (λ o. elim o [ some (Overflow.ok q) ↦ q | _ ↦ pages ]) h,
    )

    replay-Leaves :
        (t : WalRecordType) (below : Bool)
        → Replayed t below rec s.pages pages
        → Leaves (replay key t below rec s) pages
    unfolding replay
    replay-Leaves commit below h = (_, refl, h)
    replay-Leaves abort below h = (_, refl, h)
    replay-Leaves checkpoint below h = (s, refl, h)
    replay-Leaves overflow_free below h = freed-Leaves below h
    replay-Leaves insert true h = (s, refl, h)
    replay-Leaves insert false h = redo-Leaves (redo_record key rec s.pages) h
    replay-Leaves set_x_max true h = (s, refl, h)
    replay-Leaves set_x_max false h = redo-Leaves (redo_record key rec s.pages) h
    replay-Leaves leaf_split true h = (s, refl, h)
    replay-Leaves leaf_split false h = redo-Leaves (redo_record key rec s.pages) h
    replay-Leaves internal_s_plit true h = (s, refl, h)
    replay-Leaves internal_s_plit false h = redo-Leaves (redo_record key rec s.pages) h
    replay-Leaves insert_down_link true h = (s, refl, h)
    replay-Leaves insert_down_link false h = redo-Leaves (redo_record key rec s.pages) h
    replay-Leaves new_root true h = (s, refl, h)
    replay-Leaves new_root false h = redo-Leaves (redo_record key rec s.pages) h
    replay-Leaves page_compact true h = (s, refl, h)
    replay-Leaves page_compact false h = redo-Leaves (redo_record key rec s.pages) h
    replay-Leaves mark_half_dead true h = (s, refl, h)
    replay-Leaves mark_half_dead false h = redo-Leaves (redo_record key rec s.pages) h
    replay-Leaves unlink_page true h = (s, refl, h)
    replay-Leaves unlink_page false h = redo-Leaves (redo_record key rec s.pages) h
    replay-Leaves overflow_write true h = (s, refl, h)
    replay-Leaves overflow_write false h = redo-Leaves (redo_record key rec s.pages) h

  scan-Leaves :
      (redo_point : ℕ) (items : Items) (s : Scan key) (pages pages' : Pages key)
      → s.pages ≡ pages
      → Replays redo_point items pages pages'
      → Leaves (scan key redo_point items s) pages'
  unfolding scan scan_record track
  scan-Leaves redo_point [] s pages pages' same h = (s, refl, same ∙ h)
  scan-Leaves redo_point (Error.err e ∷ items) s pages pages' same h = absurd h
  scan-Leaves redo_point (Error.ok rec ∷ items) s pages pages' same (between, one, more) =
      let (s1, first, at) =
        replay-Leaves rec (track key rec s) between rec.entry_type (ltb rec.lsn redo_point) (
          subst (λ q. Replayed rec.entry_type (ltb rec.lsn redo_point) rec q between) (sym same)
            one) in
      let (s', rest, ends) = scan-Leaves redo_point items s1 between pages' at more in
      (s', rw (first, scan) rest, ends)

  pub recover-Leaves :
      (file : FileRead) (items : Items) (pages pages' : Pages key) (next_page_id : ℕ)
      (tm : TransactionManager) (ckpt : Option CheckpointData)
      → checkpoint_of (read_superblock file) items ≡ ok ckpt
      → Replays (redo_point_of ckpt) items pages pages'
      → (r : Recovered key) × (recover key file items pages next_page_id tm ≡ some (ok r))
        × (r.pages ≡ pages')
  unfolding recover recover_from finish_recovery
  recover-Leaves file items pages pages' next_page_id tm ckpt found h =
      let (s, scanned, ends) =
        scan-Leaves (redo_point_of ckpt) items (start_scan key ckpt pages tm) pages pages' refl h in
      (
        finish_recovery key ckpt next_page_id s,
        rw (found, recover) (rw (scanned, recover_from) refl),
        ends,
      )
