-- ===== src/Recovery/Outcomes.antt =====
-- The CLOG that recovery in crates/storage/src/recovery/mod.rs builds from the log.
use flux_db.Common.{
  ℕ, ◌≡◌, refl, Bool, true, false, ◌||◌, Option, none, some, List, [], ◌∷◌, ◌++◌, ◌==◌, arith,
  if◌then◌else◌, if_cases, get, get-insert,
}
use flux_db.Values.Keys.{Key}
use flux_db.Page.Overflow
use flux_db.Wal.Error
use flux_db.Wal.Record.{
  WalRecordType, insert, set_x_max, commit, abort, leaf_split, internal_s_plit, insert_down_link,
  new_root, page_compact, mark_half_dead, unlink_page, checkpoint, overflow_write, overflow_free,
}
use flux_db.Wal.Reader.{WalRecord}
use flux_db.Mvcc.State.{TransactionStatus, committed, aborted}
use flux_db.Mvcc.Manager.{mark_committed, mark_aborted, notify_waiters, deactivate, log_status}
use flux_db.Recovery.Apply.{Pages, redo_record}
use flux_db.Recovery.Scan.{Scan, replay, redo_overflow_free}
use flux_db.Recovery.Passes.{Items, Result, ok, err, page_error}

-- The last outcome that a log has for a transaction, or else the one from before.
abbrev pub outcome_of : WalRecordType → Option TransactionStatus → Option TransactionStatus
outcome_of commit before = some committed
outcome_of abort before = some aborted
outcome_of _ before = before

abbrev pub logged_outcome : ℕ → Items → Option TransactionStatus → Option TransactionStatus
logged_outcome txn_id [] before = before
logged_outcome txn_id (Error.err e ∷ items) before = before
logged_outcome txn_id (Error.ok rec ∷ items) before =
    logged_outcome txn_id items
      (if txn_id == rec.txn_id then outcome_of rec.entry_type before else before)

-- That a record of the log has the transaction's id.
abbrev pub names : ℕ → Items → Bool
names txn_id [] = false
names txn_id (Error.err e ∷ items) = names txn_id items
names txn_id (Error.ok rec ∷ items) = txn_id == rec.txn_id || names txn_id items

-- An outcome, aborted for want of another.
abbrev pub outcome_or_aborted : Option TransactionStatus → Option TransactionStatus
outcome_or_aborted (some committed) = some committed
outcome_or_aborted _ = some aborted

module _ {ℓ} {K : Type ℓ} (key : Key K) where
  -- The fields besides the pages, behind the branch for a record.
  pub record Kept (t : WalRecordType) (rec : WalRecord) (s s' : Scan key) : Type 0 where
    pub seen : s'.seen ≡ s.seen
    pub max_txn : s'.max_txn ≡ s.max_txn
    pub max_page_id : s'.max_page_id ≡ s.max_page_id
    pub next_txn_id : s'.tm.next_txn_id ≡ s.tm.next_txn_id
    pub status :
        (txn_id : ℕ)
        → get txn_id s'.tm.clog ≡ (
            if txn_id == rec.txn_id
            then outcome_of t (get txn_id s.tm.clog)
            else get txn_id s.tm.clog)

  abbrev pub Keeps : WalRecordType → WalRecord → Scan key → Option (Result (Scan key)) → Type 0
  Keeps t rec s none = Unit
  Keeps t rec s (some (err e)) = Unit
  Keeps t rec s (some (ok s')) = Kept t rec s s'

  module _ (rec : WalRecord) (s : Scan key) where
    -- A type without an outcome.
    Quiet : WalRecordType → Type 0
    Quiet t = (o : Option TransactionStatus) → outcome_of t o ≡ o

    quiet-Kept :
        (t : WalRecordType) (pages : Pages key) (deleted : List ℕ)
        → Quiet t
        → Kept t rec s (record s { pages = pages; deleted = deleted })
    unfolding Quiet
    quiet-Kept t pages deleted quiet = record {
      seen = refl;
      max_txn = refl;
      max_page_id = refl;
      next_txn_id = refl;
      status = λ txn_id.
          let before = get txn_id s.tm.clog in
          rw (quiet before) (
            if_cases (λ o. before ≡ o) (txn_id == rec.txn_id) before before (λ e. refl)
              (λ e. refl));
    }

    redo-Keeps :
        (t : WalRecordType) (below : Bool)
        → Quiet t
        → Keeps t rec s (
            if below then some (ok s) else elim (redo_record key rec s.pages) [
              | none ↦ none
              | some (Overflow.err e) ↦ some (err (page_error e))
              | some (Overflow.ok pages) ↦ some (ok (record s { pages = pages }))
            ])
    redo-Keeps t true quiet = quiet-Kept t s.pages s.deleted quiet
    redo-Keeps t false quiet = mapped (redo_record key rec s.pages)
      where
        mapped :
            (r : Option (Overflow.Result (Pages key)))
            → Keeps t rec s (elim r [
              | none ↦ none
              | some (Overflow.err e) ↦ some (err (page_error e))
              | some (Overflow.ok pages) ↦ some (ok (record s { pages = pages }))
            ])
        mapped none = tt
        mapped (some (Overflow.err e)) = tt
        mapped (some (Overflow.ok pages)) = quiet-Kept t pages s.deleted quiet

    freed-Keeps : (below : Bool) → Keeps overflow_free rec s (replay key overflow_free below rec s)
    unfolding replay Quiet
    freed-Keeps true = quiet-Kept overflow_free s.pages s.deleted (λ o. refl)
    freed-Keeps false = freed (redo_overflow_free rec)
      where
        freed :
            (r : Result (List ℕ))
            → Keeps overflow_free rec s (elim r [
              | err e ↦ some (err e)
              | ok ids ↦ some (ok (record s { deleted = ids ++ s.deleted }))
            ])
        freed (err e) = tt
        freed (ok ids) = quiet-Kept overflow_free s.pages (ids ++ s.deleted) (λ o. refl)

    pub replay-Keeps : (t : WalRecordType) (below : Bool) → Keeps t rec s (replay key t below rec s)
    unfolding replay mark_committed mark_aborted notify_waiters deactivate log_status Quiet
    replay-Keeps commit below = record {
      seen = refl;
      max_txn = refl;
      max_page_id = refl;
      next_txn_id = ground arith;
      status = λ txn_id. ground (arith, get-insert rec.txn_id txn_id committed s.tm.clog);
    }
    replay-Keeps abort below = record {
      seen = refl;
      max_txn = refl;
      max_page_id = refl;
      next_txn_id = ground arith;
      status = λ txn_id. ground (arith, get-insert rec.txn_id txn_id aborted s.tm.clog);
    }
    replay-Keeps checkpoint below = quiet-Kept checkpoint s.pages s.deleted (λ o. refl)
    replay-Keeps overflow_free below = freed-Keeps below
    replay-Keeps insert below = redo-Keeps insert below (λ o. refl)
    replay-Keeps set_x_max below = redo-Keeps set_x_max below (λ o. refl)
    replay-Keeps leaf_split below = redo-Keeps leaf_split below (λ o. refl)
    replay-Keeps internal_s_plit below = redo-Keeps internal_s_plit below (λ o. refl)
    replay-Keeps insert_down_link below = redo-Keeps insert_down_link below (λ o. refl)
    replay-Keeps new_root below = redo-Keeps new_root below (λ o. refl)
    replay-Keeps page_compact below = redo-Keeps page_compact below (λ o. refl)
    replay-Keeps mark_half_dead below = redo-Keeps mark_half_dead below (λ o. refl)
    replay-Keeps unlink_page below = redo-Keeps unlink_page below (λ o. refl)
    replay-Keeps overflow_write below = redo-Keeps overflow_write below (λ o. refl)
