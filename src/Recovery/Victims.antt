-- ===== src/Recovery/Victims.antt =====
-- The crash victims and the counters at the end of `recover`, crates/storage/src/recovery/mod.rs.
use Prim.Native.Nat.{max}
use flux_db.Common.{
  ℕ, ◌<◌, ◌≤◌, ◌≡◌, ◌≢◌, ◌^◌, ◌-◌, refl, sym, ap, true, ◌||◌, Option, none, some, arith, ◌∙◌,
  contains, get,
}
use flux_db.Values.Keys.{Key}
use flux_db.Wal.Checkpoint.{CheckpointData}
use flux_db.Mvcc.State.{TransactionManager}
use flux_db.Recovery.Apply.{Pages}
use flux_db.Recovery.Outcomes.{logged_outcome, names}
use flux_db.Recovery.Collects.{IdsBelow, touches, Collected, scan-Collected}
use mathlib.Core.Path.{subst}
use flux_db.Recovery.Succeeds.{Replays, recover-Leaves}
use flux_db.Recovery.Scan.{
  next_of, Scan, scan, Recovered, redo_point_of, seeded, next_txn_of, next_page_of, candidates,
  start_scan, finish_recovery, checkpoint_of, recover_from, recover,
}
use flux_db.Recovery.Passes.{FileRead, read_superblock, Items, Result, ok, err}
use flux_db.Recovery.Settle.{
  settled_outcome, settle_victims-status, settle_victims-next, active_of, InRange, InRange-before,
  next_of-above, seeded-next, contains-candidates,
}

module _ {ℓ} {K : Type ℓ} (key : Key K) where
  -- What a recovery that succeeds has done.
  pub record Run (ckpt : Option CheckpointData) (items : Items) (pages : Pages key)
      (next_page_id : ℕ) (tm : TransactionManager) (r : Recovered key) : Type 0 where
    pub last : Scan key
    pub scanned :
        scan key (redo_point_of ckpt) items (start_scan key ckpt pages tm) ≡ some (ok last)
    pub finished : r ≡ finish_recovery key ckpt next_page_id last

  recover_from-Run :
      (ckpt : Option CheckpointData) (items : Items) (pages : Pages key) (next_page_id : ℕ)
      (tm : TransactionManager) (r : Recovered key)
      → recover_from key ckpt items pages next_page_id tm ≡ some (ok r)
      → Run ckpt items pages next_page_id tm r
  unfolding recover_from
  recover_from-Run ckpt items pages next_page_id tm r e =
      go (scan key (redo_point_of ckpt) items (start_scan key ckpt pages tm)) refl e
    where
      go :
          (o : Option (Result (Scan key)))
          → scan key (redo_point_of ckpt) items (start_scan key ckpt pages tm) ≡ o
          → elim o [
            | none ↦ none
            | some (err e) ↦ some (err e)
            | some (ok s) ↦ some (ok (finish_recovery key ckpt next_page_id s))
          ]
            ≡ some (ok r)
          → Run ckpt items pages next_page_id tm r
      go none h e = ground arith
      go (some (err x)) h e = ground arith
      go (some (ok s)) h e = record {
        last = s;
        scanned = h;
        finished = ap (λ o. elim o [ some (ok x) ↦ x | _ ↦ r ]) (sym e);
      }

  pub recover-Run :
      (file : FileRead) (items : Items) (pages : Pages key) (next_page_id : ℕ)
      (tm : TransactionManager) (r : Recovered key)
      → recover key file items pages next_page_id tm ≡ some (ok r)
      → (ckpt : Option CheckpointData) × (checkpoint_of (read_superblock file) items ≡ ok ckpt)
        × Run ckpt items pages next_page_id tm r
  unfolding recover
  recover-Run file items pages next_page_id tm r e =
      go (checkpoint_of (read_superblock file) items) e
    where
      go :
          (o : Result (Option CheckpointData))
          → elim o [
            | err e ↦ some (err e)
            | ok ckpt ↦ recover_from key ckpt items pages next_page_id tm
          ]
            ≡ some (ok r)
          → (ckpt : Option CheckpointData) × (o ≡ ok ckpt) × Run ckpt items pages next_page_id tm r
      go (err x) e = ground arith
      go (ok ckpt) e = (ckpt, refl, recover_from-Run ckpt items pages next_page_id tm r e)

  module _ (ckpt : Option CheckpointData) (items : Items) (pages : Pages key) (next_page_id : ℕ)
      (tm : TransactionManager) (r : Recovered key)
      (run : Run ckpt items pages next_page_id tm r) where
    pub Run-Collected :
        Collected key (redo_point_of ckpt) items (start_scan key ckpt pages tm) run.last
    Run-Collected =
        scan-Collected key (redo_point_of ckpt) items (start_scan key ckpt pages tm) run.last
          run.scanned

    Run-status :
        (id : ℕ)
        → id ≢ 0
        → get id r.tm.clog
          ≡ settled_outcome
              (contains (active_of ckpt) id || names id items)
              (logged_outcome id items (get id (seeded ckpt tm).clog))
    unfolding finish_recovery
    Run-status id n =
        let ids = candidates ckpt run.last.seen in
        let named : contains ids id ≡ (contains (active_of ckpt) id || names id items) =
          contains-candidates ckpt run.last.seen id
          ∙ ap (λ b. contains (active_of ckpt) id || b) (Run-Collected.seen id n) in
        rw run.finished (
          settle_victims-status ids id run.last.tm n
          ∙ ap (settled_outcome (contains ids id)) (Run-Collected.status id)
          ∙ ap (λ b. settled_outcome b (logged_outcome id items (get id (seeded ckpt tm).clog)))
              named)

    Run-next :
        (r.tm.next_txn_id ≡ max tm.next_txn_id (next_of run.last.max_txn (next_txn_of ckpt)))
        × (r.next_page_id ≡ max next_page_id (next_of run.last.max_page_id (next_page_of ckpt)))
    unfolding finish_recovery
    Run-next =
        let kept =
          settle_victims-next (candidates ckpt run.last.seen) run.last.tm
          ∙ Run-Collected.next_txn_id
          ∙ seeded-next ckpt tm in
        rw run.finished (ap (λ n. max n (next_of run.last.max_txn (next_txn_of ckpt))) kept, refl)

    Run-below :
        IdsBelow (2 ^ 64 - 1) items
        → InRange ckpt
        → (run.last.max_txn < 2 ^ 64 - 1) × (run.last.max_page_id < 2 ^ 64 - 1)
    Run-below ids range =
        let (txn, page) = InRange-before ckpt range in Run-Collected.below (2 ^ 64 - 1) ids txn page

    Run-above :
        IdsBelow (2 ^ 64 - 1) items
        → InRange ckpt
        → ((id : ℕ) → names id items ≡ true → id < r.tm.next_txn_id)
          × ((page_id : ℕ) → touches page_id items ≡ true → page_id < r.next_page_id)
          × (tm.next_txn_id ≤ r.tm.next_txn_id)
          × (next_page_id ≤ r.next_page_id)
    Run-above ids range =
        let (txn, page) = Run-below ids range in
        let above_txn = next_of-above run.last.max_txn (next_txn_of ckpt) txn in
        let above_page = next_of-above run.last.max_page_id (next_page_of ckpt) page in
        let (next_txn, next_page) = Run-next in
        (
          λ id h. omega (arith, next_txn, above_txn, Run-Collected.txns id h),
          λ page_id h. omega (arith, next_page, above_page, Run-Collected.pages page_id h),
          omega (arith, next_txn),
          omega (arith, next_page),
        )

  -- The run of a recovery that found the checkpoint.
  Run-known :
      (file : FileRead) (items : Items) (pages : Pages key) (next_page_id : ℕ)
      (tm : TransactionManager) (ckpt : Option CheckpointData) (r : Recovered key)
      → checkpoint_of (read_superblock file) items ≡ ok ckpt
      → recover key file items pages next_page_id tm ≡ some (ok r)
      → Run ckpt items pages next_page_id tm r
  Run-known file items pages next_page_id tm ckpt r found e =
      let (ckpt', found', run) = recover-Run file items pages next_page_id tm r e in
      subst (λ c. Run c items pages next_page_id tm r)
        (ap (λ o. elim o [ ok c ↦ c | err x ↦ ckpt ]) (sym found' ∙ found)) run

  -- If both passes can read the log to its end and the redo of its records goes through, recovery succeeds, with the
  -- pages that the redo makes. The outcome that the CLOG then has for an id other than 0 is the last one that the log
  -- has for it, or else the one that the checkpoint seeded; if there is no commit or abort and a record of the log or
  -- the checkpoint's active transactions name the id, it is aborted.
  pub recover-outcomes :
      (file : FileRead) (items : Items) (pages pages' : Pages key) (next_page_id : ℕ)
      (tm : TransactionManager) (ckpt : Option CheckpointData)
      → checkpoint_of (read_superblock file) items ≡ ok ckpt
      → Replays key (redo_point_of ckpt) items pages pages'
      → (r : Recovered key) × (recover key file items pages next_page_id tm ≡ some (ok r))
        × (r.pages ≡ pages')
        × ((id : ℕ)
            → id ≢ 0
            → get id r.tm.clog
              ≡ settled_outcome
                  (contains (active_of ckpt) id || names id items)
                  (logged_outcome id items (get id (seeded ckpt tm).clog)))
  recover-outcomes file items pages pages' next_page_id tm ckpt found replays =
      let (r, e, ends) =
        recover-Leaves key file items pages pages' next_page_id tm ckpt found replays in
      let run = Run-known file items pages next_page_id tm ckpt r found e in
      (r, e, ends, λ id n. Run-status ckpt items pages next_page_id tm r run id n)

  -- If both passes can read the log to its end and the redo of its records goes through, and if the ids of the log are
  -- below 2 ^ 64 - 1 and the counters of the checkpoint keep to 64 bits, recovery succeeds, its next transaction id is
  -- above that of every record and its next page id above that of every block, and neither counter has gone back.
  pub recover-next_ids :
      (file : FileRead) (items : Items) (pages pages' : Pages key) (next_page_id : ℕ)
      (tm : TransactionManager) (ckpt : Option CheckpointData)
      → checkpoint_of (read_superblock file) items ≡ ok ckpt
      → Replays key (redo_point_of ckpt) items pages pages'
      → IdsBelow (2 ^ 64 - 1) items
      → InRange ckpt
      → (r : Recovered key) × (recover key file items pages next_page_id tm ≡ some (ok r))
        × ((id : ℕ) → names id items ≡ true → id < r.tm.next_txn_id)
        × ((page_id : ℕ) → touches page_id items ≡ true → page_id < r.next_page_id)
        × (tm.next_txn_id ≤ r.tm.next_txn_id)
        × (next_page_id ≤ r.next_page_id)
  recover-next_ids file items pages pages' next_page_id tm ckpt found replays ids range =
      let (r, e, ends) =
        recover-Leaves key file items pages pages' next_page_id tm ckpt found replays in
      let run = Run-known file items pages next_page_id tm ckpt r found e in
      let (txn, page, up, on) = Run-above ckpt items pages next_page_id tm r run ids range in
      (r, e, txn, page, up, on)
