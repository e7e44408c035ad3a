-- ===== src/Recovery/Rerun.antt =====
-- `recover` of crates/storage/src/recovery/mod.rs, once more after a crash.
use flux_db.Common.{ℕ, ◌≡◌, refl, sym, ap, Option, some, ◌∙◌}
use flux_db.Values.Keys.{Key}
use flux_db.Wal.Checkpoint.{CheckpointData}
use flux_db.Mvcc.State.{TransactionManager}
use flux_db.Recovery.Apply.{Pages}
use flux_db.Recovery.Gate.{AllSized}
use flux_db.Recovery.Restart.{Survives, scan-Survives}
use flux_db.Recovery.Advance.{AllLogged}
use flux_db.Recovery.Victims.{recover-Run}
use flux_db.Recovery.Scan.{
  Scan, scan, redo_point_of, start_scan, Recovered, finish_recovery, checkpoint_of, recover_from,
  recover,
}
use flux_db.Recovery.Passes.{FileRead, read_superblock, Items, ok}

module _ {ℓ} {K : Type ℓ} (key : Key K) where
  recover-scan :
      (file : FileRead) (items : Items) (pages : Pages key) (next_page_id : ℕ)
      (tm : TransactionManager) (ckpt : Option CheckpointData) (s : Scan key)
      → checkpoint_of (read_superblock file) items ≡ ok ckpt
      → scan key (redo_point_of ckpt) items (start_scan key ckpt pages tm) ≡ some (ok s)
      → recover key file items pages next_page_id tm
        ≡ some (ok (finish_recovery key ckpt next_page_id s))
  unfolding recover recover_from
  recover-scan file items pages next_page_id tm ckpt s found scanned =
      rw (found, recover) (rw (scanned, recover_from) refl)

  -- Let a recovery succeed on pages of the right size, from a log whose LSNs keep to 64 bits and whose images are
  -- whole pages. Then a recovery from the same log and superblock also succeeds, and ends with the same pages, on any
  -- pages each of which is as it was before the first recovery or as some front of the log, its own, leaves it, and with
  -- any transaction manager and next page id.
  pub recover-Survives :
      (file : FileRead) (items : Items) (pages pages' : Pages key) (next_page_id next_page_id' : ℕ)
      (tm tm' : TransactionManager) (r : Recovered key)
      → recover key file items pages next_page_id tm ≡ some (ok r)
      → AllSized key pages
      → AllLogged items
      → ((ckpt : Option CheckpointData)
          → checkpoint_of (read_superblock file) items ≡ ok ckpt
          → Survives key (redo_point_of ckpt) items (start_scan key ckpt pages tm) pages')
      → (r' : Recovered key) × (recover key file items pages' next_page_id' tm' ≡ some (ok r'))
        × ((p : ℕ) → r'.pages p ≡ r.pages p)
  unfolding finish_recovery
  recover-Survives file items pages pages' next_page_id next_page_id' tm tm' r e sized logged
        survives =
      let (ckpt, found, run) = recover-Run key file items pages next_page_id tm r e in
      let (s', again, same) =
        scan-Survives key (redo_point_of ckpt) items (start_scan key ckpt pages tm) run.last
          (start_scan key ckpt pages' tm') run.scanned sized logged (survives ckpt found) in
      (
        finish_recovery key ckpt next_page_id' s',
        recover-scan file items pages' next_page_id' tm' ckpt s' found again,
        λ p. same p ∙ sym (ap (λ q. q.pages p) run.finished),
      )
