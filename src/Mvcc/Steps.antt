-- ===== src/Mvcc/Steps.antt =====
-- The interleavings of the transaction manager: each lock section of
-- crates/db-core/src/transaction_manager.rs is one step, taken by any thread.
use flux_db.Common.{ℕ, ◌+◌, ◌<◌, ◌^◌, ◌≡◌, true, refl}
use flux_db.Mvcc.State.{TransactionStatus, TransactionManager}
use flux_db.Mvcc.Manager.{
  log_status, deactivate, notify_waiters, reserve, read_snapshot, end_read, truncate_clog,
  publish_vacuum_horizon, note_dead_version, take_dead_versions, restore_dead_versions, is_active,
}
use flux_db.Mvcc.Invariant.{
  IsValid, IsValid-congr, log_status-IsValid, deactivate-IsValid, notify_waiters-IsValid,
  reserve-IsValid, read_snapshot-IsValid, end_read-IsValid, truncate_clog-IsValid,
  publish_vacuum_horizon-IsValid,
}

-- `begin` is `reserves` and then `logs`; `mark_committed` and `mark_aborted` are `logs`,
-- `deactivates` and `notifies`. The callers log a status for their own transaction only, which is
-- in flight until they deactivate it.
pub data Step (tm tm' : TransactionManager) : Type 0 where
  reserves : (now : ℕ) → tm.next_txn_id + 1 < 2 ^ 64 → tm' ≡ (reserve now tm).0 → Step tm tm'
  logs :
      (t : ℕ) (s : TransactionStatus)
      → is_active tm t ≡ true
      → tm' ≡ log_status t s tm
      → Step tm tm'
  deactivates : (t : ℕ) → tm' ≡ deactivate t tm → Step tm tm'
  notifies : (t : ℕ) → tm' ≡ notify_waiters t tm → Step tm tm'
  reads : tm.next_reader_token + 1 < 2 ^ 64 → tm' ≡ (read_snapshot tm).0 → Step tm tm'
  ends_read : (k : ℕ) → tm' ≡ end_read k tm → Step tm tm'
  truncates : (h : ℕ) → tm' ≡ truncate_clog h tm → Step tm tm'
  publishes : (h : ℕ) → tm' ≡ publish_vacuum_horizon h tm → Step tm tm'
  notes_dead : tm' ≡ note_dead_version tm → Step tm tm'
  takes_dead : tm' ≡ (take_dead_versions tm).0 → Step tm tm'
  restores_dead : (n : ℕ) → tm' ≡ restore_dead_versions n tm → Step tm tm'

pub data Reach (tm : TransactionManager) : TransactionManager → Type 0 where
  here : Reach tm tm
  next : {tm₁ tm₂ : TransactionManager} → Reach tm tm₁ → Step tm₁ tm₂ → Reach tm tm₂

-- Every step keeps the invariant.
pub Step-IsValid : {tm tm' : TransactionManager} → Step tm tm' → IsValid tm → IsValid tm'
unfolding note_dead_version take_dead_versions restore_dead_versions
Step-IsValid {tm} (reserves now room e) v = rw e (reserve-IsValid tm v now room)
Step-IsValid {tm} (logs t s h e) v =
    rw e (log_status-IsValid tm v t s (v.active_ids t h).0 (v.active_ids t h).1)
Step-IsValid {tm} (deactivates t e) v = rw e (deactivate-IsValid tm v t)
Step-IsValid {tm} (notifies t e) v = rw e (notify_waiters-IsValid tm v t)
Step-IsValid {tm} (reads h e) v = rw e (read_snapshot-IsValid tm v h)
Step-IsValid {tm} (ends_read k e) v = rw e (end_read-IsValid tm v k)
Step-IsValid {tm} (truncates h e) v = rw e (truncate_clog-IsValid tm v h)
Step-IsValid {tm} (publishes h e) v = rw e (publish_vacuum_horizon-IsValid tm v h)
Step-IsValid {tm} (notes_dead e) v =
    rw e (IsValid-congr tm v (note_dead_version tm) refl refl refl refl refl)
Step-IsValid {tm} (takes_dead e) v =
    rw e (IsValid-congr tm v (take_dead_versions tm).0 refl refl refl refl refl)
Step-IsValid {tm} (restores_dead n e) v =
    rw e (IsValid-congr tm v (restore_dead_versions n tm) refl refl refl refl refl)

-- From a valid manager, whatever the threads do, the manager stays valid.
pub Reach-IsValid : {tm tm' : TransactionManager} → Reach tm tm' → IsValid tm → IsValid tm'
Reach-IsValid here v = v
Reach-IsValid (next r s) v = Step-IsValid s (Reach-IsValid r v)
