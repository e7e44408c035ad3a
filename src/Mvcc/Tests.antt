-- ===== src/Mvcc/Tests.antt =====
-- Runs of the transaction manager at concrete inputs.
use flux_db.Common.{
  ◌≤◌, ◌≡◌, true, false, arith, inr, refl, [], ◌∷◌, get, contains_key, insert, remove, keys, values,
  retain,
}
use flux_db.Mvcc.State.{TransactionManager, committed, aborted, active}
use flux_db.Mvcc.Manager
use flux_db.Mvcc.Manager.{
  begin, read_snapshot, reserve, global_xmin, is_active, is_aborted, mark_committed, mark_aborted,
  get_snapshot, truncate_clog, settled_status, seed_clog_from_checkpoint, seed, oldest_active,
  log_status, deactivate, notify_waiters, end_read,
}
use flux_db.Mvcc.Invariant.{IsValid}
use flux_db.Mvcc.Visibility
use flux_db.Mvcc.Visibility.{is_vacuumable}
use flux_db.Mvcc.Handle
use flux_db.Mvcc.Steps.{Reach, here, next, reserves, deactivates, logs, Reach-IsValid}
use flux_db.Mvcc.Horizon.{global_xmin_mono}
use flux_db.Mvcc.Vacuum.{vacuumable-not-visible_txn}
use flux_db.Mvcc.Reads.{is_visible-repeatable}
use flux_db.Mvcc.Outcome.{is_committed-settled}

program : Unit {0}
unfolding get contains_key insert remove keys values retain begin read_snapshot reserve global_xmin
    is_active is_aborted mark_committed mark_aborted get_snapshot truncate_clog settled_status
    seed_clog_from_checkpoint seed oldest_active log_status deactivate notify_waiters end_read
    Manager.is_committed Visibility.is_committed Visibility.is_in_progress Visibility.is_visible
    is_vacuumable Handle.is_visible
program = tt

-- Transactions 1 and 2 are finished, 3 is aborted and 4 is in flight.
abbrev busy : TransactionManager
busy = record {
  next_txn_id = 5;
  clog = (4, active) ∷ (3, aborted) ∷ (2, committed) ∷ (1, committed) ∷ [];
  vacuum_horizon = 0;
  dead_versions = 1;
  active_txns = (4, (4, 40)) ∷ [];
  readers = [];
  next_reader_token = 0;
  waiters = (4, 0) ∷ [];
  settled = [];
  next_entry = 1;
}

busy-IsValid : IsValid busy
unfolding get contains_key is_active
busy-IsValid = record {
  next_pos = omega arith;
  active_ids = λ t h. ground arith;
  active_xmins = λ t e h. ground arith;
  reader_xmins = λ k x h. ground arith;
  reader_tokens = λ k x h. ground arith;
  clog_ids = λ t s h. ground arith;
  maps = ((refl, tt), tt, (refl, (refl, (refl, (refl, tt)))));
}

-- A transaction begins; then 4 commits and leaves.
abbrev started : TransactionManager
started = (begin 50 busy).0

abbrev later : TransactionManager
later = deactivate 4 (log_status 4 committed started)

run : Reach started later
unfolding program
run = next (next here (logs 4 committed refl refl)) (deactivates 4 refl)

run_from_busy : Reach busy later
unfolding program
run_from_busy =
    next
      (next (next (next here (reserves 50 (omega arith) refl)) (logs 5 active refl refl))
        (logs 4 committed refl refl))
      (deactivates 4 refl)

-- Transaction 5 still sees what 4 was deleting, and not what 4 wrote.
sees :
    (Handle.is_visible (begin 50 busy).1 1 4 later ≡ true)
    × (Handle.is_visible (begin 50 busy).1 4 0 later ≡ false)
    × (Handle.is_visible (begin 50 busy).1 1 2 later ≡ false)
unfolding program
sees = (refl, refl, refl)

Reach-IsValid_example : IsValid later
Reach-IsValid_example = Reach-IsValid run_from_busy busy-IsValid

global_xmin_mono_example : global_xmin busy ≤ global_xmin later
global_xmin_mono_example = global_xmin_mono run_from_busy busy-IsValid

vacuumable-not-visible_txn_example : Handle.is_visible (begin 50 busy).1 1 2 later ≡ false
unfolding program
vacuumable-not-visible_txn_example =
    vacuumable-not-visible_txn busy later 50 4 1 2 busy-IsValid (omega arith) run refl refl
      (omega arith) (inr (omega arith)) refl

abbrev watched : TransactionManager
watched = deactivate 4 (log_status 4 committed (read_snapshot busy).0)

watch_run : Reach (read_snapshot busy).0 watched
unfolding program
watch_run = next (next here (logs 4 committed refl refl)) (deactivates 4 refl)

is_visible-repeatable_example :
    Handle.is_visible (begin 50 busy).1 1 4 later ≡ Handle.is_visible (begin 50 busy).1 1 4 started
unfolding program
is_visible-repeatable_example =
    is_visible-repeatable busy later 50 1 4 busy-IsValid (omega arith) run (inr refl) (inr refl)

is_committed-settled_example :
    (Visibility.is_committed (get_snapshot busy) 4 busy ≡ false)
    × (Visibility.is_committed (get_snapshot (mark_committed 4 busy)) 4 (mark_committed 4 busy)
        ≡ true)
    × (Visibility.is_committed (get_snapshot (mark_aborted 4 busy)) 4 (mark_aborted 4 busy) ≡ false)
unfolding program
is_committed-settled_example = is_committed-settled busy 4 busy-IsValid refl
