-- ===== src/Mvcc/Handle.antt =====
-- The methods of `Transaction`, crates/db-core/src/transaction.rs.
use flux_db.Common.{ℕ, Bool, true, false, ◌==◌, if◌then◌else◌}
use flux_db.Mvcc.State.{TransactionManager, Snapshot, Transaction}
use flux_db.Mvcc.Visibility

unfoldable pub new : ℕ → Snapshot → Transaction
new txn_id snapshot = record { txn_id = txn_id; snapshot = snapshot; wrote_anything = false }

unfoldable pub is_visible : Transaction → ℕ → ℕ → TransactionManager → Bool
is_visible txn rec_xmin rec_xmax tm =
    if rec_xmax == txn.txn_id
    then false
    else if rec_xmin == txn.txn_id
    then true
    else Visibility.is_visible rec_xmin rec_xmax txn.snapshot tm

unfoldable pub is_committed : Transaction → ℕ → TransactionManager → Bool
is_committed txn txn_id tm = Visibility.is_committed txn.snapshot txn_id tm

unfoldable pub is_in_progress : Transaction → ℕ → TransactionManager → Bool
is_in_progress txn txn_id tm = Visibility.is_in_progress txn.snapshot txn_id tm

unfoldable pub note_write : Transaction → Transaction
note_write txn = record txn { wrote_anything = true }
