-- ===== src/Mvcc/Visibility.antt =====
-- `Snapshot`'s methods and the free functions of crates/db-core/src/transaction.rs.
use flux_db.Common.{ℕ, Bool, true, false, not, [], ltb, leb, contains, ◌==◌, ◌||◌, if◌then◌else◌}
use flux_db.Mvcc.State.{TransactionStatus, active, committed, aborted, TransactionManager, Snapshot}
use flux_db.Mvcc.Manager
use flux_db.Mvcc.Manager.{u64_max, settled_status}

unfoldable pub latest : Snapshot
latest = record { xmin = u64_max; xmax = u64_max; active = [] }

unfoldable pub is_committed : Snapshot → ℕ → TransactionManager → Bool
is_committed snap txn_id tm =
    if txn_id == 0
    then true
    else if leb snap.xmax txn_id
    then false
    else if contains snap.active txn_id
    then false
    else not (Manager.is_aborted tm txn_id)

unfoldable pub is_in_progress : Snapshot → ℕ → TransactionManager → Bool
is_in_progress snap txn_id tm =
    if txn_id == 0
    then false
    else if Manager.is_committed tm txn_id || Manager.is_aborted tm txn_id
    then false
    else if ltb txn_id snap.xmin
    then false
    else if leb snap.xmax txn_id
    then true
    else contains snap.active txn_id

unfoldable pub is_visible : ℕ → ℕ → Snapshot → TransactionManager → Bool
is_visible rec_xmin rec_xmax snap tm =
    if not (is_committed snap rec_xmin tm)
    then false
    else if rec_xmax == 0
    then true
    else if is_committed snap rec_xmax tm
    then false
    else true

-- `==` on `TransactionStatus`
abbrev pub status_eq : TransactionStatus → TransactionStatus → Bool
status_eq active active = true
status_eq committed committed = true
status_eq aborted aborted = true
status_eq _ _ = false

unfoldable pub is_vacuumable : ℕ → ℕ → ℕ → TransactionManager → Bool
is_vacuumable xmin xmax horizon tm =
    if status_eq (settled_status tm xmin) aborted
    then true
    else if xmax == 0 || not (status_eq (settled_status tm xmax) committed)
    then false
    else ltb xmax horizon
