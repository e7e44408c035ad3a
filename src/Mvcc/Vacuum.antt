-- ===== src/Mvcc/Vacuum.antt =====
-- What `is_vacuumable` gives up, and who may still see it.
use flux_db.Common.{ℕ, ◌∙◌, ◌+◌, ◌<◌, ◌≤◌, ◌^◌, ◌≡◌, ◌⊎◌, true, false, arith, contains_key}
use native.Mathlib.Nat.{le_trans}
use flux_db.Mvcc.State.{TransactionManager, Snapshot, Transaction}
use flux_db.Mvcc.Manager
use flux_db.Mvcc.Manager.{
  log_status, deactivate, notify_waiters, reserve, read_snapshot, end_read, truncate_clog,
  publish_vacuum_horizon, note_dead_version, take_dead_versions, restore_dead_versions, is_active,
  global_xmin, oldest_active, begin, is_aborted, settled_status,
}
use flux_db.Mvcc.Invariant.{IsValid}
use flux_db.Mvcc.Visibility
use flux_db.Mvcc.Visibility.{is_vacuumable}
use flux_db.Mvcc.Handle
use flux_db.Mvcc.Persist.{Reach-Kept}
use flux_db.Mvcc.Begin.{
  IsConsistent, begin-Taken, get-begin, begin_ids, read_snapshot-Taken, get-read_snapshot,
  read_snapshot_token,
}
use flux_db.Mvcc.Steps.{Reach, Reach-IsValid}
use flux_db.Mvcc.Horizon.{global_xmin-IsBound}

-- The vacuumed version is invisible to every snapshot at or above the horizon.
vacuumable-not-visible :
    (tm : TransactionManager) (snap : Snapshot) (xmin xmax horizon : ℕ)
    → IsConsistent snap
    → horizon ≤ snap.xmin
    → is_vacuumable xmin xmax horizon tm ≡ true
    → Visibility.is_visible xmin xmax snap tm ≡ false
unfolding is_vacuumable Visibility.is_visible Visibility.is_committed settled_status
    Manager.is_committed is_aborted
vacuumable-not-visible tm snap xmin xmax horizon c h e = ground (arith, c.active_le xmax)

-- The same for a transaction's own writes, which it sees whatever the snapshot says.
own-vacuumable :
    (tm : TransactionManager) (txn : Transaction) (xmin xmax horizon : ℕ)
    → IsConsistent txn.snapshot
    → horizon ≤ txn.snapshot.xmin
    → txn.snapshot.xmin ≤ txn.txn_id
    → is_aborted tm txn.txn_id ≡ false
    → (xmax ≡ 0) ⊎ (xmin ≤ xmax)
    → is_vacuumable xmin xmax horizon tm ≡ true
    → Handle.is_visible txn xmin xmax tm ≡ false
unfolding is_vacuumable Handle.is_visible settled_status
own-vacuumable tm txn xmin xmax horizon c h i live age e =
    ground (arith, vacuumable-not-visible tm txn.snapshot xmin xmax horizon c h e)

module _ (tm₀ : TransactionManager) (v : IsValid tm₀) where
  module _ (now : ℕ) (room : tm₀.next_txn_id + 1 < 2 ^ 64) (tm : TransactionManager) where
    -- While the transaction is in flight the horizon stays at or below its snapshot.
    pub global_xmin-le_begin :
        Reach (begin now tm₀).0 tm
        → is_active tm (begin now tm₀).1.txn_id ≡ true
        → global_xmin tm ≤ (begin now tm₀).1.snapshot.xmin
    unfolding is_active
    global_xmin-le_begin r a =
        let id = (begin now tm₀).1.txn_id in
        let taken = begin-Taken tm₀ v now room in
        let kept = Reach-Kept r taken.valid id 0 (begin_ids tm₀ v now room).1 in
        let bound = global_xmin-IsBound tm (Reach-IsValid r taken.valid) in
        bound.active id ((begin now tm₀).1.snapshot.xmin, now)
          (kept.entry a ∙ get-begin tm₀ v now room)

  module _ (room : tm₀.next_reader_token + 1 < 2 ^ 64) (tm : TransactionManager) where
    pub global_xmin-le_read :
        Reach (read_snapshot tm₀).0 tm
        → contains_key (read_snapshot tm₀).2 tm.readers ≡ true
        → global_xmin tm ≤ (read_snapshot tm₀).1.xmin
    global_xmin-le_read r a =
        let token = (read_snapshot tm₀).2 in
        let taken = read_snapshot-Taken tm₀ v room in
        let kept = Reach-Kept r taken.valid 0 token taken.valid.next_pos in
        let bound = global_xmin-IsBound tm (Reach-IsValid r taken.valid) in
        bound.readers token (read_snapshot tm₀).1.xmin
          (kept.reader (read_snapshot_token tm₀ v room) a ∙ get-read_snapshot tm₀ v room)

-- The vacuum horizon protects a transaction in flight. Let `begin` run on a valid manager, let any
-- steps of other threads follow, and let the transaction be in flight and not marked aborted. A
-- version that is vacuumable under a horizon that is not above the current `global_xmin`, and that
-- was not deleted by an older transaction than its creator, is not visible to the transaction.
pub vacuumable-not-visible_txn :
    (tm₀ tm : TransactionManager) (now horizon xmin xmax : ℕ)
    → IsValid tm₀
    → tm₀.next_txn_id + 1 < 2 ^ 64
    → Reach (begin now tm₀).0 tm
    → is_active tm (begin now tm₀).1.txn_id ≡ true
    → is_aborted tm (begin now tm₀).1.txn_id ≡ false
    → horizon ≤ global_xmin tm
    → (xmax ≡ 0) ⊎ (xmin ≤ xmax)
    → is_vacuumable xmin xmax horizon tm ≡ true
    → Handle.is_visible (begin now tm₀).1 xmin xmax tm ≡ false
vacuumable-not-visible_txn tm₀ tm now horizon xmin xmax v room r a live le age e =
    own-vacuumable tm (begin now tm₀).1 xmin xmax horizon (begin-Taken tm₀ v now room).consistent
      (le_trans le (global_xmin-le_begin tm₀ v now room tm r a)) (begin_ids tm₀ v now room).0 live
      age e

-- The vacuum horizon protects a reader that holds a snapshot without a transaction. Let
-- `read_snapshot` run on a valid manager, let any steps of other threads follow, and let the reader
-- not have ended its read. A version that is vacuumable under a horizon that is not above the current
-- `global_xmin` is not visible to the reader.
pub vacuumable-not-visible_reader :
    (tm₀ tm : TransactionManager) (horizon xmin xmax : ℕ)
    → IsValid tm₀
    → tm₀.next_reader_token + 1 < 2 ^ 64
    → Reach (read_snapshot tm₀).0 tm
    → contains_key (read_snapshot tm₀).2 tm.readers ≡ true
    → horizon ≤ global_xmin tm
    → is_vacuumable xmin xmax horizon tm ≡ true
    → Visibility.is_visible xmin xmax (read_snapshot tm₀).1 tm ≡ false
vacuumable-not-visible_reader tm₀ tm horizon xmin xmax v room r a le e =
    vacuumable-not-visible tm (read_snapshot tm₀).1 xmin xmax horizon
      (read_snapshot-Taken tm₀ v room).consistent
      (le_trans le (global_xmin-le_read tm₀ v room tm r a)) e
