-- ===== src/Mvcc/Begin.antt =====
-- What `begin` and `read_snapshot` establish: the new entry, its id, and the snapshot taken.
use flux_db.Common.{
  ℕ, ◌+◌, ◌<◌, ◌≤◌, ◌^◌, ◌≡◌, true, some, inl, inr, get, get-insert, arith, contains, keys,
  contains-keys, contains_key-insert, insert, Option-cases, min?-le, min?, not-contains_of_min?,
}
use flux_db.Mvcc.State.{active, TransactionManager, Snapshot}
use flux_db.Mvcc.Manager.{reserve, read_snapshot, is_active, oldest_active, begin}
use flux_db.Mvcc.Invariant.{
  IsValid, reserve-IsValid, read_snapshot-IsValid, log_status-IsValid, oldest_active-le,
}

-- What every snapshot satisfies when it is taken.
pub record IsConsistent (snap : Snapshot) : Type 0 where
  pub ordered : snap.xmin ≤ snap.xmax
  pub active_le : (t : ℕ) → contains snap.active t ≡ true → snap.xmin ≤ t

module _ (tm : TransactionManager) where
  oldest_active_bound : (d t : ℕ) → contains (keys tm.active_txns) t ≡ true → oldest_active tm d ≤ t
  unfolding oldest_active
  oldest_active_bound d t c = elim (Option-cases (min? (keys tm.active_txns))) [
    | inl e ↦ ground (arith, not-contains_of_min? (keys tm.active_txns) t e)
    | inr (m, e) ↦ rw e (min?-le (keys tm.active_txns) t m c e)
  ]

reserve-IsConsistent :
    (tm : TransactionManager) (now : ℕ)
    → IsValid tm
    → tm.next_txn_id + 1 < 2 ^ 64
    → IsConsistent (reserve now tm).1.snapshot
unfolding reserve
reserve-IsConsistent tm now v room = record {
  ordered = omega (arith, oldest_active-le tm v);
  active_le = λ t h. ground (
    arith,
    oldest_active-le tm v,
    oldest_active_bound tm tm.next_txn_id t,
    contains-keys t (insert tm.next_txn_id (oldest_active tm tm.next_txn_id, now) tm.active_txns),
    contains-keys t tm.active_txns,
    contains_key-insert tm.next_txn_id t (oldest_active tm tm.next_txn_id, now) tm.active_txns,
  );
}

read_snapshot-IsConsistent :
    (tm : TransactionManager) → IsValid tm → IsConsistent (read_snapshot tm).1
unfolding read_snapshot
read_snapshot-IsConsistent tm v = record {
  ordered = oldest_active-le tm v;
  active_le = oldest_active_bound tm tm.next_txn_id;
}

-- What holds right after a transaction or a reader got its snapshot: the manager `tm` is valid,
-- and the snapshot separates the ids in flight from the finished and the unborn ones.
pub record Taken (tm : TransactionManager) (snap : Snapshot) : Type 0 where
  pub valid : IsValid tm
  pub consistent : IsConsistent snap
  pub bound : snap.xmax ≡ tm.next_txn_id
  pub in_flight : (t : ℕ) → contains snap.active t ≡ is_active tm t

module _ (tm : TransactionManager) (v : IsValid tm) where
  module _ (now : ℕ) (room : tm.next_txn_id + 1 < 2 ^ 64) where
    pub begin-Taken : Taken (begin now tm).0 (begin now tm).1.snapshot
    unfolding begin is_active
    begin-Taken = record {
      valid =
          log_status-IsValid (reserve now tm).0 (reserve-IsValid tm v now room) tm.next_txn_id
            active v.next_pos (omega arith);
      consistent = reserve-IsConsistent tm now v room;
      bound = omega arith;
      in_flight = λ t.
          contains-keys t
            (insert tm.next_txn_id (oldest_active tm tm.next_txn_id, now) tm.active_txns);
    }

    pub get-begin :
        get (begin now tm).1.txn_id (begin now tm).0.active_txns
        ≡ some ((begin now tm).1.snapshot.xmin, now)
    unfolding begin
    get-begin = ground (
      arith,
      get-insert tm.next_txn_id tm.next_txn_id (oldest_active tm tm.next_txn_id, now)
          tm.active_txns,
    )

    -- The new id is the last one handed out, and its snapshot's xmin is not above it.
    pub begin_ids :
        ((begin now tm).1.snapshot.xmin ≤ (begin now tm).1.txn_id)
        × ((begin now tm).1.txn_id < (begin now tm).0.next_txn_id)
    unfolding begin
    begin_ids = (oldest_active-le tm v, omega arith)

  module _ (room : tm.next_reader_token + 1 < 2 ^ 64) where
    pub read_snapshot-Taken : Taken (read_snapshot tm).0 (read_snapshot tm).1
    unfolding read_snapshot is_active
    read_snapshot-Taken = record {
      valid = read_snapshot-IsValid tm v room;
      consistent = read_snapshot-IsConsistent tm v;
      bound = omega arith;
      in_flight = λ t. contains-keys t tm.active_txns;
    }

    pub get-read_snapshot :
        get (read_snapshot tm).2 (read_snapshot tm).0.readers ≡ some (read_snapshot tm).1.xmin
    unfolding read_snapshot
    get-read_snapshot = ground (
      arith,
      get-insert tm.next_reader_token tm.next_reader_token (oldest_active tm tm.next_txn_id)
          tm.readers,
    )

    pub read_snapshot_token : (read_snapshot tm).2 < (read_snapshot tm).0.next_reader_token
    unfolding read_snapshot
    read_snapshot_token = omega arith
