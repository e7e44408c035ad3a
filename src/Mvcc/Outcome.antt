-- ===== src/Mvcc/Outcome.antt =====
-- The life of one transaction: in flight, then committed or aborted for every later snapshot; and
-- what the truncation and the seeding of the CLOG do to the recorded outcomes.
use flux_db.Common.{
  ℕ, ◌<◌, ◌≤◌, ◌≡◌, ◌⊎◌, ◌≢◌, true, false, not, arith, List, [], ◌∷◌, ◌||◌, contains, contains-keys,
  get, insert, get-insert, get-retain, contains_key-remove, refl, some, if◌then◌else◌,
}
use flux_db.Mvcc.State.{TransactionStatus, committed, aborted, TransactionManager}
use flux_db.Mvcc.Manager
use flux_db.Mvcc.Manager.{
  get_snapshot, mark_committed, mark_aborted, notify_waiters, deactivate, log_status, is_active,
  is_aborted, truncate_clog, settled_status, global_xmin, seed, seed_clog_from_checkpoint,
  keeps_status, oldest_active,
}
use flux_db.Mvcc.Visibility
use flux_db.Mvcc.Visibility.{status_eq}
use flux_db.Mvcc.Invariant.{IsValid}

-- What a settling call leaves: `t` has the status and is not in flight, and the other transactions
-- are as they were.
record Settled (tm tm' : TransactionManager) (t : ℕ) (s : TransactionStatus) : Type 0 where
  status : get t tm'.clog ≡ some s
  idle : is_active tm' t ≡ false
  other_status : (u : ℕ) → u ≢ t → get u tm'.clog ≡ get u tm.clog
  other_active : (u : ℕ) → u ≢ t → is_active tm' u ≡ is_active tm u
  next : tm'.next_txn_id ≡ tm.next_txn_id

module _ (tm : TransactionManager) (t : ℕ) where
  settle_lem :
      (s : TransactionStatus) → Settled tm (notify_waiters t (deactivate t (log_status t s tm))) t s
  unfolding notify_waiters deactivate log_status is_active
  settle_lem s = record {
    status = ground (arith, get-insert t t s tm.clog);
    idle = ground (arith, contains_key-remove t t tm.active_txns);
    other_status = λ u n. ground (arith, get-insert t u s tm.clog);
    other_active = λ u n. ground (arith, contains_key-remove t u tm.active_txns);
    next = ground arith;
  }

  mark_committed-Settled : Settled tm (mark_committed t tm) t committed
  unfolding mark_committed
  mark_committed-Settled = settle_lem committed

  mark_aborted-Settled : Settled tm (mark_aborted t tm) t aborted
  unfolding mark_aborted
  mark_aborted-Settled = settle_lem aborted

module _ (tm tm' : TransactionManager) (t : ℕ) (s : TransactionStatus)
    (done : Settled tm tm' t s) where
  is_committed_self :
      0 < t
      → t < tm.next_txn_id
      → Visibility.is_committed (get_snapshot tm') t tm' ≡ not (status_eq s aborted)
  unfolding Visibility.is_committed get_snapshot is_aborted is_active
  is_committed_self p h =
      ground (arith, done.status, done.idle, done.next, contains-keys t tm'.active_txns)

  is_committed_other :
      (u : ℕ)
      → u ≢ t
      → Visibility.is_committed (get_snapshot tm') u tm'
        ≡ Visibility.is_committed (get_snapshot tm) u tm
  unfolding Visibility.is_committed get_snapshot is_aborted is_active
  is_committed_other u n = ground (
    arith,
    done.other_status u n,
    done.other_active u n,
    done.next,
    contains-keys u tm'.active_txns,
    contains-keys u tm.active_txns,
  )

-- Of a valid manager, a transaction in flight is committed for no snapshot taken before it settles. After
-- `mark_committed` it is committed for the next snapshot, and after `mark_aborted` it is not.
pub is_committed-settled :
    (tm : TransactionManager) (t : ℕ)
    → IsValid tm
    → is_active tm t ≡ true
    → (Visibility.is_committed (get_snapshot tm) t tm ≡ false)
      × (Visibility.is_committed (get_snapshot (mark_committed t tm)) t (mark_committed t tm)
          ≡ true)
      × (Visibility.is_committed (get_snapshot (mark_aborted t tm)) t (mark_aborted t tm) ≡ false)
unfolding Visibility.is_committed get_snapshot is_active
is_committed-settled tm t v a =
    let (p, h) = v.active_ids t a in
    (
      ground (arith, contains-keys t tm.active_txns),
      is_committed_self tm (mark_committed t tm) t committed (mark_committed-Settled tm t) p h,
      is_committed_self tm (mark_aborted t tm) t aborted (mark_aborted-Settled tm t) p h,
    )

-- Settling one transaction, either way, changes the verdict of the next snapshot on no other.
pub is_committed-settled_ne :
    (tm : TransactionManager) (t u : ℕ)
    → u ≢ t
    → (Visibility.is_committed (get_snapshot (mark_committed t tm)) u (mark_committed t tm)
        ≡ Visibility.is_committed (get_snapshot tm) u tm)
      × (Visibility.is_committed (get_snapshot (mark_aborted t tm)) u (mark_aborted t tm)
          ≡ Visibility.is_committed (get_snapshot tm) u tm)
is_committed-settled_ne tm t u n = (
  is_committed_other tm (mark_committed t tm) t committed (mark_committed-Settled tm t) u n,
  is_committed_other tm (mark_aborted t tm) t aborted (mark_aborted-Settled tm t) u n,
)

-- A transaction that is settled, either way, is no longer in flight.
pub is_active-settled :
    (tm : TransactionManager) (t : ℕ)
    → (is_active (mark_committed t tm) t ≡ false) × (is_active (mark_aborted t tm) t ≡ false)
is_active-settled tm t = ((mark_committed-Settled tm t).idle, (mark_aborted-Settled tm t).idle)

-- Of a valid manager, truncating the CLOG up to a horizon that is not above `global_xmin` changes no settled status,
-- but that of aborted transactions below the vacuum horizon.
pub settled_status-truncate_clog :
    (tm : TransactionManager) (horizon t : ℕ)
    → IsValid tm
    → horizon ≤ global_xmin tm
    → (tm.vacuum_horizon ≤ t) ⊎ (is_aborted tm t ≡ false)
    → settled_status (truncate_clog horizon tm) t ≡ settled_status tm t
unfolding settled_status truncate_clog Manager.is_committed is_aborted global_xmin
settled_status-truncate_clog tm horizon t v h g =
    ground (arith, get-retain (keeps_status horizon tm.vacuum_horizon) t tm.clog v.maps.2)

is_aborted_seed :
    (ids : List ℕ) (t : ℕ) (clog : List (ℕ × TransactionStatus))
    → get t (seed ids clog) ≡ (if contains ids t then some aborted else get t clog)
unfolding seed
is_aborted_seed [] t clog = refl
is_aborted_seed (i ∷ ids) t clog =
    ground (arith, is_aborted_seed ids t (insert i aborted clog), get-insert i t aborted clog)

-- After seeding, exactly the pinned ids and those that were aborted before are aborted.
pub is_aborted-seed_clog_from_checkpoint :
    (ids : List ℕ) (t : ℕ) (tm : TransactionManager)
    → is_aborted (seed_clog_from_checkpoint ids tm) t ≡ (contains ids t || is_aborted tm t)
unfolding seed_clog_from_checkpoint is_aborted
is_aborted-seed_clog_from_checkpoint ids t tm = ground (arith, is_aborted_seed ids t tm.clog)
