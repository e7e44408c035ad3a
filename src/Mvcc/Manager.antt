-- ===== src/Mvcc/Manager.antt =====
-- The methods of `TransactionManager`, crates/db-core/src/transaction_manager.rs.
use Prim.Native.Nat.{max}
use flux_db.Common.{
  ℕ, ◌+◌, ◌-◌, ◌%◌, ◌^◌, Bool, true, false, Option, none, some, List, [], ◌∷◌, map, ltb, leb, ◌==◌,
  if◌then◌else◌, min?, get, insert, remove, contains_key, keys, values, retain, ◌++◌,
}
use flux_db.Mvcc.State.{
  TransactionStatus, active, committed, aborted, TransactionManager, Snapshot, Transaction,
}

-- `fetch_add` on an `AtomicU64`
abbrev pub u64_add : ℕ → ℕ → ℕ
u64_add a b = (a + b) % 2 ^ 64

abbrev pub u64_max : ℕ
u64_max = 2 ^ 64 - 1

-- `Option::unwrap_or`
abbrev pub unwrap_or : Option ℕ → ℕ → ℕ
unwrap_or none d = d
unwrap_or (some a) d = a

unfoldable pub new : TransactionManager
new = record {
  next_txn_id = 1;
  clog = [];
  vacuum_horizon = 0;
  dead_versions = 0;
  active_txns = [];
  readers = [];
  next_reader_token = 0;
  waiters = [];
  settled = [];
  next_entry = 0;
}

-- The snapshot xmins of the transactions in flight.
abbrev pub active_xmins : TransactionManager → List ℕ
active_xmins tm = map (λ e. e.0) (values tm.active_txns)

abbrev pub reader_xmins : TransactionManager → List ℕ
reader_xmins tm = map (λ x. x) (values tm.readers)

unfoldable pub global_xmin : TransactionManager → ℕ
global_xmin tm = unwrap_or (min? (active_xmins tm ++ reader_xmins tm)) tm.next_txn_id

-- `active.keys().min()`, and the bound when nothing is in flight
unfoldable pub oldest_active : TransactionManager → ℕ → ℕ
oldest_active tm d = unwrap_or (min? (keys tm.active_txns)) d

unfoldable pub get_snapshot : TransactionManager → Snapshot
unfolding oldest_active
get_snapshot tm = record {
  xmin = oldest_active tm tm.next_txn_id;
  xmax = tm.next_txn_id;
  active = keys tm.active_txns;
}

unfoldable pub read_snapshot : TransactionManager → TransactionManager × Snapshot × ℕ
unfolding oldest_active
read_snapshot tm =
    let xmax = tm.next_txn_id in
    let xmin = oldest_active tm xmax in
    let token = tm.next_reader_token in
    (
      record tm { next_reader_token = u64_add token 1; readers = insert token xmin tm.readers },
      record { xmin = xmin; xmax = xmax; active = keys tm.active_txns },
      token,
    )

unfoldable pub end_read : ℕ → TransactionManager → TransactionManager
end_read token tm = record tm { readers = remove token tm.readers }

max_age : ℕ → List (ℕ × ℕ) → Option ℕ
max_age now [] = none
max_age now ((_, began) ∷ es) = elim (max_age now es) [
  | none ↦ some (now - began)
  | some a ↦ some (max (now - began) a)
]

-- `now` is the clock's reading when the method runs.
unfoldable pub oldest_active_txn_age : ℕ → TransactionManager → Option ℕ
unfolding max_age
oldest_active_txn_age now tm = max_age now (values tm.active_txns)

unfoldable pub publish_vacuum_horizon : ℕ → TransactionManager → TransactionManager
publish_vacuum_horizon horizon tm = record tm { vacuum_horizon = max tm.vacuum_horizon horizon }

unfoldable pub note_dead_version : TransactionManager → TransactionManager
note_dead_version tm = record tm { dead_versions = u64_add tm.dead_versions 1 }

unfoldable pub take_dead_versions : TransactionManager → TransactionManager × ℕ
take_dead_versions tm = (record tm { dead_versions = 0 }, tm.dead_versions)

unfoldable pub restore_dead_versions : ℕ → TransactionManager → TransactionManager
restore_dead_versions n tm = record tm { dead_versions = u64_add tm.dead_versions n }

-- The closure that `truncate_clog` retains by.
abbrev pub keeps_status : ℕ → ℕ → ℕ → TransactionStatus → Bool
keeps_status committed_horizon aborted_horizon txn_id active = true
keeps_status committed_horizon aborted_horizon txn_id committed = leb committed_horizon txn_id
keeps_status committed_horizon aborted_horizon txn_id aborted = leb aborted_horizon txn_id

unfoldable pub truncate_clog : ℕ → TransactionManager → TransactionManager
truncate_clog committed_horizon tm = record tm {
  clog = retain (keeps_status committed_horizon tm.vacuum_horizon) tm.clog;
}

-- One write to the CLOG.
unfoldable pub log_status : ℕ → TransactionStatus → TransactionManager → TransactionManager
log_status txn_id status tm = record tm { clog = insert txn_id status tm.clog }

-- The part of `begin` under the write lock on `active_txns`.
unfoldable pub reserve : ℕ → TransactionManager → TransactionManager × Transaction
unfolding oldest_active
reserve now tm =
    let txn_id = tm.next_txn_id in
    let xmin = oldest_active tm txn_id in
    let next = u64_add txn_id 1 in
    let entries = insert txn_id (xmin, now) tm.active_txns in
    (
      record tm { next_txn_id = next; active_txns = entries },
      record {
        txn_id = txn_id;
        snapshot = record { xmin = xmin; xmax = next; active = keys entries };
        wrote_anything = false;
      },
    )

unfoldable pub begin : ℕ → TransactionManager → TransactionManager × Transaction
unfolding reserve log_status
begin now tm = let (tm', txn) = reserve now tm in (log_status txn.txn_id active tm', txn)

unfoldable pub deactivate : ℕ → TransactionManager → TransactionManager
deactivate txn_id tm = record tm { active_txns = remove txn_id tm.active_txns }

unfoldable pub notify_waiters : ℕ → TransactionManager → TransactionManager
notify_waiters txn_id tm = elim (get txn_id tm.waiters) [
  | none ↦ record tm { waiters = remove txn_id tm.waiters }
  | some entry ↦ record tm { waiters = remove txn_id tm.waiters; settled = entry ∷ tm.settled }
]

unfoldable pub mark_committed : ℕ → TransactionManager → TransactionManager
unfolding notify_waiters deactivate log_status
mark_committed txn_id tm =
    notify_waiters txn_id (deactivate txn_id (log_status txn_id committed tm))

unfoldable pub mark_aborted : ℕ → TransactionManager → TransactionManager
unfolding notify_waiters deactivate log_status
mark_aborted txn_id tm = notify_waiters txn_id (deactivate txn_id (log_status txn_id aborted tm))

unfoldable pub is_committed : TransactionManager → ℕ → Bool
is_committed tm txn_id = if txn_id == 0 then true else elim (get txn_id tm.clog) [
  | none ↦ false
  | some s ↦ elim s [ committed ↦ true | _ ↦ false ]
]

unfoldable pub is_aborted : TransactionManager → ℕ → Bool
is_aborted tm txn_id = elim (get txn_id tm.clog) [
  | none ↦ false
  | some s ↦ elim s [ aborted ↦ true | _ ↦ false ]
]

unfoldable pub is_active : TransactionManager → ℕ → Bool
is_active tm txn_id = contains_key txn_id tm.active_txns

unfoldable pub settled_status : TransactionManager → ℕ → TransactionStatus
settled_status tm txn_id =
    if is_committed tm txn_id
    then committed
    else if is_aborted tm txn_id
    then aborted
    else if ltb txn_id (global_xmin tm)
    then committed
    else active

unfoldable pub seed : List ℕ → List (ℕ × TransactionStatus) → List (ℕ × TransactionStatus)
seed [] clog = clog
seed (txn_id ∷ ids) clog = seed ids (insert txn_id aborted clog)

unfoldable pub seed_clog_from_checkpoint : List ℕ → TransactionManager → TransactionManager
unfolding seed
seed_clog_from_checkpoint pinned_aborted tm = record tm { clog = seed pinned_aborted tm.clog }
