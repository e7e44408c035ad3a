-- ===== src/Mvcc/Invariant.antt =====
-- The invariant of the transaction manager, operation by operation.
use flux_db.Common.{
  ℕ, ◌+◌, ◌<◌, ◌≤◌, ◌^◌, ◌≡◌, refl, Bool, true, some, inl, inr, get, keys, contains_key, IsMap,
  get-insert, get-remove, remove-IsMap, insert-IsMap, retain-IsMap, get-retain, arith, min?,
  contains_key-insert, contains_key-remove, Option-cases, contains-min?, contains-keys,
}
use flux_db.Mvcc.State.{TransactionStatus, TransactionManager}
use flux_db.Mvcc.Manager.{
  log_status, deactivate, notify_waiters, reserve, read_snapshot, end_read, truncate_clog,
  publish_vacuum_horizon, new, is_active, oldest_active, keeps_status,
}

-- Ids are handed out in order: a transaction in flight, a snapshot's xmin and a CLOG entry lie
-- below the next id, reader tokens below the next token, and no snapshot's xmin is above the id that holds it.
pub record IsValid (tm : TransactionManager) : Type 0 where
  pub next_pos : 0 < tm.next_txn_id
  pub active_ids : (t : ℕ) → is_active tm t ≡ true → (0 < t) × (t < tm.next_txn_id)
  pub active_xmins : (t : ℕ) (e : ℕ × ℕ) → get t tm.active_txns ≡ some e → e.0 ≤ t
  pub reader_xmins : (k x : ℕ) → get k tm.readers ≡ some x → x ≤ tm.next_txn_id
  pub reader_tokens : (k x : ℕ) → get k tm.readers ≡ some x → k < tm.next_reader_token
  pub clog_ids :
      (t : ℕ) (s : TransactionStatus) → get t tm.clog ≡ some s → (0 < t) × (t < tm.next_txn_id)
  pub maps : IsMap tm.active_txns × IsMap tm.readers × IsMap tm.clog

pub new-IsValid : IsValid new
unfolding new is_active contains_key get
new-IsValid = record {
  next_pos = omega arith;
  active_ids = λ t h. ground arith;
  active_xmins = λ t e h. ground arith;
  reader_xmins = λ k x h. ground arith;
  reader_tokens = λ k x h. ground arith;
  clog_ids = λ t s h. ground arith;
  maps = (tt, tt, tt);
}

module _ (tm : TransactionManager) (v : IsValid tm) where
  -- The counters and the waiters do not matter.
  pub IsValid-congr :
      (tm' : TransactionManager)
      → tm'.next_txn_id ≡ tm.next_txn_id
      → tm'.active_txns ≡ tm.active_txns
      → tm'.readers ≡ tm.readers
      → tm'.next_reader_token ≡ tm.next_reader_token
      → tm'.clog ≡ tm.clog
      → IsValid tm'
  unfolding is_active
  IsValid-congr tm' n a r k c = record {
    next_pos = rw n v.next_pos;
    active_ids = λ t h. ground (arith, v.active_ids t);
    active_xmins = λ t e h. ground (arith, v.active_xmins t e);
    reader_xmins = λ j x h. ground (arith, v.reader_xmins j x);
    reader_tokens = λ j x h. ground (arith, v.reader_tokens j x);
    clog_ids = λ t s h. ground (arith, v.clog_ids t s);
    maps = (rw a v.maps.0, rw r v.maps.1, rw c v.maps.2);
  }

  pub log_status-IsValid :
      (t : ℕ) (s : TransactionStatus) → 0 < t → t < tm.next_txn_id → IsValid (log_status t s tm)
  unfolding log_status is_active
  log_status-IsValid t s p h = record {
    next_pos = v.next_pos;
    active_ids = v.active_ids;
    active_xmins = v.active_xmins;
    reader_xmins = v.reader_xmins;
    reader_tokens = v.reader_tokens;
    clog_ids = λ u r e. ground (arith, get-insert t u s tm.clog, v.clog_ids u r);
    maps = (v.maps.0, v.maps.1, insert-IsMap t s tm.clog v.maps.2);
  }

  pub deactivate-IsValid : (t : ℕ) → IsValid (deactivate t tm)
  unfolding deactivate is_active
  deactivate-IsValid t = record {
    next_pos = v.next_pos;
    active_ids = λ u h. ground (arith, contains_key-remove t u tm.active_txns, v.active_ids u);
    active_xmins = λ u e h. ground (arith, get-remove t u tm.active_txns, v.active_xmins u e);
    reader_xmins = v.reader_xmins;
    reader_tokens = v.reader_tokens;
    clog_ids = v.clog_ids;
    maps = (remove-IsMap t tm.active_txns v.maps.0, v.maps.1, v.maps.2);
  }

  pub end_read-IsValid : (k : ℕ) → IsValid (end_read k tm)
  unfolding end_read is_active
  end_read-IsValid k = record {
    next_pos = v.next_pos;
    active_ids = v.active_ids;
    active_xmins = v.active_xmins;
    reader_xmins = λ j x h. ground (arith, get-remove k j tm.readers, v.reader_xmins j x);
    reader_tokens = λ j x h. ground (arith, get-remove k j tm.readers, v.reader_tokens j x);
    clog_ids = v.clog_ids;
    maps = (v.maps.0, remove-IsMap k tm.readers v.maps.1, v.maps.2);
  }

  pub truncate_clog-IsValid : (h : ℕ) → IsValid (truncate_clog h tm)
  unfolding truncate_clog is_active
  truncate_clog-IsValid h = record {
    next_pos = v.next_pos;
    active_ids = v.active_ids;
    active_xmins = v.active_xmins;
    reader_xmins = v.reader_xmins;
    reader_tokens = v.reader_tokens;
    clog_ids = λ t s e. ground (arith, get-retain keeps t tm.clog v.maps.2, v.clog_ids t s);
    maps = (v.maps.0, v.maps.1, retain-IsMap keeps tm.clog v.maps.2);
  }
    where
      keeps : ℕ → TransactionStatus → Bool
      keeps = keeps_status h tm.vacuum_horizon

  pub notify_waiters-IsValid : (t : ℕ) → IsValid (notify_waiters t tm)
  unfolding notify_waiters
  notify_waiters-IsValid t =
      IsValid-congr (notify_waiters t tm) (ground arith) (ground arith) (ground arith)
        (ground arith) (ground arith)

  pub publish_vacuum_horizon-IsValid : (h : ℕ) → IsValid (publish_vacuum_horizon h tm)
  unfolding publish_vacuum_horizon
  publish_vacuum_horizon-IsValid h =
      IsValid-congr (publish_vacuum_horizon h tm) refl refl refl refl refl

  -- The oldest id in flight is not above the next id.
  pub oldest_active-le : oldest_active tm tm.next_txn_id ≤ tm.next_txn_id
  unfolding oldest_active is_active
  oldest_active-le = elim (Option-cases (min? (keys tm.active_txns))) [
    | inl e ↦ ground arith
    | inr (m, e) ↦ ground (
      arith,
      contains-min? (keys tm.active_txns) m e,
      contains-keys m tm.active_txns,
      v.active_ids m,
    )
  ]

  pub read_snapshot-IsValid : tm.next_reader_token + 1 < 2 ^ 64 → IsValid (read_snapshot tm).0
  unfolding read_snapshot is_active
  read_snapshot-IsValid room = record {
    next_pos = v.next_pos;
    active_ids = v.active_ids;
    active_xmins = v.active_xmins;
    reader_xmins = λ j x h. ground (
      arith,
      get-insert tm.next_reader_token j (oldest_active tm tm.next_txn_id) tm.readers,
      v.reader_xmins j x,
      oldest_active-le,
    );
    reader_tokens = λ j x h. ground (
      arith,
      get-insert tm.next_reader_token j (oldest_active tm tm.next_txn_id) tm.readers,
      v.reader_tokens j x,
    );
    clog_ids = v.clog_ids;
    maps = (
      v.maps.0,
      insert-IsMap tm.next_reader_token (oldest_active tm tm.next_txn_id) tm.readers v.maps.1,
      v.maps.2,
    );
  }

  -- With an id left below 2^64, `begin` keeps the invariant.
  pub reserve-IsValid : (now : ℕ) → tm.next_txn_id + 1 < 2 ^ 64 → IsValid (reserve now tm).0
  unfolding reserve is_active
  reserve-IsValid now room = record {
    next_pos = omega arith;
    active_ids = λ t h. ground (
      arith,
      contains_key-insert next t (oldest_active tm next, now) tm.active_txns,
      v.active_ids t,
      v.next_pos,
    );
    active_xmins = λ t e h. ground (
      arith,
      get-insert next t (oldest_active tm next, now) tm.active_txns,
      v.active_xmins t e,
      oldest_active-le,
    );
    reader_xmins = λ k x h. ground (arith, v.reader_xmins k x);
    reader_tokens = v.reader_tokens;
    clog_ids = λ t s e. ground (arith, v.clog_ids t s);
    maps = (
      insert-IsMap next (oldest_active tm next, now) tm.active_txns v.maps.0,
      v.maps.1,
      v.maps.2,
    );
  }
    where
      open tm use {next_txn_id as next}
