-- ===== src/Engine/Tests.antt =====
-- Commits and aborts at a concrete state.
use flux_db.Common.{◌≡◌, ◌↔◌, true, false, some, [], ◌∷◌, get, contains_key, arith, refl}
use flux_db.Mvcc.State.{TransactionManager, Transaction, active}
use flux_db.Mvcc.Manager.{is_active}
use flux_db.Mvcc.Invariant.{IsValid}
use flux_db.Engine.Txn.{commit, abort, Commits, commit-Commits, abort-is_active_iff}

-- Transaction 1 is in flight, and has written.
abbrev running : TransactionManager
running = record {
  next_txn_id = 2;
  clog = (1, active) ∷ [];
  vacuum_horizon = 0;
  dead_versions = 0;
  active_txns = (1, (1, 0)) ∷ [];
  readers = [];
  next_reader_token = 0;
  waiters = [];
  settled = [];
  next_entry = 0;
}

abbrev writer : Transaction
writer = record {
  txn_id = 1;
  snapshot = record { xmin = 1; xmax = 1; active = [] };
  wrote_anything = true;
}

running-IsValid : IsValid running
unfolding get contains_key is_active
running-IsValid = record {
  next_pos = omega arith;
  active_ids = λ t h. ground arith;
  active_xmins = λ t e h. ground arith;
  reader_xmins = λ k x h. ground arith;
  reader_tokens = λ k x h. ground arith;
  clog_ids = λ t s h. ground arith;
  maps = ((refl, tt), tt, (refl, tt));
}

-- The record is appended at 7, and the flush fails.
commit-Commits_example :
    Commits (some 7) (λ lsn. false) writer (commit (some 7) (λ lsn. false) writer running)
unfolding get contains_key is_active
commit-Commits_example = commit-Commits writer running running-IsValid refl (some 7) (λ lsn. false)

abort-is_active_iff_example :
    (is_active (abort false writer running).0 1 ≡ true) ↔ ((true ≡ true) × (false ≡ false))
unfolding get contains_key is_active
abort-is_active_iff_example = abort-is_active_iff writer running running-IsValid refl false
