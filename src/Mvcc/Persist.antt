-- ===== src/Mvcc/Persist.antt =====
-- What the steps of other threads leave as it is: the entry of a transaction in flight, the entry
-- of a reader, and the outcome of a finished transaction.
use flux_db.Common.{
  ℕ, ◌<◌, ◌≤◌, ◌≡◌, ◌⊎◌, true, false, get, get-insert, get-remove, arith, List, contains_key,
  get-retain, refl, contains_key-remove,
}
use flux_db.Mvcc.State.{TransactionManager}
use flux_db.Mvcc.Manager.{
  log_status, deactivate, notify_waiters, reserve, read_snapshot, end_read, truncate_clog,
  publish_vacuum_horizon, note_dead_version, take_dead_versions, restore_dead_versions, is_active,
  oldest_active, is_aborted, keeps_status,
}
use flux_db.Mvcc.Invariant.{IsValid}
use flux_db.Mvcc.Steps.{
  Step, Reach, Reach-IsValid, reserves, logs, deactivates, notifies, reads, ends_read, truncates,
  publishes, notes_dead, takes_dead, restores_dead, here, next,
}

-- What one step does to the facts about a transaction `t` and a reader `k` that exist before it.
record Keeps (tm tm' : TransactionManager) (t k : ℕ) : Type 0 where
  ids : tm.next_txn_id ≤ tm'.next_txn_id
  tokens : tm.next_reader_token ≤ tm'.next_reader_token
  horizon : tm.vacuum_horizon ≤ tm'.vacuum_horizon
  entry : is_active tm' t ≡ true → get t tm'.active_txns ≡ get t tm.active_txns
  reader :
      k < tm.next_reader_token
      → contains_key k tm'.readers ≡ true
      → get k tm'.readers ≡ get k tm.readers
  outcome :
      is_active tm t ≡ false
      → (tm.vacuum_horizon ≤ t) ⊎ (is_aborted tm t ≡ false)
      → is_aborted tm' t ≡ is_aborted tm t

module _ {tm tm' : TransactionManager} (t k : ℕ) where
  Keeps-congr :
      tm'.next_txn_id ≡ tm.next_txn_id
      → tm'.next_reader_token ≡ tm.next_reader_token
      → tm.vacuum_horizon ≤ tm'.vacuum_horizon
      → tm'.active_txns ≡ tm.active_txns
      → tm'.readers ≡ tm.readers
      → tm'.clog ≡ tm.clog
      → Keeps tm tm' t k
  unfolding is_aborted
  Keeps-congr n m h a r c = record {
    ids = omega arith;
    tokens = omega arith;
    horizon = h;
    entry = λ _. rw a;
    reader = λ _ _. rw r;
    outcome = λ _ _. rw c;
  }

Step-Keeps :
    {tm tm' : TransactionManager}
    → Step tm tm'
    → IsValid tm
    → (t k : ℕ) → t < tm.next_txn_id
    → Keeps tm tm' t k
unfolding log_status deactivate notify_waiters reserve read_snapshot end_read truncate_clog
    is_active publish_vacuum_horizon note_dead_version take_dead_versions restore_dead_versions
    is_aborted
Step-Keeps {tm} (reserves now room e) v t k h = rw e (record {
  ids = omega arith;
  tokens = omega arith;
  horizon = omega arith;
  entry = λ _.
      ground
        (arith, get-insert tm.next_txn_id t (oldest_active tm tm.next_txn_id, now) tm.active_txns);
  reader = λ _ _. refl;
  outcome = λ _ _. refl;
})
Step-Keeps {tm} (logs u s a e) v t k h = rw e (record {
  ids = omega arith;
  tokens = omega arith;
  horizon = omega arith;
  entry = λ _. refl;
  reader = λ _ _. refl;
  outcome = λ idle _. ground (arith, get-insert u t s tm.clog);
})
Step-Keeps {tm} (deactivates u e) v t k h = rw e (record {
  ids = omega arith;
  tokens = omega arith;
  horizon = omega arith;
  entry =
      λ a. ground (arith, get-remove u t tm.active_txns, contains_key-remove u t tm.active_txns);
  reader = λ _ _. refl;
  outcome = λ _ _. refl;
})
Step-Keeps (notifies u e) v t k h =
    Keeps-congr t k (rw e (ground arith)) (rw e (ground arith)) (rw e (ground arith))
      (rw e (ground arith)) (rw e (ground arith)) (rw e (ground arith))
Step-Keeps {tm} (reads room e) v t k h = rw e (record {
  ids = omega arith;
  tokens = omega arith;
  horizon = omega arith;
  entry = λ _. refl;
  reader = λ g _.
      ground
        (arith, get-insert tm.next_reader_token k (oldest_active tm tm.next_txn_id) tm.readers);
  outcome = λ _ _. refl;
})
Step-Keeps {tm} (ends_read j e) v t k h = rw e (record {
  ids = omega arith;
  tokens = omega arith;
  horizon = omega arith;
  entry = λ _. refl;
  reader = λ g a. ground (arith, get-remove j k tm.readers, contains_key-remove j k tm.readers);
  outcome = λ _ _. refl;
})
Step-Keeps {tm} (truncates d e) v t k h = rw e (record {
  ids = omega arith;
  tokens = omega arith;
  horizon = omega arith;
  entry = λ _. refl;
  reader = λ _ _. refl;
  outcome =
      λ _ old. ground (arith, get-retain (keeps_status d tm.vacuum_horizon) t tm.clog v.maps.2);
})
Step-Keeps (publishes d e) v t k h =
    Keeps-congr t k (rw e) (rw e) (rw e (omega arith)) (rw e) (rw e) (rw e)
Step-Keeps (notes_dead e) v t k h =
    Keeps-congr t k (rw e) (rw e) (rw e (omega arith)) (rw e) (rw e) (rw e)
Step-Keeps (takes_dead e) v t k h =
    Keeps-congr t k (rw e) (rw e) (rw e (omega arith)) (rw e) (rw e) (rw e)
Step-Keeps (restores_dead n e) v t k h =
    Keeps-congr t k (rw e) (rw e) (rw e (omega arith)) (rw e) (rw e) (rw e)

contains_key_congr {ℓ} :
    {V : Type ℓ} (k : ℕ) (m m' : List (ℕ × V))
    → get k m ≡ get k m'
    → contains_key k m ≡ contains_key k m'
unfolding contains_key
contains_key_congr k m m' h = ground arith

-- What any run leaves as it is.
pub record Kept (tm tm' : TransactionManager) (t k : ℕ) : Type 0 where
  pub ids : tm.next_txn_id ≤ tm'.next_txn_id
  pub tokens : tm.next_reader_token ≤ tm'.next_reader_token
  pub horizon : tm.vacuum_horizon ≤ tm'.vacuum_horizon
  pub entry : is_active tm' t ≡ true → get t tm'.active_txns ≡ get t tm.active_txns
  pub reader :
      k < tm.next_reader_token
      → contains_key k tm'.readers ≡ true
      → get k tm'.readers ≡ get k tm.readers
  pub outcome :
      is_active tm t ≡ false
      → (tm'.vacuum_horizon ≤ t) ⊎ (is_aborted tm t ≡ false)
      → (is_active tm' t ≡ false) × (is_aborted tm' t ≡ is_aborted tm t)

pub Reach-Kept :
    {tm tm' : TransactionManager}
    → Reach tm tm'
    → IsValid tm
    → (t k : ℕ) → t < tm.next_txn_id
    → Kept tm tm' t k
unfolding is_active
Reach-Kept here v t k h = record {
  ids = omega arith;
  tokens = omega arith;
  horizon = omega arith;
  entry = λ _. refl;
  reader = λ _ _. refl;
  outcome = λ idle _. (idle, refl);
}
Reach-Kept {tm} {tm'} (next {tm₁} r s) v t k h =
    let before = Reach-Kept r v t k h in
    let step = Step-Keeps s (Reach-IsValid r v) t k (omega (arith, before.ids)) in
    record {
      ids = omega (arith, before.ids, step.ids);
      tokens = omega (arith, before.tokens, step.tokens);
      horizon = omega (arith, before.horizon, step.horizon);
      entry = λ a. ground (
        arith,
        step.entry a,
        contains_key_congr t tm'.active_txns tm₁.active_txns (step.entry a),
        before.entry,
      );
      reader = λ g a. ground (
        arith,
        step.reader (omega (arith, before.tokens)) a,
        contains_key_congr k tm'.readers tm₁.readers (step.reader (omega (arith, before.tokens)) a),
        before.reader g,
      );
      outcome = λ idle old. ground (
        arith,
        step.horizon,
        before.outcome idle,
        step.outcome,
        step.entry,
        contains_key_congr t tm'.active_txns tm₁.active_txns,
      );
    }
