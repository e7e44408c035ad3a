-- ===== src/Mvcc/Horizon.antt =====
-- The vacuum horizon `global_xmin`, and what it bounds.
use flux_db.Common.{
  ℕ, ◌≤◌, ◌≡◌, true, some, inl, inr, get, get-insert, get-remove, arith, Option-cases, min?,
  contains-min?, min?-le, contains, contains-append, contains-values, get_of_contains-values,
  contains-keys, keys, get_of_contains_key, ◌++◌, Bool-cases, not-contains_of_min?, contains_key,
  contains_key_of_get,
}
use flux_db.Mvcc.State.{TransactionManager}
use flux_db.Mvcc.Manager.{
  log_status, deactivate, notify_waiters, reserve, read_snapshot, end_read, truncate_clog,
  publish_vacuum_horizon, note_dead_version, take_dead_versions, restore_dead_versions, is_active,
  global_xmin, oldest_active, active_xmins, reader_xmins,
}
use flux_db.Mvcc.Invariant.{IsValid}
use flux_db.Mvcc.Steps.{
  Step, Reach, Reach-IsValid, reserves, logs, deactivates, notifies, reads, ends_read, truncates,
  publishes, notes_dead, takes_dead, restores_dead, here, next,
}

-- `b` is at most every snapshot's xmin, and at most the next id.
pub record IsBound (b : ℕ) (tm : TransactionManager) : Type 0 where
  pub active : (t : ℕ) (e : ℕ × ℕ) → get t tm.active_txns ≡ some e → b ≤ e.0
  pub readers : (k x : ℕ) → get k tm.readers ≡ some x → b ≤ x
  pub next_id : b ≤ tm.next_txn_id

module _ (tm : TransactionManager) (v : IsValid tm) where
  held :
      (x : ℕ)
      → contains (active_xmins tm ++ reader_xmins tm) x ≡ true
      → (b : ℕ) → IsBound b tm
      → b ≤ x
  held x h b i = elim (Bool-cases (contains (active_xmins tm) x)) [
    | inl a ↦
        let (k, e, g, q) =
          get_of_contains-values (λ (e : ℕ × ℕ). e.0) tm.active_txns x v.maps.0 a in
        ground (arith, i.active k e g)
    | inr a ↦
        let c : contains (reader_xmins tm) x ≡ true =
          ground (arith, contains-append (active_xmins tm) (reader_xmins tm) x) in
        let (k, e, g, q) = get_of_contains-values (λ (e : ℕ). e) tm.readers x v.maps.1 c in
        ground (arith, i.readers k e g)
  ]

  pub IsBound-le : (b : ℕ) → IsBound b tm → b ≤ global_xmin tm
  unfolding global_xmin
  IsBound-le b i = elim (Option-cases (min? (active_xmins tm ++ reader_xmins tm))) [
    | inl e ↦ rw e i.next_id
    | inr (m, e) ↦ rw e (held m (contains-min? _ m e) b i)
  ]

  global_xmin-le :
      (x : ℕ) → contains (active_xmins tm ++ reader_xmins tm) x ≡ true → global_xmin tm ≤ x
  unfolding global_xmin
  global_xmin-le x h = elim (Option-cases (min? (active_xmins tm ++ reader_xmins tm))) [
    | inl e ↦ ground (arith, not-contains_of_min? (active_xmins tm ++ reader_xmins tm) x e)
    | inr (m, e) ↦ rw e (min?-le (active_xmins tm ++ reader_xmins tm) x m h e)
  ]

  global_xmin-le_next : global_xmin tm ≤ tm.next_txn_id
  unfolding global_xmin is_active
  global_xmin-le_next = elim (Option-cases (min? (active_xmins tm ++ reader_xmins tm))) [
    | inl e ↦ rw e (omega arith)
    | inr (m, e) ↦ rw e (below m (contains-min? _ m e))
  ]
    where
      from_active : (m : ℕ) → contains (active_xmins tm) m ≡ true → m ≤ tm.next_txn_id
      from_active m c =
          let (k, e, g, q) =
            get_of_contains-values (λ (e : ℕ × ℕ). e.0) tm.active_txns m v.maps.0 c in
          omega (
            arith,
            v.active_xmins k e g,
            q,
            v.active_ids k (contains_key_of_get k tm.active_txns g),
          )

      from_readers : (m : ℕ) → contains (reader_xmins tm) m ≡ true → m ≤ tm.next_txn_id
      from_readers m c =
          let (k, e, g, q) = get_of_contains-values (λ (e : ℕ). e) tm.readers m v.maps.1 c in
          omega (arith, v.reader_xmins k e g, q)

      below : (m : ℕ) → contains (active_xmins tm ++ reader_xmins tm) m ≡ true → m ≤ tm.next_txn_id
      below m c = ground (
        arith,
        contains-append (active_xmins tm) (reader_xmins tm) m,
        from_active m,
        from_readers m,
      )

  pub global_xmin-IsBound : IsBound (global_xmin tm) tm
  global_xmin-IsBound = record {
    active = λ t e h. ground (
      arith,
      global_xmin-le e.0,
      contains-append (active_xmins tm) (reader_xmins tm) e.0,
      contains-values (λ (e : ℕ × ℕ). e.0) t tm.active_txns e h,
    );
    readers = λ k x h. ground (
      arith,
      global_xmin-le x,
      contains-append (active_xmins tm) (reader_xmins tm) x,
      contains-values (λ (e : ℕ). e) k tm.readers x h,
    );
    next_id = global_xmin-le_next;
  }

  -- A bound is at most the oldest id in flight.
  IsBound-le_oldest : (b d : ℕ) → b ≤ d → IsBound b tm → b ≤ oldest_active tm d
  unfolding oldest_active
  IsBound-le_oldest b d h i = elim (Option-cases (min? (keys tm.active_txns))) [
    | inl e ↦ rw e h
    | inr (m, e) ↦
        let key : contains_key m tm.active_txns ≡ true =
          ground (arith, contains-min? (keys tm.active_txns) m e, contains-keys m tm.active_txns) in
        let (a, g) = get_of_contains_key m tm.active_txns key in
        rw e (omega (arith, i.active m a g, v.active_xmins m a g))
  ]

module _ {tm tm' : TransactionManager} (b : ℕ) (i : IsBound b tm) where
  IsBound-congr :
      tm'.next_txn_id ≡ tm.next_txn_id
      → tm'.active_txns ≡ tm.active_txns
      → tm'.readers ≡ tm.readers
      → IsBound b tm'
  IsBound-congr n a r = record {
    active = λ t e h. ground (arith, i.active t e);
    readers = λ k x h. ground (arith, i.readers k x);
    next_id = rw n i.next_id;
  }

-- A bound stays one, whatever step is taken.
pub Step-IsBound :
    {tm tm' : TransactionManager}
    → Step tm tm'
    → IsValid tm
    → (b : ℕ) → IsBound b tm
    → IsBound b tm'
unfolding log_status deactivate notify_waiters reserve read_snapshot end_read truncate_clog
    publish_vacuum_horizon note_dead_version take_dead_versions restore_dead_versions
Step-IsBound {tm} (reserves now room e) v b i = rw e (record {
  active = λ t a h. ground (
    arith,
    get-insert tm.next_txn_id t (oldest_active tm tm.next_txn_id, now) tm.active_txns,
    i.active t a,
    IsBound-le_oldest tm v b tm.next_txn_id i.next_id i,
  );
  readers = i.readers;
  next_id = omega (arith, i.next_id);
})
Step-IsBound {tm} (logs t s h e) v b i = IsBound-congr b i (rw e) (rw e) (rw e)
Step-IsBound {tm} (deactivates t e) v b i = rw e (record {
  active = λ u a h. ground (arith, get-remove t u tm.active_txns, i.active u a);
  readers = i.readers;
  next_id = i.next_id;
})
Step-IsBound {tm} (notifies t e) v b i =
    IsBound-congr b i (rw e (ground arith)) (rw e (ground arith)) (rw e (ground arith))
Step-IsBound {tm} (reads h e) v b i = rw e (record {
  active = i.active;
  readers = λ k x g. ground (
    arith,
    get-insert tm.next_reader_token k (oldest_active tm tm.next_txn_id) tm.readers,
    i.readers k x,
    IsBound-le_oldest tm v b tm.next_txn_id i.next_id i,
  );
  next_id = i.next_id;
})
Step-IsBound {tm} (ends_read k e) v b i = rw e (record {
  active = i.active;
  readers = λ j x h. ground (arith, get-remove k j tm.readers, i.readers j x);
  next_id = i.next_id;
})
Step-IsBound (truncates h e) v b i = IsBound-congr b i (rw e) (rw e) (rw e)
Step-IsBound (publishes h e) v b i = IsBound-congr b i (rw e) (rw e) (rw e)
Step-IsBound (notes_dead e) v b i = IsBound-congr b i (rw e) (rw e) (rw e)
Step-IsBound (takes_dead e) v b i = IsBound-congr b i (rw e) (rw e) (rw e)
Step-IsBound (restores_dead n e) v b i = IsBound-congr b i (rw e) (rw e) (rw e)

Reach-IsBound :
    {tm tm' : TransactionManager}
    → Reach tm tm'
    → IsValid tm
    → (b : ℕ) → IsBound b tm
    → IsBound b tm'
Reach-IsBound here v b i = i
Reach-IsBound (next r s) v b i = Step-IsBound s (Reach-IsValid r v) b (Reach-IsBound r v b i)

-- Over any interleaving of steps from a valid manager, `global_xmin` never decreases.
pub global_xmin_mono :
    {tm tm' : TransactionManager} → Reach tm tm' → IsValid tm → global_xmin tm ≤ global_xmin tm'
global_xmin_mono {tm} {tm'} r v =
    IsBound-le tm' (Reach-IsValid r v) (global_xmin tm)
      (Reach-IsBound r v (global_xmin tm) (global_xmin-IsBound tm v))
