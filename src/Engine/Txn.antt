-- ===== src/Engine/Txn.antt =====
-- `Engine::commit` and `Engine::abort` of crates/engine/src/txn.rs. The log is a parameter: what
-- `log_commit` and `log_abort` answer, an LSN or an error, and whether `flush_up_to` makes an LSN
-- durable. The status guard keeps checkpoints out and has no part in the outcome.
use flux_db.Common.{
  ℕ, ◌≡◌, ◌⊎◌, ◌↔◌, Bool, true, false, not, Option, none, some, if◌then◌else◌, if_cases, inl, inr,
  arith, refl,
}
use flux_db.Mvcc.State.{TransactionManager, Transaction}
use flux_db.Mvcc.Manager.{mark_committed, mark_aborted, is_active, get_snapshot}
use flux_db.Mvcc.Visibility
use flux_db.Mvcc.Invariant.{IsValid}
use flux_db.Mvcc.Outcome.{is_committed-settled, is_active-settled}

-- `EngineError` of crates/common/src/error.rs, without what the errors of other parts carry.
pub data EngineError : Type 0 where
  already_exists : EngineError
  not_found : EngineError
  io : EngineError
  disk : EngineError
  wal : EngineError
  buffer_pool : EngineError
  index : EngineError
  transaction_conflict : EngineError
  background_thread_panicked : EngineError

pub data Result {ℓ} (A : Type ℓ) : Type ℓ where
  ok : A → Result A
  err : EngineError → Result A

module _ (log_commit : Option ℕ) (flush_up_to : ℕ → Bool) where
  -- The outcome for a transaction that wrote.
  abbrev pub commit_logged :
      ℕ → Option ℕ → TransactionManager → TransactionManager × Result (Unit {0})
  commit_logged txn_id none tm = (mark_aborted txn_id tm, err wal)
  commit_logged txn_id (some lsn) tm =
      if flush_up_to lsn
      then (mark_committed txn_id tm, ok tt)
      else (mark_aborted txn_id tm, err wal)

  unfoldable pub commit : Transaction → TransactionManager → TransactionManager × Result (Unit {0})
  commit txn tm =
      if not txn.wrote_anything
      then (mark_committed txn.txn_id tm, ok tt)
      else commit_logged txn.txn_id log_commit tm

  -- The commit record is durable, or there was nothing to log.
  abbrev pub IsDurable : Transaction → Type 0
  IsDurable txn =
      (txn.wrote_anything ≡ false)
      ⊎ ((lsn : ℕ) × (log_commit ≡ some lsn) × (flush_up_to lsn ≡ true))

  -- What a commit promises: the transaction is over, and it counts as committed for the next
  -- snapshot exactly if the caller is told so, which is when its record is durable.
  abbrev pub Commits : Transaction → TransactionManager × Result (Unit {0}) → Type 0
  Commits txn (tm, ok _) =
      (is_active tm txn.txn_id ≡ false)
      × (Visibility.is_committed (get_snapshot tm) txn.txn_id tm ≡ true)
      × IsDurable txn
  Commits txn (tm, err _) =
      (is_active tm txn.txn_id ≡ false)
      × (Visibility.is_committed (get_snapshot tm) txn.txn_id tm ≡ false)

-- `log_abort` answers whether the record was appended.
unfoldable pub abort :
    Bool → Transaction → TransactionManager → TransactionManager × Result (Unit {0})
abort log_abort txn tm =
    if not txn.wrote_anything
    then (mark_aborted txn.txn_id tm, ok tt)
    else if log_abort
    then (mark_aborted txn.txn_id tm, ok tt)
    else (tm, err wal)

module _ (txn : Transaction) (tm : TransactionManager) (v : IsValid tm)
    (running : is_active tm txn.txn_id ≡ true) where
  committed_ok :
      (log_commit : Option ℕ) (flush_up_to : ℕ → Bool)
      → IsDurable log_commit flush_up_to txn
      → Commits log_commit flush_up_to txn (mark_committed txn.txn_id tm, ok tt)
  committed_ok log_commit flush_up_to d =
      ((is_active-settled tm txn.txn_id).0, (is_committed-settled tm txn.txn_id v running).1, d)

  aborted_err :
      (log_commit : Option ℕ) (flush_up_to : ℕ → Bool)
      → Commits log_commit flush_up_to txn (mark_aborted txn.txn_id tm, err wal)
  aborted_err log_commit flush_up_to =
      ((is_active-settled tm txn.txn_id).1, (is_committed-settled tm txn.txn_id v running).2)

  -- A commit of a transaction in flight, of a valid manager, settles it on every path: it is told to
  -- be committed, and then is, only when its record is durable or it wrote nothing, and it is not
  -- committed otherwise.
  pub commit-Commits :
      (log_commit : Option ℕ) (flush_up_to : ℕ → Bool)
      → Commits log_commit flush_up_to txn (commit log_commit flush_up_to txn tm)
  unfolding commit
  commit-Commits log_commit flush_up_to =
      if_cases (Commits log_commit flush_up_to txn) (not txn.wrote_anything)
        (mark_committed txn.txn_id tm, ok tt)
        (commit_logged log_commit flush_up_to txn.txn_id log_commit tm)
        (λ w. committed_ok log_commit flush_up_to (inl (ground arith)))
        (λ w. logged log_commit refl)
    where
      logged :
          (answer : Option ℕ)
          → log_commit ≡ answer
          → Commits log_commit flush_up_to txn
              (commit_logged log_commit flush_up_to txn.txn_id answer tm)
      logged none e = aborted_err log_commit flush_up_to
      logged (some lsn) e =
          if_cases (Commits log_commit flush_up_to txn) (flush_up_to lsn)
            (mark_committed txn.txn_id tm, ok tt) (mark_aborted txn.txn_id tm, err wal)
            (λ f. committed_ok log_commit flush_up_to (inr (lsn, e, f)))
            (λ f. aborted_err log_commit flush_up_to)

  -- An abort of a transaction in flight, of a valid manager, leaves it in flight exactly if it wrote something and its
  -- abort record could not be appended.
  pub abort-is_active_iff :
      (log_abort : Bool)
      → (is_active (abort log_abort txn tm).0 txn.txn_id ≡ true)
        ↔ ((txn.wrote_anything ≡ true) × (log_abort ≡ false))
  unfolding abort
  abort-is_active_iff log_abort = ground (arith, (is_active-settled tm txn.txn_id).1, running)
