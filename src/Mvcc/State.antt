-- ===== src/Mvcc/State.antt =====
-- The data of crates/db-core: `TransactionStatus` and `TransactionManager` of
-- transaction_manager.rs, `Snapshot` and `Transaction` of transaction.rs.
use flux_db.Common.{ℕ, Bool, List}

pub data TransactionStatus : Type 0 where
  active committed aborted : TransactionStatus

-- Locks leave no trace: a method that holds them for one whole body is one function. An `Instant`
-- is a number. The `Arc`s of `waiters` are handles: `settled` lists the handles whose flag is set,
-- and `next_entry` is the next one to be allocated.
pub record TransactionManager : Type 0 where
  pub next_txn_id : ℕ
  pub clog : List (ℕ × TransactionStatus)
  pub vacuum_horizon : ℕ
  pub dead_versions : ℕ
  pub active_txns : List (ℕ × (ℕ × ℕ))
  pub readers : List (ℕ × ℕ)
  pub next_reader_token : ℕ
  pub waiters : List (ℕ × ℕ)
  pub settled : List ℕ
  pub next_entry : ℕ

pub record Snapshot : Type 0 where
  pub xmin : ℕ
  pub xmax : ℕ
  pub active : List ℕ

-- The field `tm` is the shared manager, which the methods take as an argument here.
pub record Transaction : Type 0 where
  pub txn_id : ℕ
  pub snapshot : Snapshot
  pub wrote_anything : Bool
