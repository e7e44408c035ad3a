-- ===== src/Wal/State/Steps.antt =====
-- The interleavings of the threads that use the log of crates/storage/src/wal.rs: every section under
-- the lock is a step, and between a leader's two sections the others may append and may start flushes.
use flux_db.Common.{ℕ, ◌+◌, ◌^◌, ◌<◌, ◌≡◌, true, false, Option, none, some, List, [], ◌∷◌, ◌++◌}
use flux_db.Wal.Error.{Result, ok, err}
use flux_db.Wal.Record.{WalRecordType, Block, body, stamped}
use flux_db.Wal.State.{Wal, Flight, returned, leads, append, flush_round, finish_flush}

-- The log's shared state, the flush under way, and for the record: what has been appended and what
-- has been written and synced, since the log was opened.
pub record Config : Type 0 where
  pub wal : Wal
  pub flight : Option Flight
  pub appended : List (ℕ × List ℕ)
  pub synced : List (ℕ × List ℕ)

module _ (crc32 : List ℕ → ℕ) where
  -- A failed append leaves nothing behind.
  abbrev pub record_append : List ℕ → Config → Result ℕ × Wal → Config
  record_append bytes c (ok lsn, wal) = record c {
    wal = wal;
    appended = c.appended ++ (lsn, stamped crc32 lsn bytes) ∷ [];
  }
  record_append bytes c (err e, wal) = record c { wal = wal }

  pub data Step (c : Config) : Config → Type 0 where
    appends :
        (entry_type : WalRecordType) (txn_id : ℕ) (blocks : List Block)
        → (main_data : Option (List ℕ)) → c.wal.next_lsn + 1 < 2 ^ 64
        → Step c (
            record_append
              (body entry_type txn_id blocks main_data)
              c
              (append crc32 entry_type txn_id blocks main_data c.wal))
    returns :
        (target : ℕ) (r : Result (Unit {0})) (wal : Wal)
        → target < c.wal.next_lsn
        → flush_round target c.wal ≡ returned r wal
        → Step c (record c { wal = wal })
    starts :
        (target : ℕ) (flight : Flight) (wal : Wal)
        → target < c.wal.next_lsn
        → flush_round target c.wal ≡ leads flight wal
        → Step c (record c { wal = wal; flight = some flight })
    syncs :
        (flight : Flight) (wal : Wal)
        → c.flight ≡ some flight
        → finish_flush true flight c.wal ≡ some wal
        → Step c (record c { wal = wal; flight = none; synced = c.synced ++ flight.flight_records })
    fails :
        (flight : Flight) (wal : Wal)
        → c.flight ≡ some flight
        → finish_flush false flight c.wal ≡ some wal
        → Step c (record c { wal = wal; flight = none })

  pub data Reach (c : Config) : Config → Type 0 where
    here : Reach c c
    step : {d e : Config} → Reach c d → Step d e → Reach c e
