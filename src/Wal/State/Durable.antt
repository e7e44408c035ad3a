-- ===== src/Wal/State/Durable.antt =====
-- What `append` and `flush_up_to` of crates/storage/src/wal.rs promise together.
use flux_db.Common.{
  ℕ, suc, ◌+◌, ◌≡◌, Bool, true, false, Option, none, some, List, [], ◌∷◌, ◌++◌, length, arith, ap,
}
use flux_db.Wal.Ring.Content.{flat, Holds}
use flux_db.Wal.Ring.Refine.{last_of}
use flux_db.Wal.State.{Flight}
use flux_db.Wal.State.Steps.{Config}

-- The records have the LSNs from `first` on, in order.
abbrev pub Numbered : ℕ → List (ℕ × List ℕ) → Type 0
Numbered first [] = Unit
Numbered first ((lsn, bytes) ∷ rest) = (lsn ≡ first) × Numbered (suc first) rest

pub Numbered-append :
    (first next : ℕ) (xs : List (ℕ × List ℕ)) (lsn : ℕ) (bytes : List ℕ)
    → Numbered first xs
    → next ≡ first + length xs
    → lsn ≡ next
    → Numbered first (xs ++ (lsn, bytes) ∷ [])
Numbered-append first next [] lsn bytes n e l = (omega arith, tt)
Numbered-append first next (x ∷ xs) lsn bytes (one, n) e l =
    (one, Numbered-append (suc first) next xs lsn bytes n (omega arith) l)

-- The last LSN of a queue that is not empty.
pub last_of-Numbered :
    (first : ℕ) (x : ℕ × List ℕ) (xs : List (ℕ × List ℕ))
    → Numbered first (x ∷ xs)
    → last_of (x ∷ xs) ≡ some (first + length xs)
last_of-Numbered first x [] (one, n) = ap some (omega arith)
last_of-Numbered first x (y ∷ xs) (one, n) =
    let rest = last_of-Numbered (suc first) y xs n in rw rest (ap some (omega arith))

-- What a flush under way has taken along: the front of what the buffer holds.
abbrev pub Carries : Option Flight → List (ℕ × List ℕ) → ℕ → Type 0
Carries none content next = Unit
Carries (some flight) content next =
    (front : List (ℕ × List ℕ)) × (more : List (ℕ × List ℕ)) × (content ≡ front ++ more)
    × (flight.flight_records ≡ front)
    × (flight.bytes_to_consume ≡ length (flat front))
    × (suc flight.durable_lsn ≡ next + length front)

abbrev pub in_flight : Option Flight → Bool
in_flight none = false
in_flight (some flight) = true

-- The invariant, for a log opened with `first` as its next LSN.
pub record IsDurable (first : ℕ) (c : Config) : Type 0 where
  pub content : List (ℕ × List ℕ)
  pub holds : Holds c.wal.buffer content
  -- Nothing is lost or out of order: the records on disk and those in the buffer are those appended.
  pub kept : c.appended ≡ c.synced ++ content
  pub numbered : Numbered first c.appended
  pub next_is : c.wal.next_lsn ≡ first + length c.appended
  pub flushed_is : suc c.wal.flushed_lsn ≡ first + length c.synced
  pub flushing_is : c.wal.is_flushing ≡ in_flight c.flight
  pub carries : Carries c.flight content (first + length c.synced)
