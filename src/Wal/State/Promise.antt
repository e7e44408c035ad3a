-- ===== src/Wal/State/Promise.antt =====
-- What a caller of `flush_up_to` of crates/storage/src/wal.rs may rely on.
use mathlib.Core.Path.{subst}
use flux_db.Common.{
  ℕ, suc, ◌+◌, ◌<◌, ◌≤◌, ◌≡◌, true, false, refl, some, List, [], ◌∷◌, ◌++◌, length, arith, ◌∙◌, ap,
  leb,
}
use flux_db.Wal.Error.{ok, err}
use flux_db.Wal.Ring.{consume_prefix}
use flux_db.Wal.Ring.Content.{Holds}
use flux_db.Wal.Ring.Drain.{consume_prefix-Holds}
use flux_db.Wal.State.{
  Wal, Flight, Round, returned, parked, leads, panicked, flush_round, finish_flush,
}
use flux_db.Wal.State.Steps.{Config, Reach}
use flux_db.Wal.State.Durable.{IsDurable, Numbered, Carries}
use flux_db.Wal.State.Rounds.{Rounds, durable, waits, takes_over, flush_round-Rounds, Numbered-back}
use flux_db.Wal.State.Keeps.{Reach-IsDurable}

abbrev pub AllAbove : ℕ → List (ℕ × List ℕ) → Type 0
AllAbove target [] = Unit
AllAbove target ((lsn, bytes) ∷ rest) = (target < lsn) × AllAbove target rest

AllAbove-Numbered :
    (target first : ℕ) (xs : List (ℕ × List ℕ))
    → target < first
    → Numbered first xs
    → AllAbove target xs
AllAbove-Numbered target first [] b n = tt
AllAbove-Numbered target first (x ∷ xs) b (one, n) =
    (omega arith, AllAbove-Numbered target (suc first) xs (omega arith) n)

-- The appended records that are not on disk all come after an LSN.
abbrev pub SyncedUpTo : ℕ → Config → Type 0
SyncedUpTo target c =
    (rest : List (ℕ × List ℕ)) × (c.appended ≡ c.synced ++ rest) × AllAbove target rest

module _ (target : ℕ) (c : Config) where
  abbrev Acknowledged : Round → Type 0
  Acknowledged (returned (ok done) wal) = target ≤ c.wal.flushed_lsn
  Acknowledged (returned (err e) wal) = Unit
  Acknowledged (parked wal) = Unit
  Acknowledged (leads flight wal) = Unit
  Acknowledged panicked = Unit

  acknowledged :
      (content : List (ℕ × List ℕ)) (round : Round)
      → Rounds c target content round
      → Acknowledged round
  acknowledged content _ (durable wal same d) = d
  acknowledged content _ (Rounds.refused e) = tt
  acknowledged content _ (waits e) = tt
  acknowledged content _ (takes_over durable_lsn idle d last) = tt

-- Whatever appends and flushes came before, failed ones included: when a round of flush_up_to
-- returns Ok for an LSN that has been given out, every record appended with that LSN or a lower one
-- has been written and synced.
pub flush_round-SyncedUpTo :
    (crc32 : List ℕ → ℕ) (first : ℕ) (c d : Config)
    → IsDurable first c
    → Reach crc32 c d
    → (target : ℕ) (wal : Wal) → target < d.wal.next_lsn
    → flush_round target d.wal ≡ returned (ok tt) wal
    → SyncedUpTo target d
flush_round-SyncedUpTo crc32 first c d start reach target wal below e =
    let valid = Reach-IsDurable crc32 first c d start reach in
    let round = flush_round-Rounds first d target below valid in
    let covered : target ≤ d.wal.flushed_lsn =
      subst (Acknowledged target d) e
        (acknowledged target d valid.content (flush_round target d.wal) round) in
    let flushed = valid.flushed_is in
    let behind =
      Numbered-back first d.synced valid.content
        (subst (λ q. Numbered first q) valid.kept valid.numbered) in
    (
      valid.content,
      valid.kept,
      AllAbove-Numbered target (first + length d.synced) valid.content (omega arith) behind,
    )

-- The leader of a flush, its records synced, finds in any state of a log that keeps its invariant
-- what it wants to consume, without a panic; and its next round returns Ok for every target up to the
-- LSN that it took along.
pub finish_flush-returns :
    (first : ℕ) (c : Config) (flight : Flight) (target : ℕ)
    → IsDurable first c
    → c.flight ≡ some flight
    → target ≤ flight.durable_lsn
    → (wal : Wal) × (finish_flush true flight c.wal ≡ some wal)
      × (flush_round target wal ≡ returned (ok tt) wal)
unfolding finish_flush flush_round
finish_flush-returns first c flight target valid under_way b =
    let (front, more, e, recs, bytes, last) =
      subst (λ f. Carries f valid.content (first + length c.synced)) under_way valid.carries in
    let (left, consumed, holds, _) =
      consume_prefix-Holds c.wal.buffer front more
        (subst (λ q. Holds c.wal.buffer q) e valid.holds) in
    let eaten : consume_prefix c.wal.buffer flight.bytes_to_consume ≡ some left =
      ap (λ n. consume_prefix c.wal.buffer n) bytes ∙ consumed in
    let covered : leb target flight.durable_lsn ≡ true = ground arith in
    (
      record c.wal {
        buffer = left;
        is_flushing = false;
        flush_active = false;
        flushed_lsn = flight.durable_lsn;
      },
      rw (eaten, finish_flush) refl,
      rw (covered, flush_round) refl,
    )
