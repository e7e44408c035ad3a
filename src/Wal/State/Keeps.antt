-- ===== src/Wal/State/Keeps.antt =====
-- Every step of the log of crates/storage/src/wal.rs keeps its invariant.
use mathlib.Core.Path.{subst}
use flux_db.Common.{
  ℕ, suc, ◌+◌, ◌<◌, ◌≡◌, inl, inr, true, false, refl, Option, none, some, List, [], ◌∷◌, ◌++◌,
  append_assoc, append-nil, length, length-append, arith, ◌∙◌, sym, ap,
}
use flux_db.Wal.Error.{Result}
use flux_db.Wal.Record.{body, stamped}
use flux_db.Wal.Ring.{consume_prefix}
use flux_db.Wal.Ring.Content.{Holds}
use flux_db.Wal.Ring.Drain.{consume_prefix-Holds}
use flux_db.Wal.Ring.Refine.{with_capacity-Holds}
use flux_db.Wal.State.{
  Wal, open_wal, Flight, Round, returned, parked, leads, panicked, append, flush_round,
  finish_flush,
}
use flux_db.Wal.State.Appends.{Appends, accepted, append-Appends}
use flux_db.Wal.State.Steps.{
  Config, Step, appends, returns, starts, syncs, fails, Reach, here, step, record_append,
}
use flux_db.Wal.State.Durable.{IsDurable, Carries, Numbered-append}
use flux_db.Wal.State.Rounds.{Rounds, durable, waits, takes_over, flush_round-Rounds}

-- The log as it is opened.
abbrev pub opened : (flushed_lsn : Option ℕ) → (next_lsn buffer_capacity segment_size : ℕ) → Config
opened flushed_lsn next_lsn buffer_capacity segment_size = record {
  wal = open_wal next_lsn flushed_lsn buffer_capacity segment_size;
  flight = none;
  appended = [];
  synced = [];
}

pub opened-IsDurable :
    (flushed_lsn : Option ℕ) (next_lsn buffer_capacity segment_size : ℕ)
    → 0 < buffer_capacity
    → suc (open_wal next_lsn flushed_lsn buffer_capacity segment_size).flushed_lsn ≡ next_lsn
    → IsDurable next_lsn (opened flushed_lsn next_lsn buffer_capacity segment_size)
opened-IsDurable flushed_lsn next_lsn buffer_capacity segment_size pos last = record {
  content = [];
  holds = with_capacity-Holds buffer_capacity pos;
  kept = refl;
  numbered = tt;
  next_is = omega arith;
  flushed_is = omega (arith, last);
  flushing_is = refl;
  carries = tt;
}

module _ (crc32 : List ℕ → ℕ) (first : ℕ) (c : Config) (valid : IsDurable first c) where
  Carries-more :
      (flight : Option Flight) (content : List (ℕ × List ℕ)) (x : ℕ × List ℕ) (next : ℕ)
      → Carries flight content next
      → Carries flight (content ++ x ∷ []) next
  Carries-more none content x next h = tt
  Carries-more (some flight) content x next (front, more, e, recs, bytes, last) = (
    front,
    more ++ x ∷ [],
    ap (λ q. q ++ x ∷ []) e ∙ append_assoc front more (x ∷ []),
    recs,
    bytes,
    last,
  )

  append-keeps :
      (bytes : List ℕ) (r : Result ℕ × Wal)
      → Appends crc32 bytes c.wal valid.content r
      → IsDurable first (record_append crc32 bytes c r)
  append-keeps bytes _ (Appends.refused e) = valid
  append-keeps bytes _ (accepted buf no_error holds) =
      let lsn = c.wal.next_lsn in
      let rec = stamped crc32 lsn bytes in
      let next = valid.next_is in
      let longer = length-append c.appended ((lsn, rec) ∷ []) in
      record {
        content = valid.content ++ (lsn, rec) ∷ [];
        holds = holds;
        kept =
            ap (λ q. q ++ (lsn, rec) ∷ []) valid.kept
            ∙ append_assoc c.synced valid.content ((lsn, rec) ∷ []);
        numbered = Numbered-append first lsn c.appended lsn rec valid.numbered next refl;
        next_is = omega arith;
        flushed_is = valid.flushed_is;
        flushing_is = valid.flushing_is;
        carries =
            Carries-more c.flight valid.content (lsn, rec) (first + length c.synced) valid.carries;
      }

  -- The invariant after a round, if it ends a step.
  abbrev AfterRound : Round → Type 0
  AfterRound (returned r wal) = IsDurable first (record c { wal = wal })
  AfterRound (parked wal) = Unit
  AfterRound (leads flight wal) = IsDurable first (record c { wal = wal; flight = some flight })
  AfterRound panicked = Unit

  round-keeps :
      (target : ℕ) (round : Round) → Rounds c target valid.content round → AfterRound round
  round-keeps target _ (durable wal (inl same) d) =
      subst (λ w. IsDurable first (record c { wal = w })) (sym same) valid
  round-keeps target _ (durable wal (inr (idle, same)) d) =
      subst (λ w. IsDurable first (record c { wal = w })) (sym same)
        (record {
          content = valid.content;
          holds = valid.holds;
          kept = valid.kept;
          numbered = valid.numbered;
          next_is = valid.next_is;
          flushed_is = valid.flushed_is;
          flushing_is = sym idle ∙ valid.flushing_is;
          carries = valid.carries;
        })
  round-keeps target _ (Rounds.refused e) = valid
  round-keeps target _ (waits e) = tt
  round-keeps target _ (takes_over durable_lsn idle d last) =
      let next = valid.next_is in
      let all : length c.appended ≡ length c.synced + length valid.content =
        ap length valid.kept ∙ length-append c.synced valid.content in
      record {
        content = valid.content;
        holds = valid.holds;
        kept = valid.kept;
        numbered = valid.numbered;
        next_is = valid.next_is;
        flushed_is = valid.flushed_is;
        flushing_is = refl;
        carries = (valid.content, [], sym (append-nil valid.content), refl, refl, omega arith);
      }

  -- The invariant after a flush that ends.
  abbrev AfterSync : Flight → Option Wal → Type 0
  AfterSync flight none = Unit
  AfterSync flight (some wal) =
      IsDurable first
        (record c { wal = wal; flight = none; synced = c.synced ++ flight.flight_records })

  abbrev AfterFailure : Option Wal → Type 0
  AfterFailure none = Unit
  AfterFailure (some wal) = IsDurable first (record c { wal = wal; flight = none })

  module _ (flight : Flight) (under_way : c.flight ≡ some flight) where
    sync-keeps : AfterSync flight (finish_flush true flight c.wal)
    unfolding finish_flush
    sync-keeps =
        let (front, more, e, recs, bytes, last) =
          subst (λ f. Carries f valid.content (first + length c.synced)) under_way valid.carries in
        let (left, consumed, holds, _) =
          consume_prefix-Holds c.wal.buffer front more
            (subst (λ q. Holds c.wal.buffer q) e valid.holds) in
        let eaten : consume_prefix c.wal.buffer flight.bytes_to_consume ≡ some left =
          ap (λ n. consume_prefix c.wal.buffer n) bytes ∙ consumed in
        let longer : length (c.synced ++ flight.flight_records) ≡ length c.synced + length front =
          length-append c.synced flight.flight_records
          ∙ ap (λ q. length c.synced + length q) recs in
        rw (eaten, finish_flush)
          (record {
            content = more;
            holds = holds;
            kept =
                valid.kept
                ∙ ap (λ q. c.synced ++ q) e
                ∙ sym (append_assoc c.synced front more)
                ∙ ap (λ q. (c.synced ++ q) ++ more) (sym recs);
            numbered = valid.numbered;
            next_is = valid.next_is;
            flushed_is = omega arith;
            flushing_is = refl;
            carries = tt;
          })

    failure-keeps : AfterFailure (finish_flush false flight c.wal)
    unfolding finish_flush
    failure-keeps = record {
      content = valid.content;
      holds = valid.holds;
      kept = valid.kept;
      numbered = valid.numbered;
      next_is = valid.next_is;
      flushed_is = valid.flushed_is;
      flushing_is = refl;
      carries = tt;
    }

  Step-keeps : (d : Config) → Step crc32 c d → IsDurable first d
  Step-keeps _ (appends entry_type txn_id blocks main_data few) =
      append-keeps (body entry_type txn_id blocks main_data)
        (append crc32 entry_type txn_id blocks main_data c.wal)
        (append-Appends crc32 c.wal valid.content valid.holds few entry_type txn_id blocks
          main_data)
  Step-keeps _ (returns target r wal below e) = subst AfterRound e (
      round-keeps target (flush_round target c.wal) (flush_round-Rounds first c target below valid))
  Step-keeps _ (starts target flight wal below e) = subst AfterRound e (
      round-keeps target (flush_round target c.wal) (flush_round-Rounds first c target below valid))
  Step-keeps _ (syncs flight wal under_way e) =
      subst (AfterSync flight) e (sync-keeps flight under_way)
  Step-keeps _ (fails flight wal under_way e) =
      subst AfterFailure e (failure-keeps flight under_way)

-- Over all interleavings of appends and flushes, failed ones included, that reach a state from one
-- that keeps the invariant, the invariant stays: the records synced and then those in the ring
-- buffer are exactly those appended, in order and under consecutive LSNs, the last synced record's
-- LSN is flushed_lsn, and a flush under way carries the front of the buffer.
pub Reach-IsDurable :
    (crc32 : List ℕ → ℕ) (first : ℕ) (c d : Config)
    → IsDurable first c
    → Reach crc32 c d
    → IsDurable first d
Reach-IsDurable crc32 first c _ valid here = valid
Reach-IsDurable crc32 first c _ valid (step {d} {e} before one) =
    Step-keeps crc32 first d (Reach-IsDurable crc32 first c d valid before) e one
