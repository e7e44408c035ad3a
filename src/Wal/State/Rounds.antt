-- ===== src/Wal/State/Rounds.antt =====
-- A round of `flush_up_to` of crates/storage/src/wal.rs in a log that keeps its invariant.
use mathlib.Core.Path.{subst}
use flux_db.Common.{
  ℕ, suc, ◌+◌, ◌<◌, ◌≤◌, ◌≡◌, ◌⊎◌, inl, inr, true, false, refl, none, some, List, [], ◌∷◌, ◌++◌,
  append-nil, length, length-append, arith, ◌∙◌, sym, ap, leb, leb→le, if◌then◌else◌, if_cases,
}
use flux_db.Wal.Error.{ok, err, flush_failed}
use flux_db.Wal.Ring.{WalBuffer, buffered_prefix_len, copy_records}
use flux_db.Wal.Ring.Content.{flat, Holds}
use flux_db.Wal.Ring.Refine.{drain-Drains}
use flux_db.Wal.State.{Wal, Round, returned, parked, leads, panicked, flush_round}
use flux_db.Wal.State.Steps.{Config}
use flux_db.Wal.State.Durable.{IsDurable, Numbered, last_of-Numbered}

-- What a round for a target gives.
pub data Rounds (c : Config) (target : ℕ) (content : List (ℕ × List ℕ)) : Round → Type 0 where
  durable :
      (wal : Wal)
      → (wal ≡ c.wal)
        ⊎ ((c.wal.is_flushing ≡ false)
            × (wal ≡ record c.wal { is_flushing = false; flush_active = false }))
      → target ≤ c.wal.flushed_lsn
      → Rounds c target content (returned (ok tt) wal)
  refused : c.wal.flush_error ≡ true → Rounds c target content (returned (err flush_failed) c.wal)
  waits : c.wal.is_flushing ≡ true → Rounds c target content (parked c.wal)
  takes_over :
      (durable_lsn : ℕ)
      → c.wal.is_flushing ≡ false
      → target ≤ durable_lsn
      → suc durable_lsn ≡ c.wal.next_lsn
      → Rounds c target content (
          leads
            (record {
              bytes_to_consume = length (flat content);
              durable_lsn = durable_lsn;
              flight_records = content;
            })
            (record c.wal { is_flushing = true; flush_active = true }))

pub Numbered-back :
    (first : ℕ) (front back : List (ℕ × List ℕ))
    → Numbered first (front ++ back)
    → Numbered (first + length front) back
Numbered-back first [] back n =
    let same : first ≡ first + 0 = omega arith in subst (λ k. Numbered k back) same n
Numbered-back first (x ∷ front) back (one, n) =
    let rest = Numbered-back (suc first) front back n in
    let same : suc first + length front ≡ first + suc (length front) = omega arith in
    subst (λ k. Numbered k back) same rest

prefix-none : (buf : WalBuffer) → Holds buf [] → buffered_prefix_len buf ≡ none
unfolding buffered_prefix_len
prefix-none buf h = rw h.entries_of refl

module _ (first : ℕ) (c : Config) (target : ℕ) (below : target < c.wal.next_lsn) where
  -- The part of a round behind the guards.
  abbrev taken_over : Wal → Round
  taken_over wal = elim (buffered_prefix_len wal.buffer) [
    | none ↦ returned (ok tt) (record wal { is_flushing = false; flush_active = false })
    | some (bytes, lsn) ↦ elim (copy_records wal.buffer) [
      | none ↦ panicked
      | some recs ↦
          leads (record { bytes_to_consume = bytes; durable_lsn = lsn; flight_records = recs })
            (record wal { is_flushing = true; flush_active = true })
    ]
  ]

  taken_over-Rounds :
      (content : List (ℕ × List ℕ))
      → Holds c.wal.buffer content
      → c.appended ≡ c.synced ++ content
      → Numbered first c.appended
      → c.wal.next_lsn ≡ first + length c.appended
      → suc c.wal.flushed_lsn ≡ first + length c.synced
      → c.wal.is_flushing ≡ false
      → Rounds c target content (taken_over c.wal)
  taken_over-Rounds [] h kept n next flushed idle =
      let nothing : buffered_prefix_len c.wal.buffer ≡ none = prefix-none c.wal.buffer h in
      let all : length c.appended ≡ length c.synced = ap length (kept ∙ append-nil c.synced) in
      rw (nothing, taken_over)
        (durable (record c.wal { is_flushing = false; flush_active = false }) (inr (idle, refl))
          (omega arith))
  taken_over-Rounds (x ∷ xs) h kept n next flushed idle =
      let found =
        drain-Drains c.wal.buffer c.wal.buffer (x ∷ xs) [] h
          (subst (λ q. Holds c.wal.buffer q) (sym (append-nil (x ∷ xs))) h) in
      let back = Numbered-back first c.synced (x ∷ xs) (subst (λ q. Numbered first q) kept n) in
      let last = last_of-Numbered (first + length c.synced) x xs back in
      let lsn = first + length c.synced + length xs in
      let prefix = found.prefix lsn last in
      let all : length c.appended ≡ length c.synced + suc (length xs) =
        ap length kept ∙ length-append c.synced (x ∷ xs) in
      rw (prefix, taken_over) (rw (found.copied) (takes_over lsn idle (omega arith) (omega arith)))

  -- In a log that keeps its invariant, a round of flush_up_to for an LSN that has been given out
  -- never panics. It returns Ok only when the LSN is durable, with no flush under way if it changes
  -- the state; it fails only after a failed flush and waits only for a flush under way; and
  -- otherwise it takes over with exactly the bytes and records of the buffer, up to the last LSN given out.
  pub flush_round-Rounds :
      (valid : IsDurable first c) → Rounds c target valid.content (flush_round target c.wal)
  unfolding flush_round
  flush_round-Rounds valid =
      let P = Rounds c target valid.content in
      if_cases P (leb target c.wal.flushed_lsn) (returned (ok tt) c.wal)
        (if c.wal.flush_error
          then returned (err flush_failed) c.wal
          else if c.wal.is_flushing
          then parked c.wal
          else taken_over c.wal)
        (λ e. durable c.wal (inl refl) (leb→le target c.wal.flushed_lsn e))
        (λ _.
          if_cases P c.wal.flush_error (returned (err flush_failed) c.wal)
            (if c.wal.is_flushing then parked c.wal else taken_over c.wal) (λ e. refused e)
            (λ _.
              if_cases P c.wal.is_flushing (parked c.wal) (taken_over c.wal) (λ e. waits e)
                (λ idle.
                  taken_over-Rounds valid.content valid.holds valid.kept valid.numbered
                    valid.next_is valid.flushed_is idle)))
