-- ===== src/Wal/Ring/Refine.antt =====
-- The circular buffer of crates/storage/src/wal.rs against a bounded queue of records.
use flux_db.Common.{
  ℕ, ◌+◌, ◌-◌, ◌<◌, ◌≤◌, ◌≡◌, inl, inr, refl, Option, some, List, [], ◌∷◌, ◌++◌, length, replicate,
  length-replicate, arith, sym, ltb, Bool-cases, ltb→lt, map,
}
use flux_db.Wal.Error.{Result, ok, err, record_too_large, buffer_full}
use flux_db.Wal.Ring.{
  WalBuffer, with_capacity, capacity, free_space, push_record, copy_records, consume_prefix,
  buffered_prefix_len, last_lsn,
}
use flux_db.Wal.Ring.Content.{flat, entry_of, Holds, total_len-flat}
use flux_db.Wal.Ring.CopyOut.{place-zero}
use flux_db.Wal.Ring.Queue.{used_space-flat, pushed, push_record_ok, capacity-pushed, pushed-Holds}
use flux_db.Wal.Ring.Drain.{copy_records-Holds, consume_prefix-Holds}

pub with_capacity-Holds : (n : ℕ) → 0 < n → Holds (with_capacity n) []
with_capacity-Holds n b =
    let cap = length-replicate {A = ℕ} n 0 in
    record {
      read_inside = omega (arith, cap);
      entries_of = refl;
      none_empty = tt;
      fits = omega (arith, cap);
      write_at = sym (place-zero (replicate n 0) 0 (omega (arith, cap)));
      stored = λ k l. absurd (omega arith);
    }

-- What a push gives, of a buffer that holds the records of a queue.
pub data Pushes (buf : WalBuffer) (content : List (ℕ × List ℕ)) (lsn : ℕ) (rec : List ℕ)
    : Result WalBuffer → Type 0 where
  fitted :
      (buf' : WalBuffer)
      → length (flat content) + length rec ≤ capacity buf
      → Holds buf' (content ++ (lsn, rec) ∷ [])
      → capacity buf' ≡ capacity buf
      → Pushes buf content lsn rec (ok buf')
  never_fits :
      capacity buf < length rec
      → Pushes buf content lsn rec (err (record_too_large lsn (length rec) (capacity buf)))
  full :
      (available : ℕ)
      → length rec ≤ capacity buf
      → available + length (flat content) ≡ capacity buf
      → available < length rec
      → Pushes buf content lsn rec (err (buffer_full (length rec) available))

module _ (buf : WalBuffer) (content : List (ℕ × List ℕ)) (h : Holds buf content) where
  pub free_space-flat : free_space buf ≡ capacity buf - length (flat content)
  unfolding free_space
  free_space-flat = rw (used_space-flat buf content h) refl

  -- On a buffer that holds the records of a queue, push_record of a record of at least one byte puts
  -- it at the queue's end if its bytes fit into the free space, and else fails: with
  -- record_too_large exactly if it is longer than the capacity, and otherwise with buffer_full, which
  -- tells the bytes needed and those that are free.
  pub push_record-Pushes :
      (lsn : ℕ) (rec : List ℕ)
      → 0 < length rec
      → Pushes buf content lsn rec (push_record buf lsn rec)
  unfolding push_record
  push_record-Pushes lsn rec some_bytes = elim (Bool-cases (ltb (capacity buf) (length rec))) [
    | inl e ↦ rw (e, push_record) (never_fits (ltb→lt (capacity buf) (length rec) e))
    | inr e ↦ elim (Bool-cases (ltb (free_space buf) (length rec))) [
      | inl f ↦
          let f' = ltb→lt (free_space buf) (length rec) f in
          let free = free_space-flat in
          let fits = h.fits in
          rw (e, push_record) (rw f (full (free_space buf) (ground arith) (omega arith) f'))
      | inr f ↦
          let free = free_space-flat in
          let fits = h.fits in
          let room : length (flat content) + length rec ≤ capacity buf = ground arith in
          rw (push_record_ok buf content h lsn rec some_bytes room) (
            fitted (pushed buf content h lsn rec some_bytes room) room
              (pushed-Holds buf content h lsn rec some_bytes room)
              (capacity-pushed buf content h lsn rec some_bytes room))
    ]
  ]

-- The LSN of the last record of a queue.
abbrev pub last_of : List (ℕ × List ℕ) → Option ℕ
last_of content = last_lsn (map entry_of content)

-- What a flush does to the queue that it found, when `more` came in behind it in the meantime.
pub record Drains (found later : WalBuffer) (content more : List (ℕ × List ℕ)) : Type 0 where
  pub prefix :
      (lsn : ℕ)
      → last_of content ≡ some lsn
      → buffered_prefix_len found ≡ some (length (flat content), lsn)
  pub copied : copy_records found ≡ some content
  pub left : WalBuffer
  pub consumed : consume_prefix later (length (flat content)) ≡ some left
  pub left_holds : Holds left more
  pub left_capacity : capacity left ≡ capacity later

-- buffered_prefix_len and copy_records give the bytes, the last LSN and the records of the whole
-- queue that a buffer holds; consume_prefix of those bytes, of a buffer where records have been
-- pushed behind that queue in the meantime, leaves a buffer that holds exactly these.
pub drain-Drains :
    (found later : WalBuffer) (content more : List (ℕ × List ℕ))
    → Holds found content
    → Holds later (content ++ more)
    → Drains found later content more
unfolding buffered_prefix_len
drain-Drains found later content more h l =
    let (left, consumed, left_holds, left_capacity) = consume_prefix-Holds later content more l in
    record {
      prefix =
          λ lsn e. rw h.entries_of (rw (e, buffered_prefix_len) (rw (total_len-flat content) refl));
      copied = copy_records-Holds found content h;
      left = left;
      consumed = consumed;
      left_holds = left_holds;
      left_capacity = left_capacity;
    }
