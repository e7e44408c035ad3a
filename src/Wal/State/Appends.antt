-- ===== src/Wal/State/Appends.antt =====
-- `append` of crates/storage/src/wal.rs on a buffer that holds a queue of records.
use Prim.Native.Nat.{min}
use native.Mathlib.Nat.{mod-eq_of_lt}
use flux_db.Common.{
  ℕ, ◌+◌, ◌%◌, ◌^◌, ◌<◌, ◌≤◌, ◌≡◌, false, Option, List, [], ◌∷◌, ◌++◌, length, length-append, arith,
  ltb, if◌then◌else◌, if_cases,
}
use flux_db.Wal.Error.{WalError, Result, ok, err, record_too_large, buffer_full, flush_failed}
use flux_db.Wal.Record.{WalRecordType, Block, record_size, body, stamped, length-stamped}
use flux_db.Wal.Ring.{WalBuffer, capacity, free_space, push_record}
use flux_db.Wal.Ring.Content.{flat, Holds}
use flux_db.Wal.Ring.Queue.{pushed, push_record_ok, pushed-Holds}
use flux_db.Wal.Ring.Refine.{free_space-flat}
use flux_db.Values.Scalars.{to_le_bytes, length-to_le_bytes}
use flux_db.Wal.State.{Wal, append, append_body}

module _ (crc32 : List ℕ → ℕ) where
  -- What an append gives: an error that changes nothing, or the record at the end of the queue, under
  -- the LSN that is next.
  pub data Appends (bytes : List ℕ) (wal : Wal) (content : List (ℕ × List ℕ))
      : Result ℕ × Wal → Type 0 where
    refused : (e : WalError) → Appends bytes wal content (err e, wal)
    accepted :
        (buf : WalBuffer)
        → wal.flush_error ≡ false
        → Holds buf (content ++ (wal.next_lsn, stamped crc32 wal.next_lsn bytes) ∷ [])
        → Appends bytes wal content
            (ok wal.next_lsn, record wal { next_lsn = wal.next_lsn + 1; buffer = buf })

  module _ (wal : Wal) (content : List (ℕ × List ℕ)) (h : Holds wal.buffer content)
      (few : wal.next_lsn + 1 < 2 ^ 64) where
    abbrev needed : List ℕ → ℕ
    needed bytes = length (to_le_bytes 8 0 ++ bytes) + 4

    -- The part behind the guards.
    abbrev taken : List ℕ → Result ℕ × Wal
    taken bytes =
        let lsn = wal.next_lsn in
        let numbered = record wal { next_lsn = (lsn + 1) % 2 ^ 64 } in
        elim (push_record wal.buffer lsn (stamped crc32 lsn bytes)) [
          | err e ↦ (err e, numbered)
          | ok pushed ↦ (ok lsn, record numbered { buffer = pushed })
        ]

    abbrev fitting : List ℕ → Result ℕ × Wal
    fitting bytes =
        if ltb (free_space wal.buffer) (needed bytes)
        then (err (buffer_full (needed bytes) (free_space wal.buffer)), wal)
        else taken bytes

    taken-Appends :
        (bytes : List ℕ)
        → wal.flush_error ≡ false
        → ltb (free_space wal.buffer) (needed bytes) ≡ false
        → Appends bytes wal content (taken bytes)
    taken-Appends bytes e f =
        let lsn = wal.next_lsn in
        let rec = stamped crc32 lsn bytes in
        let free = free_space-flat wal.buffer content h in
        let fits = h.fits in
        let same = length-stamped crc32 lsn bytes in
        let head : needed bytes ≡ length bytes + 12 =
          omega (arith, length-append (to_le_bytes 8 0) bytes, length-to_le_bytes 8 0) in
        let some_bytes : 0 < length rec = omega arith in
        let room : length (flat content) + length rec ≤ capacity wal.buffer = ground arith in
        let next : (lsn + 1) % 2 ^ 64 ≡ lsn + 1 = mod-eq_of_lt few in
        rw (push_record_ok wal.buffer content h lsn rec some_bytes room, taken, next)
          (accepted (pushed wal.buffer content h lsn rec some_bytes room) e
            (pushed-Holds wal.buffer content h lsn rec some_bytes room))

    append_body-Appends : (bytes : List ℕ) → Appends bytes wal content (append_body crc32 bytes wal)
    unfolding append_body
    append_body-Appends bytes =
        if_cases (Appends bytes wal content) wal.flush_error (err flush_failed, wal) (fitting bytes)
          (λ e. refused flush_failed)
          (λ e.
            if_cases (Appends bytes wal content) (ltb (free_space wal.buffer) (needed bytes))
              (err (buffer_full (needed bytes) (free_space wal.buffer)), wal) (taken bytes)
              (λ f. refused (buffer_full (needed bytes) (free_space wal.buffer)))
              (taken-Appends bytes e))

    -- On a buffer that holds the records of a queue, and with an LSN left, append of a record either
    -- fails and changes nothing, or gives it the next LSN, which it takes, and puts it at the queue's
    -- end.
    pub append-Appends :
        (entry_type : WalRecordType) (txn_id : ℕ) (blocks : List Block)
        (main_data : Option (List ℕ))
        → Appends
            (body entry_type txn_id blocks main_data)
            wal
            content
            (append crc32 entry_type txn_id blocks main_data wal)
    unfolding append
    append-Appends entry_type txn_id blocks main_data =
        let bytes = body entry_type txn_id blocks main_data in
        let size = record_size blocks main_data in
        let most = min wal.segment_size wal.buffer_capacity in
        if_cases (Appends bytes wal content) (ltb wal.segment_size size)
          (err (record_too_large 0 size wal.segment_size), wal)
          (if ltb most size
            then (err (record_too_large wal.next_lsn size most), wal)
            else append_body crc32 bytes wal)
          (λ e. refused (record_too_large 0 size wal.segment_size))
          (λ e.
            if_cases (Appends bytes wal content) (ltb most size)
              (err (record_too_large wal.next_lsn size most), wal) (append_body crc32 bytes wal)
              (λ f. refused (record_too_large wal.next_lsn size most))
              (λ f. append_body-Appends bytes))
