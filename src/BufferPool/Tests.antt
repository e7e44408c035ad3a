-- ===== src/BufferPool/Tests.antt =====
-- The laws of the buffer pool on small shards, and concrete runs.
use flux_db.Page.Bytes.{Page}
use flux_db.Page.Header.{page_size}
use flux_db.BufferPool.Write.{IsOrdered, write_frame_to_disk, write_frame_to_disk-IsOrdered}
use flux_db.BufferPool.Manager.{BufferPoolManager, min_rec_lsn, min_rec_lsn-Covers}
use flux_db.BufferPool.Shard.Redo.{Covers}
use flux_db.Common.{
  List, length, replicate, length-replicate, length-append, ◌++◌, ◌%◌, ◌^◌, ◌+◌, ℕ, zero, suc, ◌<◌,
  ◌≡◌, ◌≢◌, Bool, true, false, none, some, [], ◌∷◌, get, get_or, arith, refl,
}
use flux_db.BufferPool.Errors.{ok}
use flux_db.BufferPool.Replacer
use flux_db.BufferPool.Replacer.{ClockReplacer, victim}
use flux_db.BufferPool.Victim.{Swept, victim-Swept}
use flux_db.BufferPool.Shard.{
  FrameMetadata, ShardInner, invalid_frame_id, blank, unpin_page, try_acquire, finish_load,
  Acquired, ready, waits, fails, flushes,
}
use flux_db.BufferPool.Shard.Writes.{flush_start}
use flux_db.BufferPool.Shard
use flux_db.BufferPool.Shard.Writes.{mark_dirty, flush_finish, try_delete}
use flux_db.BufferPool.Shard.Invariant.{IsValid}
use flux_db.BufferPool.Shard.Flush.{try_acquire-flush_start}
use flux_db.BufferPool.Shard.Marks.{Deletes, min_rec_lsn-IsValid, try_delete-Deletes}
use flux_db.BufferPool.Shard.Redo.{IsCovered, flush_finish-IsCovered, flush_finish-mark_dirty}

-- A clock of three frames, two of which may be evicted.
abbrev clock : ClockReplacer
clock = record {
  size = 3;
  hand = 1;
  ref_bits = true ∷ false ∷ true ∷ [];
  evictable = true ∷ false ∷ true ∷ [];
}

clock-IsValid : Replacer.IsValid clock
clock-IsValid = record { refs = refl; evicts = refl; hand_in = λ h. omega arith }

victim-Swept_example :
    Swept 3 (true ∷ false ∷ true ∷ []) (victim clock).0.evictable (victim clock).1
victim-Swept_example = victim-Swept clock clock-IsValid

-- The clock passes the frame that may not be evicted and, once round, takes frame 2.
victim-clock : (victim clock).1 ≡ ok 2
unfolding victim Replacer.victim_loop Replacer.advance
victim-clock = refl

-- One frame, which holds page 40.
abbrev frame : ℕ → Bool → Bool → FrameMetadata
frame pins dirty loading = record {
  page_id = 40;
  pin_count = pins;
  is_dirty = dirty;
  loading = loading;
  rec_lsn = none;
}

abbrev single : FrameMetadata → Bool → ShardInner
single m candidate = record {
  metadata = m ∷ [];
  page_table = (40, 0) ∷ [];
  free_list = [];
  replacer = record { size = 1; hand = 0; ref_bits = false ∷ []; evictable = candidate ∷ [] };
  min_rec_lsn = none;
}

single-mapped : (p f : ℕ) → get p ((40, 0) ∷ []) ≡ some f → (p ≡ 40) × (f ≡ 0)
unfolding get
single-mapped p f e = ground arith

single-owned :
    (f : ℕ) (m : FrameMetadata)
    → m.page_id ≡ 40
    → (get_or (m ∷ []) f blank).page_id ≢ invalid_frame_id
    → get (get_or (m ∷ []) f blank).page_id ((40, 0) ∷ []) ≡ some f
unfolding get
single-owned zero m e h = ground arith
single-owned (suc f) m e h = absurd (h refl)

single-IsValid :
    (m : FrameMetadata) (candidate : Bool)
    → m.page_id ≡ 40
    → (candidate ≡ true → m.pin_count ≡ 0)
    → (m.loading ≡ true → 0 < m.pin_count)
    → IsValid 1 (single m candidate)
single-IsValid m candidate own calm load = record {
  replacer = record { refs = refl; evicts = refl; hand_in = λ h. omega arith };
  sizes = (refl, refl);
  mapped = λ p f e.
      let (a, b) = single-mapped p f e in rw (a, b) (omega arith, own, λ w. absurd (ground arith));
  owned = λ f h. single-owned f m own h;
  idle = λ f e. idle_at f e;
  busy = λ f e. busy_at f e;
  free = λ f e. absurd (ground arith);
  distinct = tt;
}
  where
    idle_at :
        (f : ℕ)
        → get_or (candidate ∷ []) f false ≡ true
        → ((get_or (m ∷ []) f blank).pin_count ≡ 0)
          × ((get_or (m ∷ []) f blank).page_id ≢ invalid_frame_id)
    idle_at zero e = (calm e, λ w. ground arith)
    idle_at (suc f) e = absurd (ground arith)

    busy_at :
        (f : ℕ) → (get_or (m ∷ []) f blank).loading ≡ true → 0 < (get_or (m ∷ []) f blank).pin_count
    busy_at zero e = load e
    busy_at (suc f) e = absurd (ground arith)

-- The frame holds changes, and may be evicted.
dirty_page-IsValid : IsValid 1 (single (frame 0 true false) true)
dirty_page-IsValid = single-IsValid (frame 0 true false) true refl (λ e. refl) (λ e. ground arith)

-- Page 41 is read into frame 0 while page 40 is written from it.
try_acquire-flush_start_example :
    ((flush_start 40 (single (frame 0 true false) true)).1 ≡ some (40, 0))
    × ((try_acquire 41 (flush_start 40 (single (frame 0 true false) true)).0).1 ≡ ready 0 true)
unfolding get
try_acquire-flush_start_example =
    try_acquire-flush_start 1 (single (frame 0 true false) true) dirty_page-IsValid 40 41 0 refl
      refl refl only refl refl
  where
    only : (g : ℕ) → get_or (true ∷ []) g false ≡ true → g ≡ 0
    only zero e = refl
    only (suc g) e = absurd (ground arith)

-- Page 40 in its frame, pinned once and changed by the record at 300.
abbrev logged : ShardInner
logged = record (single (record (frame 1 true false) { rec_lsn = some 300 }) false) {
  min_rec_lsn = some 300;
}

pinned-IsValid : (dirty : Bool) → IsValid 1 (single (frame 1 dirty false) false)
pinned-IsValid dirty =
    single-IsValid (frame 1 dirty false) false refl (λ e. ground arith) (λ e. ground arith)

logged-IsValid : IsValid 1 logged
logged-IsValid =
    min_rec_lsn-IsValid 1 (single (record (frame 1 true false) { rec_lsn = some 300 }) false)
      (single-IsValid (record (frame 1 true false) { rec_lsn = some 300 }) false refl
        (λ e. ground arith) (λ e. ground arith))
      (some 300)

logged-IsCovered : IsCovered logged
logged-IsCovered zero lsn d e = let same : 300 ≡ lsn = ground arith in omega (arith, same)
logged-IsCovered (suc f) lsn d e = absurd (ground arith)

-- The page has unsaved changes and is written before it goes.
try_delete-Deletes_example :
    Deletes 1 40
      (single (frame 0 true false) true)
      (try_delete 40 (single (frame 0 true false) true)).0
      (try_delete 40 (single (frame 0 true false) true)).1
try_delete-Deletes_example =
    try_delete-Deletes 1 (single (frame 0 true false) true) dirty_page-IsValid 40

flush_finish-IsCovered_example : IsCovered (flush_finish 0 true logged)
flush_finish-IsCovered_example = flush_finish-IsCovered 0 logged (omega arith) logged-IsCovered

-- The flush of page 40 has begun; the record at 300 changes the page; the flush ends.
flush_finish-mark_dirty_example :
    ((Shard.meta
        (flush_finish 0 true (mark_dirty 100 40 300 90 (single (frame 2 false false) false)).0)
        0).is_dirty
      ≡ true)
    × ((Shard.meta
          (flush_finish 0 true (mark_dirty 100 40 300 90 (single (frame 2 false false) false)).0)
          0).rec_lsn
        ≡ none)
unfolding get
flush_finish-mark_dirty_example =
    flush_finish-mark_dirty 1 (single (frame 2 false false) false)
      (single-IsValid (frame 2 false false) false refl (λ e. ground arith) (λ e. ground arith)) 40 0
      100 300 90 refl

-- A leaf of 4096 bytes, with LSN 5.
abbrev leaf_page : Page
leaf_page = 1 ∷ replicate 15 0 ++ 5 ∷ replicate 4079 0

-- A stand-in for the CRC, a log that makes everything durable, and a disk that takes everything.
abbrev sum_crc : List ℕ → ℕ
sum_crc [] = 0
sum_crc (b ∷ bs) = (b + sum_crc bs) % 2 ^ 32

sum_crc-lt : (bs : List ℕ) → sum_crc bs < 2 ^ 32
sum_crc-lt [] = omega arith
sum_crc-lt (b ∷ bs) = omega arith

length-leaf_page : length leaf_page ≡ page_size
length-leaf_page = omega (
  arith,
  length-append {A = ℕ} (1 ∷ replicate 15 0) (5 ∷ replicate 4079 0),
  length-replicate {A = ℕ} 15 0,
  length-replicate {A = ℕ} 4079 0,
)

write_frame_to_disk-IsOrdered_example :
    IsOrdered sum_crc
      (λ lsn. none)
      (λ page_id page. none)
      40
      leaf_page
      (write_frame_to_disk sum_crc (λ lsn. none) (λ page_id page. none) 40 leaf_page).0
write_frame_to_disk-IsOrdered_example =
    write_frame_to_disk-IsOrdered sum_crc (λ lsn. none) (λ page_id page. none) sum_crc-lt 40
      leaf_page length-leaf_page

-- Pages 0 to 8 have been given out; 3 is free again.
abbrev pool : BufferPoolManager
pool = record { shards = logged ∷ []; next_page_id = 9; free_pool = 3 ∷ []; free_page = 1 }

min_rec_lsn-Covers_example : Covers (min_rec_lsn pool) 300
min_rec_lsn-Covers_example =
    min_rec_lsn-Covers pool 0 0 300 (omega arith) logged-IsCovered refl refl
