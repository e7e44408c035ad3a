-- ===== src/BufferPool/Shard/Acquire.antt =====
-- A round of `acquire_frame`.
use flux_db.Common.{ℕ, ◌+◌, ◌<◌, ◌≡◌, ◌≢◌, ◌⊎◌, true, false, some, get}
use flux_db.BufferPool.Errors.{no_evictable_frames}
use flux_db.BufferPool.Replacer
use flux_db.BufferPool.Replacer.{ClockReplacer, victim}
use flux_db.BufferPool.Shard.{
  ShardInner, invalid_frame_id, meta, Acquired, ready, fails, waits, flushes,
}
use flux_db.BufferPool.Shard.Invariant.{is_evictable}

-- The frame holds the page, cannot be evicted, and is the only frame that changed.
abbrev pub Holds : ℕ → ℕ → ShardInner → ShardInner → ℕ → Type 0
Holds n page_id i i' f =
    (f < n)
    × ((meta i' f).page_id ≡ page_id)
    × (get page_id i'.page_table ≡ some f)
    × (is_evictable i' f ≡ false)
    × ((g : ℕ) → g ≢ f → meta i' g ≡ meta i g)

-- What each outcome of a round promises. A hit adds one pin to a loaded frame. A miss reserves a
-- frame that nobody had pinned and that held nothing unsaved. Any other outcome changes no frame,
-- and a flush is asked for a dirty page only.
abbrev pub Acquires : ℕ → ℕ → ShardInner → ShardInner → Acquired → Type 0
Acquires n page_id i i' (ready f false) =
    Holds n page_id i i' f
    × ((meta i' f).pin_count ≡ (meta i f).pin_count + 1)
    × ((meta i' f).loading ≡ false)
Acquires n page_id i i' (ready f true) =
    Holds n page_id i i' f
    × ((meta i f).pin_count ≡ 0)
    × (((meta i f).is_dirty ≡ false) ⊎ ((meta i f).page_id ≡ invalid_frame_id))
    × ((meta i' f).pin_count ≡ 1)
    × ((meta i' f).loading ≡ true)
Acquires n page_id i i' (fails e) =
    (e ≡ no_evictable_frames) × (i'.metadata ≡ i.metadata) × (i'.page_table ≡ i.page_table)
Acquires n page_id i i' waits =
    (i' ≡ i) × ((f : ℕ) × (get page_id i.page_table ≡ some f) × ((meta i f).loading ≡ true))
Acquires n page_id i i' (flushes q) =
    (i'.metadata ≡ i.metadata)
    × (i'.page_table ≡ i.page_table)
    × ((f : ℕ) × (get q i.page_table ≡ some f) × ((meta i f).is_dirty ≡ true))
