-- ===== src/BufferPool/Alloc/Apart.antt =====
-- Page ids of crates/storage/src/buffer_pool/manager.rs: no id is in two places, and the bitmap offers no page in use.
use flux_db.Common.{
  ℕ, ◌+◌, ◌<◌, ◌≤◌, ◌≡◌, true, Option, some, List, [], ◌∷◌, ◌==◌, if◌then◌else◌, contains,
}
use flux_db.BufferPool.Manager.{BufferPoolManager}
use flux_db.BufferPool.Alloc.{Config}
use flux_db.Page.Bytes.{Page}
use flux_db.Page.FreeSpace.{scan_free}
use flux_db.BufferPool.Alloc.Clears.{IsBitmap}

-- How often an id occurs.
abbrev pub count : List ℕ → ℕ → ℕ
count [] p = 0
count (x ∷ xs) p = (if p == x then 1 else 0) + count xs p

-- The places that an id is in.
abbrev pub places : Config → ℕ → ℕ
places c p =
    count c.manager.free_pool p
    + count c.claiming p
    + count c.failed p
    + count c.marked p
    + count c.live p

-- Every id is in one place at most and below the next id, and the bitmap has no page in use and no id that is yet to
-- be given out.
pub record IsApart (c : Config) : Type 0 where
  pub once : (p : ℕ) → places c p ≤ 1
  pub given : (p : ℕ) → 0 < places c p → p < c.manager.next_page_id
  pub is_bitmap : IsBitmap c.bitmap
  pub unused :
      (p : ℕ)
      → contains (scan_free c.bitmap) p ≡ true
      → (count c.live p ≡ 0) × (p < c.manager.next_page_id)

-- What a pop takes from the pool.
abbrev Popped : BufferPoolManager → List ℕ → ℕ → ℕ → BufferPoolManager × Option ℕ → Type 0
Popped m pool pid p r =
    r.1 ≡ some pid
    → (count pool p ≡ (if p == pid then 1 else 0) + count r.0.free_pool p)
      × (r.0.next_page_id ≡ m.next_page_id)

-- The ids are apart, and each is still in a place that was in one.
abbrev pub Keeps : Config → Config → Type 0
Keeps c d = IsApart d × ((p : ℕ) → places c p ≤ places d p)
