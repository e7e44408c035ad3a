-- ===== src/BufferPool/Shard/Publish.antt =====
-- A victim takes a page.
use flux_db.Common.{
  ℕ, ◌<◌, ◌≡◌, ◌≢◌, true, false, none, some, List, get, remove, get-insert, get-remove, ◌==◌,
  if◌then◌else◌, length, arith, length-set,
}
use flux_db.BufferPool.Replacer
use flux_db.BufferPool.Replacer.{ClockReplacer, victim}
use flux_db.BufferPool.Shard.{FrameMetadata, ShardInner, invalid_frame_id, blank, meta, publish}
use flux_db.BufferPool.Shard.Invariant.{IsValid, is_evictable, get_or-set, get_or-set-false}
use flux_db.BufferPool.Shard.Choose.{IsVictim}

-- The victim takes the page.
module _ (n : ℕ) (i : ShardInner) (v : IsValid n i) (f : ℕ) (c : IsVictim n i f) where
  pub publish-IsValid :
      (page_id : ℕ)
      → page_id ≢ invalid_frame_id
      → get page_id i.page_table ≡ none
      → IsValid n (publish page_id f i)
  unfolding Replacer.pin
  publish-IsValid page_id proper absent = record {
    replacer = Replacer.pin-IsValid f i.replacer v.replacer;
    sizes = (v.sizes.0, omega (arith, v.sizes, length-set i.metadata f m));
    mapped = λ p g e. ground (
      arith,
      get-insert page_id p f table,
      get-remove old p i.page_table,
      v.mapped p g,
      get_or-set i.metadata f g m blank inside,
    );
    owned = λ g e. ground (
      arith,
      get_or-set i.metadata f g m blank inside,
      get-insert page_id (meta i g).page_id f table,
      get-insert page_id page_id f table,
      get-remove old (meta i g).page_id i.page_table,
      v.owned g,
      v.owned f,
    );
    idle = λ g e. ground (
      arith,
      v.idle g,
      get_or-set i.metadata f g m blank inside,
      get_or-set-false i.replacer.evictable f g,
    );
    busy = λ g e. ground (arith, v.busy g, get_or-set i.metadata f g m blank inside);
    free = λ g e. ground (arith, v.free g, c.not_free, get_or-set i.metadata f g m blank inside);
    distinct = v.distinct;
  }
    where
      old : ℕ
      old = (meta i f).page_id

      table : List (ℕ × ℕ)
      table = if old == invalid_frame_id then i.page_table else remove old i.page_table

      m : FrameMetadata
      m = record (meta i f) { page_id = page_id; pin_count = 1; is_dirty = false; loading = true }

      inside : f < length i.metadata
      inside = omega (arith, v.sizes, c.inside)

  pub publish_lem :
      (page_id : ℕ)
      → (meta (publish page_id f i) f ≡ record (meta i f) {
        page_id = page_id;
        pin_count = 1;
        is_dirty = false;
        loading = true;
      })
        × (get page_id (publish page_id f i).page_table ≡ some f)
        × (is_evictable (publish page_id f i) f ≡ false)
        × ((g : ℕ) → g ≢ f → meta (publish page_id f i) g ≡ meta i g)
  unfolding Replacer.pin
  publish_lem page_id = (
    ground (arith, get_or-set i.metadata f f m blank inside),
    ground (arith, get-insert page_id page_id f table),
    ground (arith, get_or-set-false i.replacer.evictable f f),
    λ g e. ground (arith, get_or-set i.metadata f g m blank inside),
  )
    where
      table : List (ℕ × ℕ)
      table =
          if (meta i f).page_id == invalid_frame_id
          then i.page_table
          else remove (meta i f).page_id i.page_table

      m : FrameMetadata
      m = record (meta i f) { page_id = page_id; pin_count = 1; is_dirty = false; loading = true }

      inside : f < length i.metadata
      inside = omega (arith, v.sizes, c.inside)
