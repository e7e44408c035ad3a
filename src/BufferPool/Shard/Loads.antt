-- ===== src/BufferPool/Shard/Loads.antt =====
-- The end of a load, and the shard's invariant.
use flux_db.Common.{
  ℕ, ◌<◌, ◌≡◌, Bool, true, false, some, ◌∷◌, get, set, remove, get-remove, arith, refl, length,
  length-set,
}
use flux_db.BufferPool.Replacer
use flux_db.BufferPool.Shard.{FrameMetadata, ShardInner, invalid_frame_id, blank, meta, finish_load}
use flux_db.BufferPool.Shard.Invariant.{IsValid, get_or-set, get_or-set-false}
use flux_db.BufferPool.Shard.Pins.{set_pinned-IsValid, mapped-not_free}

module _ (n : ℕ) (i : ShardInner) (v : IsValid n i) (page_id f : ℕ)
    (mapped : get page_id i.page_table ≡ some f) where
  -- A frame that loses its page and goes to the free list.
  pub freed-IsValid :
      (m : FrameMetadata)
      → m.page_id ≡ invalid_frame_id
      → m.pin_count ≡ 0
      → m.is_dirty ≡ false
      → m.loading ≡ false
      → IsValid n (record i {
        page_table = remove page_id i.page_table;
        metadata = set i.metadata f m;
        replacer = Replacer.pin f i.replacer;
        free_list = f ∷ i.free_list;
      })
  unfolding Replacer.pin
  freed-IsValid m a b c d =
      let (h, held, fresh) = mapped-not_free n i v page_id f mapped in
      let own = (v.mapped page_id f mapped).1 in
      let inside : f < length i.metadata = omega (arith, v.sizes, h) in
      record {
        replacer = Replacer.pin-IsValid f i.replacer v.replacer;
        sizes = (v.sizes.0, omega (arith, v.sizes, length-set i.metadata f m));
        mapped = λ p g e. ground (
          arith,
          get-remove page_id p i.page_table,
          v.mapped p g,
          v.mapped page_id f mapped,
          get_or-set i.metadata f g m blank inside,
        );
        owned = λ g e. ground (
          arith,
          get_or-set i.metadata f g m blank inside,
          get-remove page_id (meta i g).page_id i.page_table,
          v.owned g,
          mapped,
        );
        idle = λ g e. ground (
          arith,
          v.idle g,
          get_or-set i.metadata f g m blank inside,
          get_or-set-false i.replacer.evictable f g,
        );
        busy = λ g e. ground (arith, v.busy g, get_or-set i.metadata f g m blank inside);
        free = λ g e. ground (arith, v.free g, h, get_or-set i.metadata f g m blank inside);
        distinct = (fresh, v.distinct);
      }

  -- The end of the load of a page, into the frame that the page table names, keeps a valid shard
  -- valid, whether the load went well or not.
  pub finish_load-IsValid :
      (success : Bool) → (meta i f).loading ≡ true → IsValid n (finish_load page_id f success i)
  unfolding finish_load
  finish_load-IsValid true l =
      set_pinned-IsValid n i v f (record (meta i f) { loading = false })
        (v.mapped page_id f mapped).0 (v.busy f l) refl (λ e. ground arith)
  finish_load-IsValid false l =
      freed-IsValid
        (record (meta i f) {
          page_id = invalid_frame_id;
          pin_count = 0;
          is_dirty = false;
          loading = false;
        })
        refl refl refl refl
