-- ===== src/BufferPool/Shard/Pins.antt =====
-- Pins, and the shard's invariant.
use flux_db.Common.{
  ℕ, ◌-◌, ◌<◌, ◌≡◌, ◌≢◌, Bool, true, false, ◌||◌, some, get, ltb, ◌==◌, arith, refl, Bool-cases,
  Option-cases, inl, inr, contains, get_or-set_self,
}
use flux_db.BufferPool.Shard.{
  FrameMetadata, ShardInner, invalid_frame_id, blank, meta, set_meta, drop_pin, unpin_page,
}
use flux_db.BufferPool.Shard.Writes.{release}
use flux_db.BufferPool.Shard.Invariant.{IsValid, is_evictable, set_meta-IsValid, unpin-IsValid_lem}

module _ (n : ℕ) (i : ShardInner) (v : IsValid n i) where
  pub meta-set_meta : (f : ℕ) (m : FrameMetadata) → f < n → meta (set_meta i f m) f ≡ m
  meta-set_meta f m h = get_or-set_self i.metadata f m blank (omega (arith, v.sizes))

  -- A frame that the page table names is not free, and holds a page.
  pub mapped-not_free :
      (p f : ℕ)
      → get p i.page_table ≡ some f
      → (f < n) × ((meta i f).page_id ≢ invalid_frame_id) × (contains i.free_list f ≡ false)
  mapped-not_free p f e = (
    (v.mapped p f e).0,
    λ w. ground (arith, v.mapped p f e),
    ground (arith, v.mapped p f e, v.free f),
  )

  -- A pinned frame is neither free nor evictable.
  pub pinned-held :
      (f : ℕ)
      → 0 < (meta i f).pin_count
      → (is_evictable i f ≡ false) × (contains i.free_list f ≡ false)
  pinned-held f h = (ground (arith, v.idle f), ground (arith, v.free f))

  -- Changing a pinned frame, if it keeps its page and its load.
  pub set_pinned-IsValid :
      (f : ℕ) (m : FrameMetadata)
      → f < n
      → 0 < (meta i f).pin_count
      → m.page_id ≡ (meta i f).page_id
      → (m.loading ≡ true → 0 < m.pin_count)
      → IsValid n (set_meta i f m)
  set_pinned-IsValid f m h p same load =
      set_meta-IsValid n i v f m h same (λ e. ground (arith, pinned-held f p)) load
        (λ e. absurd (ground (arith, pinned-held f p)))

  module _ (f : ℕ) (h : f < n) (p : 0 < (meta i f).pin_count) (done : (meta i f).loading ≡ false)
      (held : (meta i f).page_id ≢ invalid_frame_id) where
    -- One pin less, and a candidate for eviction if it was the last.
    pub drop_pin-IsValid : (d : Bool) → IsValid n (drop_pin i f d)
    drop_pin-IsValid d =
        let m = record (meta i f) {
          pin_count = (meta i f).pin_count - 1;
          is_dirty = (meta i f).is_dirty || d;
        } in
        let v' = set_pinned-IsValid f m h p refl (λ l. ground arith) in
        elim (Bool-cases ((meta i f).pin_count - 1 == 0)) [
          | inl e ↦ rw e (
              unpin-IsValid_lem n (set_meta i f m) v' f h (rw (meta-set_meta f m h) (ground arith))
                (rw (meta-set_meta f m h) held))
          | inr e ↦ rw e v'
        ]

    pub release-IsValid : IsValid n (release f i)
    release-IsValid =
        let m = record (meta i f) { pin_count = (meta i f).pin_count - 1 } in
        let v' = set_pinned-IsValid f m h p refl (λ l. ground arith) in
        elim (Bool-cases ((meta i f).pin_count - 1 == 0)) [
          | inl e ↦ rw e (
              unpin-IsValid_lem n (set_meta i f m) v' f h (rw (meta-set_meta f m h) (ground arith))
                (rw (meta-set_meta f m h) held))
          | inr e ↦ rw e v'
        ]

  -- Unpinning a page, with or without a dirty mark, keeps a valid shard valid, if the page is not
  -- being loaded.
  pub unpin_page-IsValid :
      (page_id : ℕ) (d : Bool)
      → ((f : ℕ) → get page_id i.page_table ≡ some f → (meta i f).loading ≡ false)
      → IsValid n (unpin_page page_id d i)
  unfolding unpin_page
  unpin_page-IsValid page_id d loaded = elim (Option-cases (get page_id i.page_table)) [
    | inl e ↦ rw (e, unpin_page) v
    | inr (f, e) ↦ elim (Bool-cases (ltb 0 (meta i f).pin_count)) [
      | inl p ↦
          let (h, held, _) = mapped-not_free page_id f e in
          rw (e, unpin_page) (rw p (drop_pin-IsValid f h (ground arith) (loaded f e) held d))
      | inr p ↦ rw (e, unpin_page) (rw p v)
    ]
  ]
