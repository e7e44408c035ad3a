-- ===== src/BufferPool/Shard/Flush.antt =====
-- The first section of a flush, and the frames that may be evicted meanwhile.
use flux_db.Common.{
  ℕ, ◌+◌, ◌≡◌, ◌↔◌, true, false, not, ◌&&◌, none, some, List, [], ◌∷◌, get, ◌==◌, arith, refl,
  Bool-cases, Option-cases, inl, inr, ap, ◌∙◌,
}
use flux_db.BufferPool.Errors.{Result, ok}
use flux_db.BufferPool.Replacer.{ClockReplacer, victim}
use flux_db.BufferPool.Victim.{Swept, victim-Swept, victim-ok_iff}
use flux_db.BufferPool.Shard.{
  FrameMetadata, ShardInner, invalid_frame_id, meta, set_meta, find_victim_frame_id, try_acquire,
  ready, claim,
}
use flux_db.BufferPool.Shard.Writes.{flush_start}
use flux_db.BufferPool.Shard.Invariant.{IsValid, is_evictable, set_meta-IsValid}
use flux_db.BufferPool.Shard.Pins.{mapped-not_free, meta-set_meta}
use mathlib.Core.Path.{subst}

module _ (n : ℕ) (i : ShardInner) (v : IsValid n i) where
  -- The frame under flush.
  abbrev flushing : ℕ → FrameMetadata
  flushing f = record (meta i f) { is_dirty = false; pin_count = (meta i f).pin_count + 1 }

  flush_start_clean :
      (page_id f : ℕ)
      → get page_id i.page_table ≡ some f
      → (meta i f).is_dirty ≡ false
      → flush_start page_id i ≡ (i, none)
  unfolding flush_start
  flush_start_clean page_id f e d = rw (e, flush_start) (rw d refl)

  flush_start_dirty :
      (page_id f : ℕ)
      → get page_id i.page_table ≡ some f
      → (meta i f).is_dirty ≡ true
      → flush_start page_id i ≡ (set_meta i f (flushing f), some (page_id, f))
  unfolding flush_start
  flush_start_dirty page_id f e d =
      let (_, own, proper) = v.mapped page_id f e in
      let held : (meta i f).is_dirty && not ((meta i f).page_id == invalid_frame_id) ≡ true =
        ground (arith, own, proper) in
      rw (e, flush_start) (rw held (ap (λ p. (set_meta i f (flushing f), some (p, f))) own))

  flushing-IsValid :
      (page_id f : ℕ)
      → get page_id i.page_table ≡ some f
      → is_evictable i f ≡ false
      → IsValid n (set_meta i f (flushing f))
  flushing-IsValid page_id f e idle =
      let (h, _, fresh) = mapped-not_free n i v page_id f e in
      set_meta-IsValid n i v f (flushing f) h refl (λ w. absurd (ground arith)) (λ l. omega arith)
        (λ w. absurd (ground arith))

  flushing-idle :
      (page_id f : ℕ)
      → get page_id i.page_table ≡ some f
      → IsValid n (set_meta i f (flushing f))
      → is_evictable i f ≡ false
  flushing-idle page_id f e w =
      let h = (v.mapped page_id f e).0 in
      elim (Bool-cases (is_evictable i f)) [
        | inl b ↦ absurd (ground (arith, w.idle f b, meta-set_meta n i v f (flushing f) h))
        | inr b ↦ b
      ]

  -- The start of a flush keeps a valid shard valid exactly if the frame that it finds dirty is not
  -- among the candidates for eviction.
  pub flush_start-IsValid :
      (page_id : ℕ)
      → IsValid n (flush_start page_id i).0
        ↔ ((f : ℕ) → (flush_start page_id i).1 ≡ some (page_id, f) → is_evictable i f ≡ false)
  unfolding flush_start
  flush_start-IsValid page_id = elim (Option-cases (get page_id i.page_table)) [
    | inl e ↦ rw (e, flush_start) (λ w f h. absurd (ground arith), λ h. v)
    | inr (f, e) ↦ elim (Bool-cases (meta i f).is_dirty) [
      | inl d ↦ rw (flush_start_dirty page_id f e d) (
        λ w g h. let same : f ≡ g = ground arith in rw⁻¹ same (flushing-idle page_id f e w),
        λ h. flushing-IsValid page_id f e (h f refl),
      )
      | inr d ↦ rw (flush_start_clean page_id f e d) (λ w f h. absurd (ground arith), λ h. v)
    ]
  ]

-- A full shard in which a dirty page sits in the only frame that may be evicted.
module _ (n : ℕ) (i : ShardInner) (v : IsValid n i) (page_id other f : ℕ)
    (mapped : get page_id i.page_table ≡ some f) (dirty : (meta i f).is_dirty ≡ true)
    (candidate : is_evictable i f ≡ true) (alone : (g : ℕ) → is_evictable i g ≡ true → g ≡ f)
    (full : i.free_list ≡ []) (absent : get other i.page_table ≡ none) where
  abbrev started : ShardInner
  started = set_meta i f (flushing n i v f)

  abbrev swept : ClockReplacer
  swept = (victim i.replacer).0

  victim_only : (victim i.replacer).1 ≡ ok f
  victim_only =
      let (g, found) =
        (victim-ok_iff i.replacer v.replacer).1
          (f, omega (arith, v.sizes, v.mapped page_id f mapped), candidate) in
      let marked : Swept i.replacer.size i.replacer.evictable swept.evictable (ok g) =
        subst (Swept i.replacer.size i.replacer.evictable swept.evictable) found
          (victim-Swept i.replacer v.replacer) in
      rw (found, alone g marked.1) refl

  find_victim-started : find_victim_frame_id started ≡ (record started { replacer = swept }, ok f)
  unfolding find_victim_frame_id
  find_victim-started =
      ap
        (λ (l : List ℕ). elim l as (λ x. ShardInner × Result ℕ) [
          | [] ↦ (record started { replacer = swept }, (victim i.replacer).1)
          | id ∷ rest ↦ (record started { free_list = rest }, ok id)
        ])
        full
      ∙ ap (λ (r : Result ℕ). (record started { replacer = swept }, r)) victim_only

  claim-started : (claim other (record started { replacer = swept }, ok f)).1 ≡ ready f true
  claim-started = rw (meta-set_meta n i v f (flushing n i v f) (v.mapped page_id f mapped).0) refl

  -- In a valid and full shard whose only candidate for eviction holds a dirty page, the thread that
  -- acquires an absent page between the two sections of the flush of that page is given the very
  -- frame that is being flushed, as a frame to load its page into.
  pub try_acquire-flush_start :
      ((flush_start page_id i).1 ≡ some (page_id, f))
      × ((try_acquire other (flush_start page_id i).0).1 ≡ ready f true)
  unfolding try_acquire
  try_acquire-flush_start =
      rw (flush_start_dirty n i v page_id f mapped dirty)
        (refl, rw (absent, try_acquire) (rw find_victim-started claim-started))
