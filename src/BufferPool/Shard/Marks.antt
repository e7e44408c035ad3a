-- ===== src/BufferPool/Shard/Marks.antt =====
-- Dirty marks, the end of a flush, and deletion, and the shard's invariant.
use flux_db.Common.{
  ℕ, ◌+◌, ◌-◌, ◌<◌, ◌≡◌, ◌≢◌, Bool, true, false, not, Option, none, some, get, set, ltb, leb, ◌==◌,
  if◌then◌else◌, if_cases, arith, refl, min?, Option-cases, inl, inr, remove, get-remove, ◌∷◌, ◌⊎◌,
  sym, ap, ◌∙◌, get_or-set_ne,
}
use flux_db.BufferPool.Replacer
use flux_db.BufferPool.Errors.{pin_count_error}
use flux_db.BufferPool.Shard.{
  ShardInner, FrameMetadata, blank, invalid_frame_id, meta, set_meta, unpin,
}
use flux_db.BufferPool.Shard.Writes.{
  lower, mark_dirty, release, flush_finish, lsn_eq, dirty_rec_lsns, try_delete, Deleting, deleted,
  refused, writes,
}
use flux_db.BufferPool.Shard.Invariant.{IsValid, set_meta-IsValid}
use flux_db.BufferPool.Shard.Pins.{mapped-not_free, release-IsValid, meta-set_meta}
use flux_db.BufferPool.Shard.Loads.{freed-IsValid}

-- The shard's least LSN has no part in its validity.
pub min_rec_lsn-IsValid :
    (n : ℕ) (i : ShardInner)
    → IsValid n i
    → (lowest : Option ℕ) → IsValid n (record i { min_rec_lsn = lowest })
min_rec_lsn-IsValid n i v lowest = record {
  replacer = v.replacer;
  sizes = v.sizes;
  mapped = v.mapped;
  owned = v.owned;
  idle = v.idle;
  busy = v.busy;
  free = v.free;
  distinct = v.distinct;
}

module _ (n : ℕ) (i : ShardInner) (v : IsValid n i) where
  -- A frame that holds a page may change its dirty mark and its LSN.
  pub touched-IsValid :
      (f : ℕ) (dirty : Bool) (lsn : Option ℕ)
      → f < n
      → (meta i f).page_id ≢ invalid_frame_id
      → IsValid n (set_meta i f (record (meta i f) { is_dirty = dirty; rec_lsn = lsn }))
  touched-IsValid f dirty lsn h held =
      set_meta-IsValid n i v f (record (meta i f) { is_dirty = dirty; rec_lsn = lsn }) h refl
        (λ e. (v.idle f e).0) (v.busy f) (λ e. absurd (ground (arith, v.free f e)))

  -- Marking a page dirty keeps the shard valid.
  pub mark_dirty-IsValid :
      (redo_point page_id lsn before : ℕ) → IsValid n (mark_dirty redo_point page_id lsn before i).0
  unfolding mark_dirty
  mark_dirty-IsValid redo_point page_id lsn before =
      elim (Option-cases (get page_id i.page_table)) [
        | inl e ↦ rw (e, mark_dirty) v
        | inr (f, e) ↦
            let (h, held, _) = mapped-not_free n i v page_id f e in
            rw (e, mark_dirty)
              (if_cases (λ (r : ShardInner × Bool). IsValid n r.0) (not (meta i f).is_dirty)
                (
                  record (set_meta i f
                      (record (meta i f) { is_dirty = true; rec_lsn = some lsn })) {
                        min_rec_lsn = lower lsn i.min_rec_lsn;
                      },
                  leb before redo_point,
                )
                (set_meta i f (record (meta i f) { is_dirty = true }), false)
                (λ c.
                  min_rec_lsn-IsValid n
                    (set_meta i f (record (meta i f) { is_dirty = true; rec_lsn = some lsn }))
                    (touched-IsValid f true (some lsn) h held) (lower lsn i.min_rec_lsn))
                (λ c. touched-IsValid f true (meta i f).rec_lsn h held))
      ]

  pub meta-release :
      (f : ℕ)
      → f < n
      → meta (release f i) f ≡ record (meta i f) { pin_count = (meta i f).pin_count - 1 }
  meta-release f h =
      let m = record (meta i f) { pin_count = (meta i f).pin_count - 1 } in
      if_cases (λ (j : ShardInner). meta j f ≡ m) ((meta i f).pin_count - 1 == 0)
        (unpin (set_meta i f m) f) (set_meta i f m) (λ c. meta-set_meta n i v f m h)
        (λ c. meta-set_meta n i v f m h)

module _ (n : ℕ) (i : ShardInner) (v : IsValid n i) (f : ℕ) (inside : f < n)
    (pinned : 0 < (meta i f).pin_count) (loaded : (meta i f).loading ≡ false)
    (held : (meta i f).page_id ≢ invalid_frame_id) where
  abbrev released : ShardInner
  released = release f i

  released-IsValid : IsValid n released
  released-IsValid = release-IsValid n i v f inside pinned loaded held

  released-holds : (meta released f).page_id ≢ invalid_frame_id
  released-holds = rw (meta-release n i v f inside) held

  -- The end of a flush, whether the write went well or not, keeps a valid shard valid, if the frame is
  -- pinned, loaded and holds a page.
  pub flush_finish-IsValid : (written : Bool) → IsValid n (flush_finish f written i)
  unfolding flush_finish
  flush_finish-IsValid true =
      let w =
        touched-IsValid n released released-IsValid f (meta released f).is_dirty none inside
          released-holds in
      let cleared = set_meta released f (record (meta released f) { rec_lsn = none }) in
      if_cases (IsValid n) (lsn_eq (meta released f).rec_lsn i.min_rec_lsn)
        (record cleared { min_rec_lsn = min? (dirty_rec_lsns cleared.metadata) }) cleared
        (λ c. min_rec_lsn-IsValid n cleared w (min? (dirty_rec_lsns cleared.metadata))) (λ c. w)
  flush_finish-IsValid false =
      touched-IsValid n released released-IsValid f true (meta released f).rec_lsn inside
        released-holds

-- A frame other than `f` has changed in no round.
abbrev pub Apart : ShardInner → ShardInner → ℕ → Type 0
Apart i i' f = (g : ℕ) → g ≢ f → meta i' g ≡ meta i g

-- What a round of `delete_page` promises. Either the page was not there and nothing changes, or it was
-- in a frame that nobody had pinned and that held nothing unsaved, and this frame is free. Or the
-- page was in use and nothing changes. Or it holds unsaved changes, and its frame is pinned for the
-- write and stays dirty.
abbrev pub Deletes : ℕ → ℕ → ShardInner → ShardInner → Deleting → Type 0
Deletes n page_id i i' deleted =
    IsValid n i'
    × (get page_id i'.page_table ≡ none)
    × ((p : ℕ) → p ≢ page_id → get p i'.page_table ≡ get p i.page_table)
    × (((get page_id i.page_table ≡ none) × (i' ≡ i))
        ⊎ ((f : ℕ) × (get page_id i.page_table ≡ some f)
            × ((meta i f).pin_count ≡ 0)
            × ((meta i f).is_dirty ≡ false)
            × (i'.free_list ≡ f ∷ i.free_list)
            × Apart i i' f))
Deletes n page_id i i' (refused e) =
    (i' ≡ i) × ((f : ℕ) × (get page_id i.page_table ≡ some f) × (0 < (meta i f).pin_count))
Deletes n page_id i i' (writes q f) =
    (q ≡ page_id)
    × (get page_id i.page_table ≡ some f)
    × ((meta i f).pin_count ≡ 0)
    × ((meta i f).is_dirty ≡ true)
    × (i'.page_table ≡ i.page_table)
    × (meta i' f ≡ record (meta i f) { pin_count = 1 })
    × Apart i i' f

module _ (n : ℕ) (i : ShardInner) (v : IsValid n i) (page_id f : ℕ)
    (e : get page_id i.page_table ≡ some f) (calm : (meta i f).pin_count ≡ 0) where
  set_meta-Apart : (m : FrameMetadata) → Apart i (set_meta i f m) f
  set_meta-Apart m g ne = get_or-set_ne i.metadata f g m blank (λ same. ne (sym same))

  -- The round that asks for the write of a dirty page.
  writes-Deletes :
      (meta i f).is_dirty ≡ true
      → Deletes n page_id i
          (set_meta i f (record (meta i f) { pin_count = (meta i f).pin_count + 1 }))
          (writes (meta i f).page_id f)
  writes-Deletes d =
      let m = record (meta i f) { pin_count = (meta i f).pin_count + 1 } in
      let (inside, own, _) = v.mapped page_id f e in
      (
        own,
        e,
        calm,
        d,
        refl,
        meta-set_meta n i v f m inside ∙ ap (λ k. record (meta i f) { pin_count = k + 1 }) calm,
        set_meta-Apart m,
      )

  -- The round that frees the frame of a page without unsaved changes.
  deleted-Deletes :
      (meta i f).is_dirty ≡ false
      → Deletes n page_id i
          (record i {
            page_table = remove page_id i.page_table;
            metadata =
                set i.metadata f (record (meta i f) {
                  page_id = invalid_frame_id;
                  pin_count = 0;
                  is_dirty = false;
                });
            replacer = Replacer.pin f i.replacer;
            free_list = f ∷ i.free_list;
          })
          deleted
  deleted-Deletes d =
      let freed = record (meta i f) {
        page_id = invalid_frame_id;
        pin_count = 0;
        is_dirty = false;
      } in
      (
        freed-IsValid n i v page_id f e freed refl refl refl (ground (arith, v.busy f)),
        ground (arith, get-remove page_id page_id i.page_table),
        λ p ne. ground (arith, get-remove page_id p i.page_table),
        inr (f, e, calm, d, refl, set_meta-Apart freed),
      )

-- A round of `delete_page` on a valid shard ends in one of these ways. The page is not mapped any
-- more, the shard is valid and the other pages are mapped as before: it was not there and nothing
-- changed, or its frame was not pinned and had no unsaved changes, is free now, and no other frame
-- changed. Or its frame was pinned, and nothing changed. Or its frame was not pinned and has unsaved
-- changes: then a write of this page is asked for, its frame has one pin and is dirty as before, and
-- no mapping and no other frame changed.
pub try_delete-Deletes :
    (n : ℕ) (i : ShardInner)
    → IsValid n i
    → (page_id : ℕ) → Deletes n page_id i (try_delete page_id i).0 (try_delete page_id i).1
unfolding try_delete
try_delete-Deletes n i v page_id = elim (Option-cases (get page_id i.page_table)) [
  | inl e ↦ rw (e, try_delete) (v, e, λ p ne. refl, inl (e, refl))
  | inr (f, e) ↦
      let m = meta i f in
      let P : ShardInner × Deleting → Type 0 = λ r. Deletes n page_id i r.0 r.1 in
      let pinned : ShardInner × Deleting =
        (set_meta i f (record m { pin_count = m.pin_count + 1 }), writes m.page_id f) in
      let gone : ShardInner × Deleting = (
        record i {
          page_table = remove page_id i.page_table;
          metadata =
              set i.metadata f
                (record m { page_id = invalid_frame_id; pin_count = 0; is_dirty = false });
          replacer = Replacer.pin f i.replacer;
          free_list = f ∷ i.free_list;
        },
        deleted,
      ) in
      rw (e, try_delete)
        (if_cases P (ltb 0 m.pin_count) (i, refused pin_count_error)
          (if m.is_dirty then pinned else gone) (λ p. (refl, (f, e, ground arith)))
          (λ p.
            if_cases P m.is_dirty pinned gone (writes-Deletes n i v page_id f e (ground arith))
              (deleted-Deletes n i v page_id f e (ground arith))))
]
