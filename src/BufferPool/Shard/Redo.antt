-- ===== src/BufferPool/Shard/Redo.antt =====
-- `min_rec_lsn`, from which a checkpoint takes the point where redo starts.
use mathlib.Core.Path.{subst}
use flux_db.Common.{
  ℕ, zero, suc, ◌-◌, ◌<◌, ◌≤◌, ◌≡◌, Bool, true, false, not, Option, none, some, List, [], ◌∷◌, get,
  get_or, ltb, leb, ◌==◌, if_cases, arith, ap, ◌∙◌, Bool-cases, min?, min?-le, not-contains_of_min?,
  Option-cases, inl, inr, contains, length, length-set, get_or-set_self,
}
use flux_db.BufferPool.Shard.{FrameMetadata, ShardInner, blank, meta, set_meta, unpin}
use flux_db.BufferPool.Shard.Writes.{
  lower, mark_dirty, release, flush_finish, lsn_eq, dirty_rec_lsns,
}
use flux_db.BufferPool.Shard.Invariant.{IsValid, get_or-set}
use flux_db.BufferPool.Shard.Pins.{mapped-not_free, meta-set_meta}
use flux_db.BufferPool.Shard.Marks.{meta-release, mark_dirty-IsValid}

-- A least LSN that is no more than `lsn`.
abbrev pub Covers : Option ℕ → ℕ → Type 0
Covers none lsn = ⊥
Covers (some m) lsn = m ≤ lsn

-- The shard's least LSN is no more than that of a dirty frame.
abbrev pub IsCovered : ShardInner → Type 0
IsCovered i =
    (f lsn : ℕ)
    → (meta i f).is_dirty ≡ true
    → (meta i f).rec_lsn ≡ some lsn
    → Covers i.min_rec_lsn lsn

contains-kept :
    (o : Option ℕ) (xs : List ℕ) (lsn : ℕ)
    → contains xs lsn ≡ true
    → contains (elim o [ none ↦ xs | some l ↦ l ∷ xs ]) lsn ≡ true
contains-kept none xs lsn h = h
contains-kept (some l) xs lsn h = ground arith

contains-dirty_rec_lsns :
    (ms : List FrameMetadata) (f lsn : ℕ)
    → (get_or ms f blank).is_dirty ≡ true
    → (get_or ms f blank).rec_lsn ≡ some lsn
    → contains (dirty_rec_lsns ms) lsn ≡ true
unfolding dirty_rec_lsns
contains-dirty_rec_lsns [] f lsn d e = absurd (ground arith)
contains-dirty_rec_lsns (m ∷ ms) zero lsn d e =
    rw (d, dirty_rec_lsns) (rw (e, dirty_rec_lsns) (ground arith))
contains-dirty_rec_lsns (m ∷ ms) (suc f) lsn d e =
    let rest = contains-dirty_rec_lsns ms f lsn d e in
    if_cases (λ (xs : List ℕ). contains xs lsn ≡ true) m.is_dirty
      (elim m.rec_lsn [ none ↦ dirty_rec_lsns ms | some l ↦ l ∷ dirty_rec_lsns ms ])
      (dirty_rec_lsns ms) (λ c. contains-kept m.rec_lsn (dirty_rec_lsns ms) lsn rest) (λ c. rest)

pub min?-Covers : (xs : List ℕ) (lsn : ℕ) → contains xs lsn ≡ true → Covers (min? xs) lsn
min?-Covers xs lsn h = elim (Option-cases (min? xs)) [
  | inl e ↦ absurd (ground (arith, not-contains_of_min? xs lsn e))
  | inr (m, e) ↦ rw e (min?-le xs lsn m h e)
]

lower-Covers_new : (lowest : Option ℕ) (lsn : ℕ) → Covers (lower lsn lowest) lsn
lower-Covers_new none lsn = omega arith
lower-Covers_new (some l) lsn =
    if_cases (λ (o : Option ℕ). Covers o lsn) (ltb lsn l) (some lsn) (some l) (λ c. omega arith)
      (λ c. ground arith)

lower-Covers_old :
    (lowest : Option ℕ) (lsn old : ℕ) → Covers lowest old → Covers (lower lsn lowest) old
lower-Covers_old none lsn old h = absurd h
lower-Covers_old (some l) lsn old h =
    if_cases (λ (o : Option ℕ). Covers o old) (ltb lsn l) (some lsn) (some l) (λ c. ground arith)
      (λ c. h)

-- After one frame's metadata has changed, all are covered if that frame is, and the others by the
-- least LSN that is set with it.
set_meta-IsCovered :
    (i : ShardInner) (f : ℕ) (m : FrameMetadata) (lowest : Option ℕ)
    → f < length i.metadata
    → ((lsn : ℕ) → m.is_dirty ≡ true → m.rec_lsn ≡ some lsn → Covers lowest lsn)
    → ((g lsn : ℕ) → (meta i g).is_dirty ≡ true → (meta i g).rec_lsn ≡ some lsn → Covers lowest lsn)
    → IsCovered (record (set_meta i f m) { min_rec_lsn = lowest })
set_meta-IsCovered i f m lowest h own rest g lsn d e =
    let at = get_or-set i.metadata f g m blank h in
    elim (Bool-cases (g == f)) [
      | inl s ↦ own lsn (ground (arith, at)) (ground (arith, at))
      | inr s ↦ rest g lsn (ground (arith, at)) (ground (arith, at))
    ]

length-release : (f : ℕ) (i : ShardInner) → length (release f i).metadata ≡ length i.metadata
length-release f i =
    let m = record (meta i f) { pin_count = (meta i f).pin_count - 1 } in
    if_cases (λ (j : ShardInner). length j.metadata ≡ length i.metadata)
      ((meta i f).pin_count - 1 == 0) (unpin (set_meta i f m) f) (set_meta i f m)
      (λ c. length-set i.metadata f m) (λ c. length-set i.metadata f m)

release-IsCovered :
    (f : ℕ) (i : ShardInner) → f < length i.metadata → IsCovered i → IsCovered (release f i)
release-IsCovered f i h c =
    let m = record (meta i f) { pin_count = (meta i f).pin_count - 1 } in
    let kept = set_meta-IsCovered i f m i.min_rec_lsn h (c f) c in
    if_cases IsCovered ((meta i f).pin_count - 1 == 0) (unpin (set_meta i f m) f) (set_meta i f m)
      (λ z. kept) (λ z. kept)

-- The end of a flush that has written its page keeps the shard's least LSN at or below that of every
-- dirty frame that has one.
pub flush_finish-IsCovered :
    (f : ℕ) (i : ShardInner)
    → f < length i.metadata
    → IsCovered i
    → IsCovered (flush_finish f true i)
unfolding flush_finish
flush_finish-IsCovered f i h c =
    let j = release f i in
    let m = record (meta j f) { rec_lsn = none } in
    let cleared = set_meta j f m in
    if_cases IsCovered (lsn_eq (meta j f).rec_lsn i.min_rec_lsn)
      (record cleared { min_rec_lsn = min? (dirty_rec_lsns cleared.metadata) }) cleared
      (λ z g l d e.
        min?-Covers (dirty_rec_lsns cleared.metadata) l
          (contains-dirty_rec_lsns cleared.metadata g l d e))
      (λ z.
        set_meta-IsCovered j f m j.min_rec_lsn (omega (arith, h, length-release f i))
          (λ l d e. absurd (ground arith)) (release-IsCovered f i h c))

module _ (n : ℕ) (i : ShardInner) (v : IsValid n i) where
  -- Marking a page dirty in a valid shard keeps the shard's least LSN at or below that of every dirty
  -- frame that has one.
  pub mark_dirty-IsCovered :
      (redo_point page_id lsn before : ℕ)
      → IsCovered i
      → IsCovered (mark_dirty redo_point page_id lsn before i).0
  unfolding mark_dirty
  mark_dirty-IsCovered redo_point page_id lsn before c =
      elim (Option-cases (get page_id i.page_table)) [
        | inl e ↦ rw (e, mark_dirty) c
        | inr (f, e) ↦
            let (h, held, _) = mapped-not_free n i v page_id f e in
            let m = record (meta i f) { is_dirty = true; rec_lsn = some lsn } in
            let again = record (meta i f) { is_dirty = true } in
            rw (e, mark_dirty)
              (if_cases (λ (r : ShardInner × Bool). IsCovered r.0) (not (meta i f).is_dirty)
                (
                  record (set_meta i f m) { min_rec_lsn = lower lsn i.min_rec_lsn },
                  leb before redo_point,
                )
                (set_meta i f again, false)
                (λ clean.
                  set_meta-IsCovered i f m (lower lsn i.min_rec_lsn) (omega (arith, v.sizes, h))
                    (λ l d s.
                      let same : lsn ≡ l = ground arith in
                      subst (Covers (lower lsn i.min_rec_lsn)) same
                        (lower-Covers_new i.min_rec_lsn lsn))
                    (λ g l d s. lower-Covers_old i.min_rec_lsn lsn l (c g l d s)))
                (λ dirty.
                  set_meta-IsCovered i f again i.min_rec_lsn (omega (arith, v.sizes, h))
                    (λ l d s. c f l (ground arith) s) (λ g l d s. c g l d s)))
      ]

  dirty-mark_dirty :
      (page_id f redo_point lsn before : ℕ)
      → get page_id i.page_table ≡ some f
      → (meta (mark_dirty redo_point page_id lsn before i).0 f).is_dirty ≡ true
  unfolding mark_dirty
  dirty-mark_dirty page_id f redo_point lsn before e =
      let (h, _, _) = mapped-not_free n i v page_id f e in
      let m = record (meta i f) { is_dirty = true; rec_lsn = some lsn } in
      let again = record (meta i f) { is_dirty = true } in
      rw (e, mark_dirty)
        (if_cases (λ (r : ShardInner × Bool). (meta r.0 f).is_dirty ≡ true)
          (not (meta i f).is_dirty)
          (record (set_meta i f m) { min_rec_lsn = lower lsn i.min_rec_lsn }, leb before redo_point)
          (set_meta i f again, false)
          (λ c. ap (λ (k : FrameMetadata). k.is_dirty) (meta-set_meta n i v f m h))
          (λ c. ap (λ (k : FrameMetadata). k.is_dirty) (meta-set_meta n i v f again h)))

  meta-flush_finish :
      (f : ℕ)
      → f < n
      → meta (flush_finish f true i) f
        ≡ record (meta i f) { pin_count = (meta i f).pin_count - 1; rec_lsn = none }
  unfolding flush_finish
  meta-flush_finish f h =
      let j = release f i in
      let m = record (meta j f) { rec_lsn = none } in
      let cleared = set_meta j f m in
      let at =
        get_or-set_self j.metadata f m blank (omega (arith, v.sizes, h, length-release f i)) in
      let done =
        at ∙ ap (λ (k : FrameMetadata). record k { rec_lsn = none }) (meta-release n i v f h) in
      if_cases
        (λ (k : ShardInner).
          meta k f ≡ record (meta i f) { pin_count = (meta i f).pin_count - 1; rec_lsn = none })
        (lsn_eq (meta j f).rec_lsn i.min_rec_lsn)
        (record cleared { min_rec_lsn = min? (dirty_rec_lsns cleared.metadata) }) cleared
        (λ z. done) (λ z. done)

module _ (n : ℕ) (i : ShardInner) (v : IsValid n i) where
  -- In a valid shard, a page that is marked dirty before the last section of a flush of its frame is
  -- left by that section, if the write went well, dirty and without an LSN.
  pub flush_finish-mark_dirty :
      (page_id f redo_point lsn before : ℕ)
      → get page_id i.page_table ≡ some f
      → ((meta (flush_finish f true (mark_dirty redo_point page_id lsn before i).0) f).is_dirty
          ≡ true)
        × ((meta (flush_finish f true (mark_dirty redo_point page_id lsn before i).0) f).rec_lsn
            ≡ none)
  flush_finish-mark_dirty page_id f redo_point lsn before e =
      let k = (mark_dirty redo_point page_id lsn before i).0 in
      let last =
        meta-flush_finish n k (mark_dirty-IsValid n i v redo_point page_id lsn before) f
          (v.mapped page_id f e).0 in
      (
        ap (λ (m : FrameMetadata). m.is_dirty) last
            ∙ dirty-mark_dirty n i v page_id f redo_point lsn before e,
        ap (λ (m : FrameMetadata). m.rec_lsn) last,
      )
