-- ===== src/BufferPool/Shard/Writes.antt =====
-- The lock sections around the write of a page, and mark_dirty, of crates/storage/src/buffer_pool/shard.rs.
use flux_db.Common.{
  ℕ, ◌+◌, ◌-◌, Bool, true, false, not, ◌&&◌, Option, none, some, List, [], ◌∷◌, set, get, remove,
  ltb, leb, ◌==◌, if◌then◌else◌, min?,
}
use flux_db.BufferPool.Errors.{BufferPoolError, pin_count_error}
use flux_db.BufferPool.Replacer
use flux_db.BufferPool.Replacer.{ClockReplacer, victim}
use flux_db.BufferPool.Shard.{invalid_frame_id, FrameMetadata, ShardInner, meta, set_meta, unpin}

-- The first lock section of `flush_page_inner`: the page and the frame to write, if it is dirty.
unfoldable pub flush_start : ℕ → ShardInner → ShardInner × Option (ℕ × ℕ)
flush_start page_id inner = elim (get page_id inner.page_table) [
  | none ↦ (inner, none)
  | some id ↦
      let m = meta inner id in
      if m.is_dirty && not (m.page_id == invalid_frame_id)
      then (
        set_meta inner id (record m { is_dirty = false; pin_count = m.pin_count + 1 }),
        some (m.page_id, id),
      )
      else (inner, none)
]

-- The LSNs of the dirty frames.
unfoldable pub dirty_rec_lsns : List FrameMetadata → List ℕ
dirty_rec_lsns [] = []
dirty_rec_lsns (m ∷ ms) =
    let rest = dirty_rec_lsns ms in
    if m.is_dirty then elim m.rec_lsn [ none ↦ rest | some lsn ↦ lsn ∷ rest ] else rest

-- `==` on `Option<Lsn>`
abbrev pub lsn_eq : Option ℕ → Option ℕ → Bool
lsn_eq none none = true
lsn_eq (some a) (some b) = a == b
lsn_eq _ _ = false

abbrev pub release : ℕ → ShardInner → ShardInner
release frame_id inner =
    let m = meta inner frame_id in
    let inner' = set_meta inner frame_id (record m { pin_count = m.pin_count - 1 }) in
    if m.pin_count - 1 == 0 then unpin inner' frame_id else inner'

-- The last lock section of `flush_page_inner`, with the outcome of the write.
unfoldable pub flush_finish : ℕ → Bool → ShardInner → ShardInner
unfolding dirty_rec_lsns
flush_finish frame_id written inner =
    let inner' = release frame_id inner in
    let m = meta inner' frame_id in
    if written
    then (let cleared = set_meta inner' frame_id (record m { rec_lsn = none }) in
        if lsn_eq m.rec_lsn inner.min_rec_lsn
        then record cleared { min_rec_lsn = min? (dirty_rec_lsns cleared.metadata) }
        else cleared)
    else set_meta inner' frame_id (record m { is_dirty = true })

-- The least LSN after a page has been marked dirty.
abbrev pub lower : ℕ → Option ℕ → Option ℕ
lower lsn none = some lsn
lower lsn (some l) = if ltb lsn l then some lsn else some l

-- `redo_point` is the value loaded from `last_checkpoint_redo_point`.
unfoldable pub mark_dirty : ℕ → ℕ → ℕ → ℕ → ShardInner → ShardInner × Bool
mark_dirty redo_point page_id lsn page_lsn_before inner = elim (get page_id inner.page_table) [
  | none ↦ (inner, false)
  | some frame_id ↦
      let m = meta inner frame_id in
      let marked = set_meta inner frame_id (record m { is_dirty = true }) in
      if not m.is_dirty
      then (
        record inner {
          metadata = set inner.metadata frame_id (record m { is_dirty = true; rec_lsn = some lsn });
          min_rec_lsn = lower lsn inner.min_rec_lsn;
        },
        leb page_lsn_before redo_point,
      )
      else (marked, false)
]

-- How a round of the loop of `delete_page` ends: done, with an error, or with a write of the page
-- in the frame, both named.
pub data Deleting : Type 0 where
  deleted : Deleting
  refused : BufferPoolError → Deleting
  writes : ℕ → ℕ → Deleting

unfoldable pub try_delete : ℕ → ShardInner → ShardInner × Deleting
try_delete page_id inner = elim (get page_id inner.page_table) [
  | none ↦ (inner, deleted)
  | some frame_id ↦
      let m = meta inner frame_id in
      if ltb 0 m.pin_count
      then (inner, refused pin_count_error)
      else if m.is_dirty
      then (
        set_meta inner frame_id (record m { pin_count = m.pin_count + 1 }),
        writes m.page_id frame_id,
      )
      else (
        record inner {
          page_table = remove page_id inner.page_table;
          metadata =
              set inner.metadata frame_id
                (record m { page_id = invalid_frame_id; pin_count = 0; is_dirty = false });
          replacer = Replacer.pin frame_id inner.replacer;
          free_list = frame_id ∷ inner.free_list;
        },
        deleted,
      )
]

-- The lock section of `delete_page` after the write.
unfoldable pub delete_written : ℕ → Bool → ShardInner → ShardInner
delete_written frame_id written inner =
    let inner' = release frame_id inner in
    set_meta inner' frame_id (record (meta inner' frame_id) { is_dirty = not written })
