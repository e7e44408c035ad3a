-- ===== src/BufferPool/Shard.antt =====
-- The lock sections of a buffer pool shard, crates/storage/src/buffer_pool/shard.rs: what each
-- method does to `ShardInner` while it holds the mutex.
pub mod Writes
pub mod Invariant
pub mod Pins
pub mod Choose
pub mod Publish
pub mod Acquire
pub mod Loads
pub mod Flush
pub mod Marks
pub mod Redo
use flux_db.Common.{
  ℕ, suc, ◌+◌, ◌-◌, ◌^◌, Bool, true, false, not, ◌&&◌, ◌||◌, Option, none, some, List, [], ◌∷◌,
  get_or, set, get, insert, remove, ltb, ◌==◌, if◌then◌else◌, replicate,
}
use flux_db.BufferPool.Errors.{BufferPoolError, Result, ok, err}
use flux_db.BufferPool.Replacer
use flux_db.BufferPool.Replacer.{ClockReplacer, victim}

abbrev pub invalid_frame_id : ℕ
invalid_frame_id = 2 ^ 64 - 1

pub record FrameMetadata : Type 0 where
  pub page_id : ℕ
  pub pin_count : ℕ
  pub is_dirty : Bool
  pub loading : Bool
  pub rec_lsn : Option ℕ

-- `free_list` is a stack: its head is the end of the source's `Vec`.
pub record ShardInner : Type 0 where
  pub metadata : List FrameMetadata
  pub page_table : List (ℕ × ℕ)
  pub free_list : List ℕ
  pub replacer : ClockReplacer
  pub min_rec_lsn : Option ℕ

abbrev pub blank : FrameMetadata
blank = record {
  page_id = invalid_frame_id;
  pin_count = 0;
  is_dirty = false;
  loading = false;
  rec_lsn = none;
}

-- `0, 1, …, n - 1` from the end of the `Vec`, which holds them in falling order
unfoldable pub frames_from : ℕ → ℕ → List ℕ
frames_from i ℕ.zero = []
frames_from i (suc n) = i ∷ frames_from (suc i) n

unfoldable pub new : ℕ → ShardInner
unfolding frames_from
new size = record {
  metadata = replicate size blank;
  page_table = [];
  free_list = frames_from 0 size;
  replacer = Replacer.new size;
  min_rec_lsn = none;
}

-- `metadata[frame_id]`: an index out of bounds is a panic in the source, which `IsValid` rules out.
abbrev pub meta : ShardInner → ℕ → FrameMetadata
meta inner frame_id = get_or inner.metadata frame_id blank

abbrev pub set_meta : ShardInner → ℕ → FrameMetadata → ShardInner
set_meta inner frame_id m = record inner { metadata = set inner.metadata frame_id m }

abbrev pub pin : ShardInner → ℕ → ShardInner
pin inner frame_id = record inner { replacer = Replacer.pin frame_id inner.replacer }

abbrev pub unpin : ShardInner → ℕ → ShardInner
unpin inner frame_id = record inner { replacer = Replacer.unpin frame_id inner.replacer }

-- The branch of `unpin_page` for a frame that is pinned.
abbrev pub drop_pin : ShardInner → ℕ → Bool → ShardInner
drop_pin inner frame_id is_dirty =
    let m = meta inner frame_id in
    let inner' =
      set_meta inner frame_id
        (record m { pin_count = m.pin_count - 1; is_dirty = m.is_dirty || is_dirty }) in
    if m.pin_count - 1 == 0 then unpin inner' frame_id else inner'

unfoldable pub unpin_page : ℕ → Bool → ShardInner → ShardInner
unpin_page page_id is_dirty inner = elim (get page_id inner.page_table) [
  | none ↦ inner
  | some frame_id ↦
      if ltb 0 (meta inner frame_id).pin_count then drop_pin inner frame_id is_dirty else inner
]

unfoldable pub find_victim_frame_id : ShardInner → ShardInner × Result ℕ
find_victim_frame_id inner = elim inner.free_list [
  | [] ↦ let (r, found) = victim inner.replacer in (record inner { replacer = r }, found)
  | id ∷ rest ↦ (record inner { free_list = rest }, ok id)
]

-- How one round of the loop of `acquire_frame` ends: with the pair that the method returns, with
-- an error, with a wait for another thread's load, or with a flush of the page that it names.
pub data Acquired : Type 0 where
  ready : ℕ → Bool → Acquired
  fails : BufferPoolError → Acquired
  waits : Acquired
  flushes : ℕ → Acquired

-- The frame takes the page: the end of the round.
abbrev pub publish : ℕ → ℕ → ShardInner → ShardInner
publish page_id frame_id inner =
    let m = meta inner frame_id in
    let table =
      if m.page_id == invalid_frame_id
      then inner.page_table
      else remove m.page_id inner.page_table in
    record inner {
      metadata =
          set inner.metadata frame_id
            (record m { page_id = page_id; pin_count = 1; is_dirty = false; loading = true });
      page_table = insert page_id frame_id table;
      replacer = Replacer.pin frame_id inner.replacer;
    }

-- The rest of the round, with a victim.
abbrev pub claim : ℕ → ShardInner × Result ℕ → ShardInner × Acquired
claim page_id (inner, err e) = (inner, fails e)
claim page_id (inner, ok frame_id) =
    let m = meta inner frame_id in
    if m.is_dirty && not (m.page_id == invalid_frame_id)
    then (inner, flushes m.page_id)
    else (publish page_id frame_id inner, ready frame_id true)

-- One round of the loop of `acquire_frame`, up to the point where it gives the lock away.
unfoldable pub try_acquire : ℕ → ShardInner → ShardInner × Acquired
unfolding find_victim_frame_id
try_acquire page_id inner = elim (get page_id inner.page_table) [
  | none ↦ claim page_id (find_victim_frame_id inner)
  | some frame_id ↦
      let m = meta inner frame_id in
      if m.loading then (inner, waits) else (
        pin (set_meta inner frame_id (record m { pin_count = m.pin_count + 1 })) frame_id,
        ready frame_id false,
      )
]

unfoldable pub finish_load : ℕ → ℕ → Bool → ShardInner → ShardInner
finish_load page_id frame_id success inner =
    let m = meta inner frame_id in
    if success then set_meta inner frame_id (record m { loading = false }) else record inner {
      page_table = remove page_id inner.page_table;
      metadata = set inner.metadata frame_id (record m {
        page_id = invalid_frame_id;
        pin_count = 0;
        is_dirty = false;
        loading = false;
      });
      replacer = Replacer.pin frame_id inner.replacer;
      free_list = frame_id ∷ inner.free_list;
    }
