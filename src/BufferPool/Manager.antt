-- ===== src/BufferPool/Manager.antt =====
-- `BufferPoolManager` of crates/storage/src/buffer_pool/manager.rs: page ids and the shards' LSNs.
use Prim.Native.Nat.{bit_and, max}
use flux_db.Common.{
  ℕ, zero, suc, ◌+◌, ◌-◌, ◌<◌, ◌≤◌, ◌≡◌, true, Option, none, some, List, [], ◌∷◌, leb,
  if◌then◌else◌, contains, min?, arith, Option-cases, inl, inr, get_or, length,
}
use flux_db.BufferPool.Errors.{Result, ok, err, page_not_found}
use flux_db.BufferPool.Shard
use flux_db.BufferPool.Shard.{ShardInner, meta}
use flux_db.BufferPool.Shard.Redo.{Covers, IsCovered, min?-Covers}
use flux_db.Page.Bytes.{Page}
use flux_db.Page.Header
use flux_db.Page.FreeSpace.{clear_free}

abbrev pub num_shards : ℕ
num_shards = 8

abbrev pub shard_mask : ℕ
shard_mask = num_shards - 1

-- `free_pool` is a stack: its head is the end of the source's `Vec`.
pub record BufferPoolManager : Type 0 where
  pub shards : List ShardInner
  pub next_page_id : ℕ
  pub free_pool : List ℕ
  pub free_page : ℕ

-- The shard of a page, by its place among the shards.
unfoldable pub get_shard : ℕ → ℕ
get_shard page_id = bit_and page_id shard_mask

unfoldable pub check_page_id : ℕ → BufferPoolManager → Result (Unit {0})
check_page_id page_id m = if leb m.next_page_id page_id then err (page_not_found page_id) else ok tt

-- The page as it is left in its guard, and the outcome. What `fetch_page_mut` gives, the page or an
-- error, and what `log_page_compact` answers to the page are parameters.
unfoldable pub claim_recycled :
    Result Page → (Page → Result ℕ) → ℕ → Option Page × Result (Unit {0})
claim_recycled (err e) log pid = (none, err e)
claim_recycled (ok page) log pid =
    let cleared = clear_free page pid in
    elim (log cleared) [
      | err e ↦ (some cleared, err e)
      | ok lsn ↦ (some (Header.set_lsn cleared lsn), ok tt)
    ]

-- The lock sections of `new_page` on the pool of free ids and on the next id: taking an id from the pool, a new id where
-- the pool has none, and putting an id back whose claim failed.
unfoldable pub pop_free : BufferPoolManager → BufferPoolManager × Option ℕ
pop_free m = elim m.free_pool [
  | [] ↦ (m, none)
  | pid ∷ rest ↦ (record m { free_pool = rest }, some pid)
]

unfoldable pub fresh_id : BufferPoolManager → BufferPoolManager × ℕ
fresh_id m = (record m { next_page_id = m.next_page_id + 1 }, m.next_page_id)

unfoldable pub repark : ℕ → BufferPoolManager → BufferPoolManager
repark pid m = record m { free_pool = pid ∷ m.free_pool }

unfoldable pub advance_next_page_id : ℕ → BufferPoolManager → BufferPoolManager
advance_next_page_id target_id m = record m { next_page_id = max m.next_page_id target_id }

-- The LSNs of the shards that have one.
unfoldable pub shard_lsns : List ShardInner → List ℕ
shard_lsns [] = []
shard_lsns (s ∷ shards) =
    let rest = shard_lsns shards in elim s.min_rec_lsn [ none ↦ rest | some lsn ↦ lsn ∷ rest ]

unfoldable pub min_rec_lsn : BufferPoolManager → Option ℕ
unfolding shard_lsns
min_rec_lsn m = min? (shard_lsns m.shards)

contains-shard_lsns :
    (shards : List ShardInner) (j lsn : ℕ)
    → j < length shards
    → (get_or shards j (Shard.new 0)).min_rec_lsn ≡ some lsn
    → contains (shard_lsns shards) lsn ≡ true
unfolding shard_lsns
contains-shard_lsns [] j lsn h e = absurd (omega arith)
contains-shard_lsns (s ∷ shards) zero lsn h e = rw (e, shard_lsns) (ground arith)
contains-shard_lsns (s ∷ shards) (suc j) lsn h e =
    let rest = contains-shard_lsns shards j lsn (omega arith) e in
    elim (Option-cases s.min_rec_lsn) [
      | inl f ↦ rw (f, shard_lsns) rest
      | inr (k, f) ↦ rw (f, shard_lsns) (ground (arith, rest))
    ]

Covers-trans : (o : Option ℕ) (a b : ℕ) → Covers o a → a ≤ b → Covers o b
Covers-trans none a b h p = h
Covers-trans (some m) a b h p = omega arith

-- If each shard's least LSN is no more than those of its dirty frames, then the manager's is no more
-- than that of any dirty frame of any shard.
pub min_rec_lsn-Covers :
    (m : BufferPoolManager) (j f lsn : ℕ)
    → j < length m.shards
    → IsCovered (get_or m.shards j (Shard.new 0))
    → (meta (get_or m.shards j (Shard.new 0)) f).is_dirty ≡ true
    → (meta (get_or m.shards j (Shard.new 0)) f).rec_lsn ≡ some lsn
    → Covers (min_rec_lsn m) lsn
unfolding min_rec_lsn
min_rec_lsn-Covers m j f lsn h c d e =
    let s = get_or m.shards j (Shard.new 0) in
    let own : Covers s.min_rec_lsn lsn = c f lsn d e in
    elim (Option-cases s.min_rec_lsn) [
      | inl n ↦ absurd (rw n at own)
      | inr (k, n) ↦
          let low : Covers (some k) lsn = rw n at own in
          Covers-trans (min? (shard_lsns m.shards)) k lsn
            (min?-Covers (shard_lsns m.shards) k (contains-shard_lsns m.shards j k h n)) low
    ]
