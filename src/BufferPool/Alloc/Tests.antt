-- ===== src/BufferPool/Alloc/Tests.antt =====
-- A page id that is recycled, on a concrete run.
use flux_db.Page.Bytes.{Page}
use flux_db.Page.Header.{set_lsn}
use flux_db.BufferPool.Alloc.{Config}
use flux_db.BufferPool.Alloc
use flux_db.Page.FreeSpace.{set_free, clear_free}
use flux_db.Common.{replicate, ℕ, [], ◌∷◌}
use flux_db.BufferPool.Errors.{Result, ok, err, no_evictable_frames}

-- A bitmap page of no ids.
abbrev zeros : Page
zeros = replicate 4096 0

-- Pages 0 to 3 have been given out; 3 is free again, in the pool and in the bitmap.
abbrev idle_config : Config
idle_config = record {
  manager = record { shards = []; next_page_id = 4; free_pool = 3 ∷ []; free_page = 1 };
  bitmap = (set_free zeros 3).0;
  live = 0 ∷ 1 ∷ 2 ∷ [];
  claiming = [];
  failed = [];
  marked = [];
}

-- The logs of a claim that fails and of one that goes well.
abbrev log_closed : Page → Result ℕ
log_closed page = err no_evictable_frames

abbrev log_700 : Page → Result ℕ
log_700 page = ok 700

abbrev recycled : Config
recycled = record idle_config {
  manager = record { shards = []; next_page_id = 4; free_pool = []; free_page = 1 };
  bitmap = set_lsn (clear_free (clear_free (set_free zeros 3).0 3) 3) 700;
  live = 3 ∷ 0 ∷ 1 ∷ 2 ∷ [];
}
