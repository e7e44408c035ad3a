-- ===== src/BufferPool/Alloc.antt =====
-- The threads that take page ids by `new_page` of crates/storage/src/buffer_pool/manager.rs, and give them back at the end
-- of `vacuum_paced` of crates/storage/src/index/mod.rs. Every lock section on the pool of free ids or on the next id is a
-- step, and so is `claim_recycled` on the bitmap page, which it holds for writing. A step may be taken in more states than
-- in the program: a new id may be drawn at any time, since other threads may fill the pool between the two sections.
pub mod Clears
pub mod Apart
mod Tests
use flux_db.Common.{ℕ, ◌≡◌, true, Option, none, some, List, ◌∷◌, ◌++◌}
use flux_db.BufferPool.Errors.{BufferPoolError, Result, ok, err}
use flux_db.BufferPool.Manager.{
  BufferPoolManager, pop_free, fresh_id, repark, claim_recycled, advance_next_page_id,
}
use flux_db.Page.Bytes.{Page}
use flux_db.Page.Header
use flux_db.Page.FreeSpace.{set_free}

-- The manager, the bitmap page, and for the record: the ids in use, which `new_page` has allocated and nobody has given
-- back; those of the threads that claim a recycled id, and of the threads whose claim failed; and those that are marked
-- free in the bitmap but not in the pool yet.
pub record Config : Type 0 where
  pub manager : BufferPoolManager
  pub bitmap : Page
  pub live : List ℕ
  pub claiming : List ℕ
  pub failed : List ℕ
  pub marked : List ℕ

-- The page as a section leaves it.
abbrev pub left_or : Option Page → Page → Page
left_or none page = page
left_or (some page) _ = page

-- `pops` and `draws` take an id, from the pool and from the next id. Of a recycled id `claims` goes well, `fails` ends with
-- an error of the log, when the bitmap is already changed, and `misses` with an error of `fetch_page_mut`; `reparks` gives
-- the id of a failed claim back. `marks`, `stamps` and `extends` are the parts of the end of `vacuum_paced`: the
-- index gives back ids of pages in use, id by id, and an id that the bitmap does not cover stays out of the pool.
pub data Step (c : Config) : Config → Type 0 where
  pops :
      (pid : ℕ)
      → (pop_free c.manager).1 ≡ some pid
      → Step c (record c { manager = (pop_free c.manager).0; claiming = pid ∷ c.claiming })
  draws :
      Step c (record c { manager = (fresh_id c.manager).0; live = (fresh_id c.manager).1 ∷ c.live })
  claims :
      (front back : List ℕ) (pid : ℕ) (log : Page → Result ℕ)
      → c.claiming ≡ front ++ pid ∷ back
      → (claim_recycled (ok c.bitmap) log pid).1 ≡ ok tt
      → Step c (record c {
        bitmap = left_or (claim_recycled (ok c.bitmap) log pid).0 c.bitmap;
        claiming = front ++ back;
        live = pid ∷ c.live;
      })
  fails :
      (front back : List ℕ) (pid : ℕ) (log : Page → Result ℕ) (e : BufferPoolError)
      → c.claiming ≡ front ++ pid ∷ back
      → (claim_recycled (ok c.bitmap) log pid).1 ≡ err e
      → Step c (record c {
        bitmap = left_or (claim_recycled (ok c.bitmap) log pid).0 c.bitmap;
        claiming = front ++ back;
        failed = pid ∷ c.failed;
      })
  misses :
      (front back : List ℕ) (pid : ℕ) (log : Page → Result ℕ) (e : BufferPoolError)
      → c.claiming ≡ front ++ pid ∷ back
      → Step c (record c {
        bitmap = left_or (claim_recycled (err e) log pid).0 c.bitmap;
        claiming = front ++ back;
        failed = pid ∷ c.failed;
      })
  reparks :
      (front back : List ℕ) (pid : ℕ)
      → c.failed ≡ front ++ pid ∷ back
      → Step c (record c { manager = repark pid c.manager; failed = front ++ back })
  advances :
      (target_id : ℕ) → Step c (record c { manager = advance_next_page_id target_id c.manager })
  marks :
      (front back : List ℕ) (pid : ℕ)
      → c.live ≡ front ++ pid ∷ back
      → (set_free c.bitmap pid).1 ≡ true
      → Step c (record c {
        bitmap = (set_free c.bitmap pid).0;
        live = front ++ back;
        marked = pid ∷ c.marked;
      })
  stamps : (lsn : ℕ) → Step c (record c { bitmap = Header.set_lsn c.bitmap lsn })
  extends :
      (front back : List ℕ) (pid : ℕ)
      → c.marked ≡ front ++ pid ∷ back
      → Step c (record c { manager = repark pid c.manager; marked = front ++ back })

pub data Reach (c : Config) : Config → Type 0 where
  here : Reach c c
  next : {d e : Config} → Reach c d → Step d e → Reach c e
