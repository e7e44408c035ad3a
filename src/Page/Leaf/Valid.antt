-- ===== src/Page/Leaf/Valid.antt =====
-- The well-formed leaf pages of crates/storage/src/page/leaf.rs, and the list of records that such
-- a page stands for.
use flux_db.Common.{ℕ, ◌+◌, ◌<◌, ◌≤◌, ◌≡◌, List, length, collect}
use flux_db.Page.Bytes.{Page, Apart, read_u8, read_u16}
use flux_db.Page.Header.{leaf, off_page_type, page_size}
use flux_db.Page.Leaf.{
  accessor, slot_rec_base, slot_rec_size, slot_offset_at, high_key_len, free_start, free_end,
  off_leaf_slot_count,
}
use flux_db.Page.Leaf.Mutate.{LeafRecord}
use flux_db.Page.Leaf.Records.{record_at, size_at}

abbrev pub pairs : Page → ℕ
pairs page = read_u16 page off_leaf_slot_count

abbrev pub base_at : Page → ℕ → ℕ
base_at page i = slot_rec_base (accessor page) i

-- The record that slot `i` points to.
unfoldable pub entry : Page → ℕ → LeafRecord
entry page i = record_at page (base_at page i)

abbrev pub entry_size : Page → ℕ → ℕ
entry_size page i = size_at page (base_at page i)

-- The page as the list of its records in the order of the slots.
abbrev pub entries : Page → List LeafRecord
entries page = collect (entry page) 0 (pairs page)

-- The slot directory ends where the free space starts, the records lie behind the free space and
-- inside the page, no two of them overlap, and each slot states the size of its record.
pub record IsLeaf (page : Page) : Type 0 where
  pub sized : length page ≡ page_size
  pub typed : read_u8 page off_page_type ≡ leaf
  pub starts : free_start page ≡ slot_offset_at (high_key_len page) (pairs page)
  pub has_room : free_start page ≤ free_end page
  pub ends : free_end page ≤ page_size
  pub above : (i : ℕ) → i < pairs page → free_end page ≤ base_at page i
  pub inside : (i : ℕ) → i < pairs page → base_at page i + entry_size page i ≤ page_size
  pub measured : (i : ℕ) → i < pairs page → slot_rec_size (accessor page) i ≡ entry_size page i
  pub separate :
      (i j : ℕ)
      → i < j
      → j < pairs page
      → Apart (base_at page i) (entry_size page i) (base_at page j) (entry_size page j)
