-- ===== src/Page/Leaf.antt =====
-- Leaf pages, crates/storage/src/page/leaf.rs: the layout and `LeafPageAccessor`. The children hold
-- the mutator, the builder, the search and their laws.
pub mod Mutate
pub mod Records
pub mod Valid
pub mod Counts
pub mod Insert
pub mod Search
pub mod Build
pub mod Packing
pub mod Typed
mod Tests
pub mod Stamp
pub mod Remove
pub mod Agree
pub mod Compact
use flux_db.Common.{
  ℕ, zero, suc, ◌+◌, ◌-◌, ◌*◌, ◌%◌, Bool, true, not, Option, none, some, List, ltb, leb, ◌==◌,
  if◌then◌else◌,
}
use flux_db.Page.Bytes.{Page, read_u8, read_u16, read_u64}
use flux_db.Page.Slices.{slice}
use flux_db.Page.Header.{leaf, off_page_type, off_page_id, off_lsn, page_size}
use flux_db.Page.Overflow.{OverflowDescriptor, from_bytes}

abbrev pub off_leaf_slot_count : ℕ
off_leaf_slot_count = 2

abbrev pub off_leaf_free_start : ℕ
off_leaf_free_start = 4

abbrev pub off_leaf_free_end : ℕ
off_leaf_free_end = 6

abbrev pub off_leaf_prev : ℕ
off_leaf_prev = 24

abbrev pub off_leaf_rightlink : ℕ
off_leaf_rightlink = 32

abbrev pub off_leaf_high_key_len : ℕ
off_leaf_high_key_len = 40

abbrev pub leaf_header_size : ℕ
leaf_header_size = 48

abbrev pub slot_size : ℕ
slot_size = 4

abbrev pub rec_off_key_len : ℕ
rec_off_key_len = 0

abbrev pub rec_off_val_len : ℕ
rec_off_val_len = 2

abbrev pub rec_off_rec_type : ℕ
rec_off_rec_type = 4

abbrev pub rec_off_xmin : ℕ
rec_off_xmin = 8

abbrev pub rec_off_xmax : ℕ
rec_off_xmax = 16

abbrev pub rec_header_size : ℕ
rec_header_size = 24

abbrev pub rec_type_inline : ℕ
rec_type_inline = 0

abbrev pub rec_type_overflow : ℕ
rec_type_overflow = 1

-- `(x + 1) & !1`
abbrev pub even_up : ℕ → ℕ
even_up x = (x + 1) - (x + 1) % 2

abbrev pub slot_base : ℕ → ℕ
slot_base high_key_len = leaf_header_size + even_up high_key_len

abbrev pub slot_offset_at : ℕ → ℕ → ℕ
slot_offset_at high_key_len i = slot_base high_key_len + i * slot_size

abbrev pub rec_key_offset : ℕ → ℕ
rec_key_offset rec_base = rec_base + rec_header_size

abbrev pub rec_val_offset : ℕ → ℕ → ℕ
rec_val_offset rec_base key_len = rec_base + rec_header_size + even_up key_len

abbrev pub rec_total_size : ℕ → ℕ → ℕ
rec_total_size key_len val_len = even_up (rec_header_size + even_up key_len + val_len)

-- `LeafPageAccessor`, with the fields it caches.
pub record Accessor : Type 0 where
  pub data_bytes : Page
  pub base : ℕ
  pub num_pairs : ℕ

abbrev pub high_key_len : Page → ℕ
high_key_len page = read_u16 page off_leaf_high_key_len

abbrev pub accessor : Page → Accessor
accessor page = record {
  data_bytes = page;
  base = slot_base (high_key_len page);
  num_pairs = read_u16 page off_leaf_slot_count;
}

-- `LeafPageAccessor::new`; a page of another type is a panic.
unfoldable pub open_accessor : Page → Option Accessor
open_accessor page = if read_u8 page off_page_type == leaf then some (accessor page) else none

unfoldable pub link_at : Page → ℕ → Option ℕ
link_at page off = let v = read_u64 page off in if v == 0 then none else some v

abbrev pub free_start : Page → ℕ
free_start page = read_u16 page off_leaf_free_start

abbrev pub free_end : Page → ℕ
free_end page = read_u16 page off_leaf_free_end

-- A record of the page at its base.
abbrev pub key_at : Page → ℕ → List ℕ
key_at page rec_base =
    slice page (rec_key_offset rec_base) (read_u16 page (rec_base + rec_off_key_len))

abbrev pub value_at : Page → ℕ → List ℕ
value_at page rec_base =
    slice page (rec_val_offset rec_base (read_u16 page (rec_base + rec_off_key_len)))
      (read_u16 page (rec_base + rec_off_val_len))

module _ (acc : Accessor) where
  abbrev pub page_id : ℕ
  page_id = read_u64 acc.data_bytes off_page_id

  abbrev pub lsn : ℕ
  lsn = read_u64 acc.data_bytes off_lsn

  unfoldable pub prev_page : Option ℕ
  unfolding link_at
  prev_page = link_at acc.data_bytes off_leaf_prev

  unfoldable pub rightlink : Option ℕ
  unfolding link_at
  rightlink = link_at acc.data_bytes off_leaf_rightlink

  unfoldable pub high_key_bytes : Option (List ℕ)
  high_key_bytes =
      let len = high_key_len acc.data_bytes in
      if len == 0 then none else some (slice acc.data_bytes leaf_header_size len)

  abbrev pub free_space : ℕ
  free_space = free_end acc.data_bytes - free_start acc.data_bytes

  abbrev pub can_fit_direct : ℕ → ℕ → Bool
  can_fit_direct key_len val_len = leb (slot_size + rec_total_size key_len val_len) free_space

  abbrev pub slot_rec_base : ℕ → ℕ
  slot_rec_base i = read_u16 acc.data_bytes (acc.base + i * slot_size)

  abbrev pub slot_rec_size : ℕ → ℕ
  slot_rec_size i = read_u16 acc.data_bytes (acc.base + i * slot_size + 2)

  abbrev pub key_bytes_at : ℕ → List ℕ
  key_bytes_at i = key_at acc.data_bytes (slot_rec_base i)

  abbrev pub value_bytes_at : ℕ → List ℕ
  value_bytes_at i = value_at acc.data_bytes (slot_rec_base i)

  abbrev pub get_xmin : ℕ → ℕ
  get_xmin i = read_u64 acc.data_bytes (slot_rec_base i + rec_off_xmin)

  abbrev pub get_xmax : ℕ → ℕ
  get_xmax i = read_u64 acc.data_bytes (slot_rec_base i + rec_off_xmax)

  abbrev pub is_deleted : ℕ → Bool
  is_deleted i = not (get_xmax i == 0)

  abbrev pub get_rec_type : ℕ → ℕ
  get_rec_type i = read_u8 acc.data_bytes (slot_rec_base i + rec_off_rec_type)

  abbrev pub is_overflow : ℕ → Bool
  is_overflow i = get_rec_type i == rec_type_overflow

  unfoldable pub overflow_descriptor : ℕ → Option OverflowDescriptor
  unfolding from_bytes
  overflow_descriptor i = if is_overflow i then from_bytes (value_bytes_at i) else none

  -- The loop of `is_underfull` over the `n` slots from `i` on.
  unfoldable pub live_bytes : ℕ → ℕ → ℕ
  live_bytes i zero = 0
  live_bytes i (suc n) =
      (if is_deleted i then 0 else slot_rec_size i + slot_size) + live_bytes (suc i) n

  unfoldable pub is_underfull : Bool
  unfolding live_bytes
  is_underfull =
      if acc.num_pairs == 0
      then true
      else ltb (live_bytes 0 acc.num_pairs * 2) (page_size - acc.base)
