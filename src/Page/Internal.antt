-- ===== src/Page/Internal.antt =====
-- Internal pages, crates/storage/src/page/internal.rs: the layout, `InternalPageAccessor` and its
-- search. The child Mutate has the mutator and the builder.
pub mod Mutate
pub mod Sections
pub mod Rewrite
pub mod Edits
pub mod Search
pub mod Routes
pub mod Reroute
mod Tests
use Prim.Native.Nat.{Ordering}
use flux_db.Common.{
  ℕ, zero, suc, ◌+◌, ◌-◌, ◌*◌, ◌/◌, Bool, true, false, Option, none, some, List, collect, ltb, leb,
  ◌==◌, if◌then◌else◌,
}
use flux_db.Values.Keys.{Key}
use flux_db.Page.Bytes.{Page, read_u8, read_u16, read_u32, read_u64}
use flux_db.Page.Slices.{slice}
use flux_db.Page.Header.{internal, off_page_type, page_size}
use flux_db.Page.Leaf.{link_at}

abbrev pub off_int_num_keys : ℕ
off_int_num_keys = 2

abbrev pub off_int_high_key_len : ℕ
off_int_high_key_len = 4

abbrev pub off_int_rightlink : ℕ
off_int_rightlink = 24

abbrev pub int_header_size : ℕ
int_header_size = 40

abbrev pub int_child_offset : ℕ → ℕ
int_child_offset i = int_header_size + i * 8

abbrev pub int_key_end_section : ℕ → ℕ
int_key_end_section num_keys = int_header_size + (num_keys + 1) * 8

abbrev pub int_key_end_offset : ℕ → ℕ → ℕ
int_key_end_offset num_keys i = int_key_end_section num_keys + i * 4

abbrev pub int_key_data_base : ℕ → ℕ
int_key_data_base num_keys = int_key_end_section num_keys + num_keys * 4

-- `InternalPageAccessor::new` and `InternalPageMutator::new`; a page of another type is a panic.
unfoldable pub open_internal : Page → Option Page
open_internal page = if read_u8 page off_page_type == internal then some page else none

module _ (page : Page) where
  abbrev pub num_keys : ℕ
  num_keys = read_u16 page off_int_num_keys

  unfoldable pub rightlink : Option ℕ
  unfolding link_at
  rightlink = link_at page off_int_rightlink

  abbrev pub high_key_len : ℕ
  high_key_len = read_u16 page off_int_high_key_len

  unfoldable pub high_key_bytes : Option (List ℕ)
  high_key_bytes =
      if high_key_len == 0 then none else some (slice page (page_size - high_key_len) high_key_len)

  abbrev pub child_page_at : ℕ → ℕ
  child_page_at i = read_u64 page (int_child_offset i)

  -- Where the key `i` of `n` starts; for `i = n`, where the last one ends.
  abbrev pub key_start : ℕ → ℕ → ℕ
  key_start n zero = 0
  key_start n (suc i) = read_u32 page (int_key_end_offset n i)

  abbrev pub key_bytes_of : ℕ → ℕ → List ℕ
  key_bytes_of n i =
      slice page (int_key_data_base n + key_start n i) (key_start n (suc i) - key_start n i)

  abbrev pub key_bytes_at : ℕ → List ℕ
  key_bytes_at i = key_bytes_of num_keys i

  abbrev pub used_bytes : ℕ
  used_bytes = int_header_size + (num_keys + 1) * 8 + num_keys * 4 + key_start num_keys num_keys

  abbrev pub free_bytes : ℕ
  free_bytes = page_size - used_bytes - high_key_len

  abbrev pub can_fit : ℕ → Bool
  can_fit key_len = leb (8 + 4 + key_len) free_bytes

  unfoldable pub is_underfull : Bool
  is_underfull = ltb page_size (free_bytes * 2)

  -- The keys and children of the first `num` of the keys, with a child more.
  abbrev pub first_parts : ℕ → List ℕ × List (List ℕ)
  first_parts num = (collect child_page_at 0 (suc num), collect (key_bytes_of num_keys) 0 num)

  abbrev pub snapshot : List ℕ × List (List ℕ)
  snapshot = first_parts num_keys

-- The loop of `find_child`, for at most so many rounds; a panic of the comparison is none.
unfoldable pub descend : (ℕ → Option Ordering) → ℕ → ℕ → ℕ → Option ℕ
descend answer zero low high = if ltb low high then none else some low
descend answer (suc rounds) low high = elim (ltb low high) [
  | false ↦ some low
  | true ↦
      let mid = low + (high - low) / 2 in
      elim (answer mid) [
        | none ↦ none
        | some Ordering.gt ↦ descend answer rounds low mid
        | some Ordering.lt ↦ descend answer rounds (mid + 1) high
        | some Ordering.eq ↦ descend answer rounds (mid + 1) high
      ]
]

-- The number of keys is a `u16`: sixteen rounds halve it to nothing.
unfoldable pub find_child {ℓ} : {A : Type ℓ} → Key A → Page → A → Option (ℕ × ℕ)
unfolding descend
find_child key page query =
    elim (descend (λ i. key.compare_bytes (key_bytes_at page i) (key.value.as_bytes query)) 16 0
      (num_keys page)) [ none ↦ none | some low ↦ some (low, child_page_at page low) ]
