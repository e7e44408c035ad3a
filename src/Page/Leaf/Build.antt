-- ===== src/Page/Leaf/Build.antt =====
-- `LeafPageBuilder` and `LeafPageMutator::compact` of crates/storage/src/page/leaf.rs.
pub mod Push
pub mod Start
use flux_db.Common.{
  ℕ, ◌+◌, ◌-◌, ◌*◌, ◌%◌, ◌^◌, Option, none, some, List, [], ◌∷◌, length, leb, if◌then◌else◌,
}
use flux_db.Page.Bytes.{Page, read_u16, write_u8, write_u16, write_u64}
use flux_db.Page.Slices.{fill_zero}
use flux_db.Page.Header.{leaf, off_page_type, off_page_id, page_size}
use flux_db.Page.Leaf.{
  off_leaf_free_start, off_leaf_free_end, off_leaf_slot_count, slot_base, slot_size, slot_offset_at,
  rec_total_size,
}
use flux_db.Page.Leaf.Mutate.{
  LeafRecord, write_record, write_slot, write_counts, set_high_key, set_prev_page, set_rightlink,
}

pub record Builder : Type 0 where
  pub data_bytes : Page
  pub write_end : ℕ
  pub hkl : ℕ

-- `LeafPageBuilder::new`
unfoldable pub new_leaf : ℕ → Page → Builder
new_leaf page_id page =
    let typed = write_u8 (fill_zero page) off_page_type leaf in
    let named = write_u64 typed off_page_id page_id in
    let started = write_u16 named off_leaf_free_start (slot_base 0 % 2 ^ 16) in
    record {
      data_bytes = write_u16 started off_leaf_free_end (page_size % 2 ^ 16);
      write_end = page_size;
      hkl = 0;
    }

unfoldable pub builder_set_high_key : Builder → List ℕ → Builder
unfolding set_high_key
builder_set_high_key builder key_bytes = record builder {
  data_bytes = set_high_key builder.data_bytes key_bytes;
  hkl = length key_bytes;
}

unfoldable pub builder_set_prev_page : Builder → Option ℕ → Builder
builder_set_prev_page builder prev = record builder {
  data_bytes = set_prev_page builder.data_bytes prev;
}

unfoldable pub builder_set_rightlink : Builder → Option ℕ → Builder
builder_set_rightlink builder right = record builder {
  data_bytes = set_rightlink builder.data_bytes right;
}

-- `push_with_mvcc_raw`; a full page is a panic.
unfoldable pub push_with_mvcc_raw : Builder → LeafRecord → Option Builder
unfolding write_record write_slot write_counts
push_with_mvcc_raw builder r =
    let rec_size = rec_total_size (length r.key) (length r.val) in
    let n = read_u16 builder.data_bytes off_leaf_slot_count in
    let start = slot_base builder.hkl + n * slot_size in
    if leb (start + slot_size + rec_size) builder.write_end
    then (let rec_base = builder.write_end - rec_size in
        let recorded = write_record builder.data_bytes rec_base r in
        let slot_off = slot_offset_at builder.hkl n in
        let slotted = write_slot recorded slot_off rec_base rec_size in
        some (record builder {
          data_bytes = write_counts slotted (n + 1) (slot_off + slot_size) rec_base;
          write_end = rec_base;
        }))
    else none

unfoldable pub push_all : Builder → List LeafRecord → Option Builder
unfolding push_with_mvcc_raw
push_all builder [] = some builder
push_all builder (r ∷ rest) = elim (push_with_mvcc_raw builder r) [
  | none ↦ none
  | some builder' ↦ push_all builder' rest
]
