-- ===== src/Wal/Payloads.antt =====
-- The `log_` methods of `Wal` in crates/storage/src/wal.rs: the blocks and the main data of their
-- records. `log_checkpoint` is in Wal/Checkpoint.
use flux_db.Common.{
  ℕ, ◌%◌, ◌^◌, Bool, Option, none, some, List, [], ◌∷◌, ◌++◌, length, if◌then◌else◌,
}
use flux_db.Values.Scalars.{to_le_bytes}
use flux_db.Page.Overflow.{unwrap_or_zero}
use flux_db.Wal.Error.{Result}
use flux_db.Wal.Record.{
  Block, insert, set_x_max, commit, abort, leaf_split, internal_s_plit, insert_down_link, new_root,
  page_compact, mark_half_dead, unlink_page, overflow_write, overflow_free,
}
use flux_db.Wal.State.{Wal, append}

abbrev pub blk_has_fpi : ℕ
blk_has_fpi = 1

abbrev pub blk_has_data : ℕ
blk_has_data = 2

abbrev pub unlink_role_left : ℕ
unlink_role_left = 0

abbrev pub unlink_role_right : ℕ
unlink_role_right = 1

abbrev pub unlink_role_parent : ℕ
unlink_role_parent = 2

abbrev pub unlink_keep_left : ℕ
unlink_keep_left = 0

abbrev pub unlink_keep_right : ℕ
unlink_keep_right = 1

abbrev pub plain_block : ℕ → Block
plain_block page_id = record { page_id = page_id; blk_flags = 0; fpi = none; data_bytes = none }

abbrev pub data_block : ℕ → List ℕ → Block
data_block page_id payload = record {
  page_id = page_id;
  blk_flags = blk_has_data;
  fpi = none;
  data_bytes = some payload;
}

abbrev pub image_block : ℕ × List ℕ → Block
image_block (page_id, image) = record {
  page_id = page_id;
  blk_flags = blk_has_fpi;
  fpi = some image;
  data_bytes = none;
}

abbrev pub insert_payload : (slot : ℕ) (key value : List ℕ) (rec_type xmin : ℕ) → List ℕ
insert_payload slot key value rec_type xmin =
    to_le_bytes 2 slot
    ++ to_le_bytes 2 (length key % 2 ^ 16)
    ++ to_le_bytes 2 (length value % 2 ^ 16)
    ++ rec_type ∷ []
    ++ to_le_bytes 8 xmin
    ++ key
    ++ value

abbrev pub set_xmax_payload : (slot xmax : ℕ) → List ℕ
set_xmax_payload slot xmax = to_le_bytes 2 slot ++ to_le_bytes 8 xmax

abbrev pub left_payload : Option ℕ → List ℕ
left_payload right_sibling = unlink_role_left ∷ [] ++ to_le_bytes 8 (unwrap_or_zero right_sibling)

abbrev pub right_payload : Option ℕ → List ℕ
right_payload left_sibling = unlink_role_right ∷ [] ++ to_le_bytes 8 (unwrap_or_zero left_sibling)

abbrev pub parent_payload : ℕ → Bool → List ℕ
parent_payload remove_index keep_right_child =
    unlink_role_parent ∷ []
    ++ to_le_bytes 2 remove_index
    ++ (if keep_right_child then unlink_keep_right else unlink_keep_left) ∷ []

abbrev pub downlink_payload : (at_index : ℕ) (sep_key : List ℕ) (right_child : ℕ) → List ℕ
downlink_payload at_index sep_key right_child =
    to_le_bytes 2 at_index
    ++ to_le_bytes 2 (length sep_key % 2 ^ 16)
    ++ to_le_bytes 8 right_child
    ++ sep_key

abbrev pub ids_payload : List ℕ → List ℕ
ids_payload [] = []
ids_payload (pid ∷ rest) = to_le_bytes 8 pid ++ ids_payload rest

-- The block of a sibling that is there.
abbrev pub sibling_block : Option ℕ → List ℕ → List Block → List Block
sibling_block none payload rest = rest
sibling_block (some page_id) payload rest = data_block page_id payload ∷ rest

abbrev pub unlink_blocks :
    (left_sibling right_sibling : Option ℕ) (parent_page remove_index : ℕ) → Bool → List Block
unlink_blocks left_sibling right_sibling parent_page remove_index keep_right_child =
    sibling_block left_sibling (left_payload right_sibling) (
      sibling_block right_sibling (right_payload left_sibling)
        (data_block parent_page (parent_payload remove_index keep_right_child) ∷ []))

module _ (crc32 : List ℕ → ℕ) (txn_id : ℕ) where
  unfoldable pub log_commit : Wal → Result ℕ × Wal
  unfolding append
  log_commit wal = append crc32 commit txn_id [] none wal

  unfoldable pub log_abort : Wal → Result ℕ × Wal
  unfolding append
  log_abort wal = append crc32 abort txn_id [] none wal

  unfoldable pub log_mark_half_dead : ℕ → Wal → Result ℕ × Wal
  unfolding append
  log_mark_half_dead page_id wal =
      append crc32 mark_half_dead txn_id (plain_block page_id ∷ []) none wal

  unfoldable pub log_insert :
      (page_id slot : ℕ) (key value : List ℕ) (rec_type xmin : ℕ) → Wal → Result ℕ × Wal
  unfolding append
  log_insert page_id slot key value rec_type xmin wal =
      append crc32 insert txn_id
        (data_block page_id (insert_payload slot key value rec_type xmin) ∷ []) none wal

  unfoldable pub log_set_xmax : (page_id slot xmax : ℕ) → Wal → Result ℕ × Wal
  unfolding append
  log_set_xmax page_id slot xmax wal =
      append crc32 set_x_max txn_id (data_block page_id (set_xmax_payload slot xmax) ∷ []) none wal

  unfoldable pub log_unlink_page :
      (deleted_page_id : ℕ) (left_sibling right_sibling : Option ℕ) (parent_page remove_index : ℕ)
      → Bool
      → Wal
      → Result ℕ × Wal
  unfolding append
  log_unlink_page deleted_page_id left_sibling right_sibling parent_page remove_index
        keep_right_child wal =
      append crc32 unlink_page txn_id
        (unlink_blocks left_sibling right_sibling parent_page remove_index keep_right_child)
        (some (to_le_bytes 8 deleted_page_id)) wal

  unfoldable pub log_leaf_split :
      (left right : ℕ × List ℕ) → Option (ℕ × List ℕ) → Wal → Result ℕ × Wal
  unfolding append
  log_leaf_split left right old_neighbour wal =
      let neighbour : List Block = elim old_neighbour [ none ↦ [] | some n ↦ image_block n ∷ [] ] in
      append crc32 leaf_split txn_id (image_block left ∷ image_block right ∷ neighbour) none wal

  unfoldable pub log_internal_split : (left right : ℕ × List ℕ) → Wal → Result ℕ × Wal
  unfolding append
  log_internal_split left right wal =
      append crc32 internal_s_plit txn_id (image_block left ∷ image_block right ∷ []) none wal

  unfoldable pub log_insert_downlink :
      (parent_page at_index : ℕ) (sep_key : List ℕ) (right_child left_child : ℕ)
      → Wal
      → Result ℕ × Wal
  unfolding append
  log_insert_downlink parent_page at_index sep_key right_child left_child wal =
      append crc32 insert_down_link txn_id
        (data_block parent_page (downlink_payload at_index sep_key right_child)
          ∷ plain_block left_child
          ∷ [])
        none wal

  unfoldable pub log_new_root : ℕ × List ℕ → ℕ → Wal → Result ℕ × Wal
  unfolding append
  log_new_root root left_child wal =
      append crc32 new_root txn_id
        (image_block root ∷ data_block 0 (to_le_bytes 8 root.0) ∷ plain_block left_child ∷ []) none
        wal

  unfoldable pub log_page_compact : ℕ → List ℕ → Wal → Result ℕ × Wal
  unfolding append
  log_page_compact page_id image wal =
      append crc32 page_compact txn_id (image_block (page_id, image) ∷ []) none wal

  unfoldable pub log_overflow_write : ℕ → List ℕ → Wal → Result ℕ × Wal
  unfolding append
  log_overflow_write page_id image wal =
      append crc32 overflow_write txn_id (image_block (page_id, image) ∷ []) none wal

  unfoldable pub log_overflow_free : List ℕ → Wal → Result ℕ × Wal
  unfolding append
  log_overflow_free page_ids wal =
      append crc32 overflow_free txn_id [] (some (ids_payload page_ids)) wal
