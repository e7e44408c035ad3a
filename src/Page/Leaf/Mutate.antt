-- ===== src/Page/Leaf/Mutate.antt =====
-- `LeafPageMutator` of crates/storage/src/page/leaf.rs.
use flux_db.Common.{
  ℕ, ◌+◌, ◌-◌, ◌*◌, ◌%◌, ◌^◌, Option, none, some, List, length, replicate, ltb, ◌==◌, if◌then◌else◌,
}
use flux_db.Page.Bytes.{Page, read_u8, read_u16, write_u8, write_u16, write_u64}
use flux_db.Page.Slices.{write_bytes, copy_within}
use flux_db.Page.Header.{leaf, off_page_type, off_lsn}
use flux_db.Page.Overflow.{Result, ok, err, insufficient_space, unwrap_or_zero}
use flux_db.Page.Leaf.{
  off_leaf_slot_count, off_leaf_free_start, off_leaf_free_end, off_leaf_prev, off_leaf_rightlink,
  off_leaf_high_key_len, leaf_header_size, slot_size, rec_off_key_len, rec_off_val_len,
  rec_off_rec_type, rec_off_xmin, rec_off_xmax, slot_base, slot_offset_at, rec_key_offset,
  rec_val_offset, rec_total_size, high_key_len, free_start, free_end,
}

-- `LeafPageMutator::new`; a page of another type is a panic.
unfoldable pub open_mutator : Page → Option Page
open_mutator page = if read_u8 page off_page_type == leaf then some page else none

abbrev pub set_lsn : Page → ℕ → Page
set_lsn page lsn = write_u64 page off_lsn lsn

abbrev pub set_prev_page : Page → Option ℕ → Page
set_prev_page page prev = write_u64 page off_leaf_prev (unwrap_or_zero prev)

abbrev pub set_rightlink : Page → Option ℕ → Page
set_rightlink page right = write_u64 page off_leaf_rightlink (unwrap_or_zero right)

-- A key of no bytes is written as nothing.
unfoldable pub set_high_key : Page → List ℕ → Page
set_high_key page key_bytes =
    let len = length key_bytes in
    let measured = write_u16 page off_leaf_high_key_len (len % 2 ^ 16) in
    let written = write_bytes measured leaf_header_size key_bytes in
    write_u16 written off_leaf_free_start (slot_base len % 2 ^ 16)

-- A stored record: what a slot points to.
pub record LeafRecord : Type 0 where
  pub key : List ℕ
  pub val : List ℕ
  pub rec_type : ℕ
  pub xmin : ℕ
  pub xmax : ℕ

-- The writes of a record at `rec_base`, which insertion and the builder share.
unfoldable pub write_record : Page → ℕ → LeafRecord → Page
write_record page rec_base r =
    let p1 = write_u16 page (rec_base + rec_off_key_len) (length r.key % 2 ^ 16) in
    let p2 = write_u16 p1 (rec_base + rec_off_val_len) (length r.val % 2 ^ 16) in
    let p3 = write_u8 p2 (rec_base + rec_off_rec_type) r.rec_type in
    let p4 = write_u64 p3 (rec_base + rec_off_xmin) r.xmin in
    let p5 = write_u64 p4 (rec_base + rec_off_xmax) r.xmax in
    let p6 = write_bytes p5 (rec_key_offset rec_base) r.key in
    write_bytes p6 (rec_val_offset rec_base (length r.key)) r.val

unfoldable pub write_slot : Page → ℕ → ℕ → ℕ → Page
write_slot page slot_off rec_base rec_size =
    write_u16 (write_u16 page slot_off (rec_base % 2 ^ 16)) (slot_off + 2) (rec_size % 2 ^ 16)

-- The updates of the header after a record was added.
unfoldable pub write_counts : Page → ℕ → ℕ → ℕ → Page
write_counts page n start end =
    write_u16
      (write_u16 (write_u16 page off_leaf_slot_count (n % 2 ^ 16)) off_leaf_free_start
        (start % 2 ^ 16))
      off_leaf_free_end (end % 2 ^ 16)

-- `insert_raw`; its caller keeps `pos` within the number of slots.
unfoldable pub insert_raw : Page → ℕ → List ℕ → List ℕ → ℕ → Result Page
unfolding write_record write_slot write_counts
insert_raw page pos key_bytes val_bytes rec_type =
    let rec_size = rec_total_size (length key_bytes) (length val_bytes) in
    let end = free_end page in
    let start = free_start page in
    let free = end - start in
    if ltb free (slot_size + rec_size)
    then err (insufficient_space (slot_size + rec_size) free)
    else let rec_base = end - rec_size in
      let r : LeafRecord = record {
        key = key_bytes;
        val = val_bytes;
        rec_type = rec_type;
        xmin = 0;
        xmax = 0;
      } in
      let recorded = write_record page rec_base r in
      let hkl = high_key_len recorded in
      let n = read_u16 recorded off_leaf_slot_count in
      let src = slot_offset_at hkl pos in
      let shifted = copy_within recorded src ((n - pos) * slot_size) (src + slot_size) in
      let slotted = write_slot shifted src rec_base rec_size in
      ok (write_counts slotted (n + 1) (start + slot_size) rec_base)

-- `remove`; a position that is no slot is a panic.
unfoldable pub remove : Page → ℕ → Option Page
remove page pos =
    let n = read_u16 page off_leaf_slot_count in
    let start = free_start page in
    let hkl = high_key_len page in
    if ltb pos n
    then (let src = slot_offset_at hkl (pos + 1) in
        let shifted = copy_within page src ((n - pos - 1) * slot_size) (src - slot_size) in
        let cleared = write_bytes shifted (slot_offset_at hkl (n - 1)) (replicate slot_size 0) in
        some (
          write_u16 (write_u16 cleared off_leaf_slot_count ((n - 1) % 2 ^ 16)) off_leaf_free_start
            ((start - slot_size) % 2 ^ 16)))
    else none

unfoldable pub set_xmin : Page → ℕ → ℕ → Page
set_xmin page pos xmin =
    let rec_base = read_u16 page (slot_offset_at (high_key_len page) pos) in
    write_u64 page (rec_base + rec_off_xmin) xmin

unfoldable pub set_xmax : Page → ℕ → ℕ → Page
set_xmax page pos xmax =
    let rec_base = read_u16 page (slot_offset_at (high_key_len page) pos) in
    write_u64 page (rec_base + rec_off_xmax) xmax
