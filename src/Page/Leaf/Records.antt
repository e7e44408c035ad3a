-- ===== src/Page/Leaf/Records.antt =====
-- The records of a leaf, crates/storage/src/page/leaf.rs: reading one back, and what a record's
-- writes leave unchanged.
pub mod Writes
use flux_db.Common.{ℕ, ◌+◌, ◌^◌, ◌<◌, ◌≤◌, ◌≡◌, refl, length, arith, ◌∙◌}
use flux_db.Page.Bytes.{Page, read_le, read_u8, read_u16, read_u64}
use flux_db.Page.Leaf.{
  rec_off_key_len, rec_off_val_len, rec_off_rec_type, rec_off_xmin, rec_off_xmax, rec_val_offset,
  rec_total_size, key_at, value_at,
}
use flux_db.Page.Leaf.Mutate.{LeafRecord}
use flux_db.Page.Frames.{SameBytes, same_at, SameBytes-sub, read_le-SameBytes, slice-SameBytes}

-- The record that a base points to.
abbrev pub record_at : Page → ℕ → LeafRecord
record_at page rec_base = record {
  key = key_at page rec_base;
  val = value_at page rec_base;
  rec_type = read_u8 page (rec_base + rec_off_rec_type);
  xmin = read_u64 page (rec_base + rec_off_xmin);
  xmax = read_u64 page (rec_base + rec_off_xmax);
}

abbrev pub size_at : Page → ℕ → ℕ
size_at page rec_base =
    rec_total_size (read_u16 page (rec_base + rec_off_key_len))
      (read_u16 page (rec_base + rec_off_val_len))

abbrev pub size_of : LeafRecord → ℕ
size_of r = rec_total_size (length r.key) (length r.val)

-- A record whose fields fit their widths.
pub record IsStorable (r : LeafRecord) : Type 0 where
  pub key_small : length r.key < 2 ^ 16
  pub val_small : length r.val < 2 ^ 16
  pub xmin_small : r.xmin < 2 ^ 64
  pub xmax_small : r.xmax < 2 ^ 64

read_one : (page : Page) (off : ℕ) → read_le 1 page off ≡ read_u8 page off
unfolding read_le
read_one page off = omega arith

pub LeafRecord-ext :
    (r s : LeafRecord)
    → r.key ≡ s.key
    → r.val ≡ s.val
    → r.rec_type ≡ s.rec_type
    → r.xmin ≡ s.xmin
    → r.xmax ≡ s.xmax
    → r ≡ s
LeafRecord-ext r s k v t i a j = record {
  key = k j;
  val = v j;
  rec_type = t j;
  xmin = i j;
  xmax = a j;
}

-- Records over the same bytes are the same.
module _ {page page' : Page} {off off' : ℕ} (h : SameBytes page off page' off' (size_at page off))
    (b : off + size_at page off ≤ length page) (b' : off' + size_at page off ≤ length page') where
  field_same : (n d : ℕ) → d + n ≤ 24 → read_le n page (off + d) ≡ read_le n page' (off' + d)
  field_same n d c =
      read_le-SameBytes n page page' (off + d) (off' + d)
        (SameBytes-sub h d n (off + d) (off' + d) (omega arith) refl refl)

  pub size_at-SameBytes : size_at page off ≡ size_at page' off'
  size_at-SameBytes = omega (arith, field_same 2 0 (omega arith), field_same 2 2 (omega arith))

  pub record_at-SameBytes : record_at page off ≡ record_at page' off'
  record_at-SameBytes =
      let kl = field_same 2 0 (omega arith) in
      let vl = field_same 2 2 (omega arith) in
      let len = read_u16 page (off + 0) in
      LeafRecord-ext (record_at page off) (record_at page' off')
        (slice-SameBytes len page page' (off + 24) (off' + 24) (omega arith) (omega arith)
            (SameBytes-sub h 24 len (off + 24) (off' + 24) (omega arith) refl refl)
          ∙ rw kl refl)
        (slice-SameBytes (read_u16 page (off + 2)) page page' (rec_val_offset off len)
            (rec_val_offset off' len) (omega arith) (omega arith)
            (SameBytes-sub h (rec_val_offset 0 len) (read_u16 page (off + 2))
              (rec_val_offset off len) (rec_val_offset off' len) (omega arith) (omega arith)
              (omega arith))
          ∙ rw (kl, vl) refl)
        (same_at h 4 (off + 4) (off' + 4) (omega arith) refl refl) (field_same 8 8 (omega arith))
        (field_same 8 16 (omega arith))
