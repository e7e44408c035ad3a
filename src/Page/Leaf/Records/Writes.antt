-- ===== src/Page/Leaf/Records/Writes.antt =====
-- `write_record` of crates/storage/src/page/leaf.rs: what it stores, and what it leaves.
use flux_db.Common.{
  ℕ, ◌+◌, ◌%◌, ◌^◌, ◌<◌, ◌≤◌, ◌≡◌, ◌⊎◌, refl, length, get_or, arith, ◌∙◌, get_or-set_self,
  get_or-set_ne, length-set,
}
use flux_db.Page.Bytes.{
  Page, read_le, read_u8, read_u16, read_u64, write_u8, write_u16, write_u64, length-write_le,
  get_or-write_le, read_le-write_le_self, read_le-write_le_ne, read_le-set_ne,
}
use flux_db.Page.Slices.{
  write_bytes, length-write_bytes, get_or-write_bytes, slice-write_bytes_self,
  read_le-write_bytes_ne,
}
use flux_db.Page.Leaf.{
  rec_off_key_len, rec_off_val_len, rec_off_rec_type, rec_off_xmin, rec_off_xmax, rec_key_offset,
  rec_val_offset, key_at, value_at,
}
use flux_db.Page.Leaf.Mutate.{LeafRecord, write_record}
use flux_db.Page.Frames.{slice-SameBytes}
use flux_db.Page.Leaf.Records.{record_at, size_at, size_of, IsStorable, read_one, LeafRecord-ext}

-- The stages of `write_record`.
module _ (page : Page) (off : ℕ) (r : LeafRecord) where
  abbrev with_key_len : Page
  with_key_len = write_u16 page (off + rec_off_key_len) (length r.key % 2 ^ 16)

  abbrev with_lens : Page
  with_lens = write_u16 with_key_len (off + rec_off_val_len) (length r.val % 2 ^ 16)

  abbrev with_type : Page
  with_type = write_u8 with_lens (off + rec_off_rec_type) r.rec_type

  abbrev with_xmin : Page
  with_xmin = write_u64 with_type (off + rec_off_xmin) r.xmin

  abbrev with_xmax : Page
  with_xmax = write_u64 with_xmin (off + rec_off_xmax) r.xmax

  abbrev with_key : Page
  with_key = write_bytes with_xmax (rec_key_offset off) r.key

  pub length-write_record : length (write_record page off r) ≡ length page
  unfolding write_record
  length-write_record =
      length-write_bytes r.val with_key (rec_val_offset off (length r.key))
      ∙ length-write_bytes r.key with_xmax (rec_key_offset off)
      ∙ length-write_le 8 with_xmin (off + 16) r.xmax
      ∙ length-write_le 8 with_type (off + 8) r.xmin
      ∙ length-set with_lens (off + 4) r.rec_type
      ∙ length-write_le 2 with_key_len (off + 2) (length r.val % 2 ^ 16)
      ∙ length-write_le 2 page (off + 0) (length r.key % 2 ^ 16)

  pub get_or-write_record :
      (j : ℕ)
      → (j < off) ⊎ (off + size_of r ≤ j)
      → get_or (write_record page off r) j 0 ≡ get_or page j 0
  unfolding write_record
  get_or-write_record j h =
      get_or-write_bytes r.val with_key (rec_val_offset off (length r.key)) j (omega arith)
      ∙ get_or-write_bytes r.key with_xmax (rec_key_offset off) j (omega arith)
      ∙ get_or-write_le 8 with_xmin (off + 16) r.xmax j (omega arith)
      ∙ get_or-write_le 8 with_type (off + 8) r.xmin j (omega arith)
      ∙ get_or-set_ne with_lens (off + 4) j r.rec_type 0 (omega arith)
      ∙ get_or-write_le 2 with_key_len (off + 2) (length r.val % 2 ^ 16) j (omega arith)
      ∙ get_or-write_le 2 page (off + 0) (length r.key % 2 ^ 16) j (omega arith)

  -- The two slices leave the fixed header of the record.
  header_kept :
      (n d : ℕ)
      → d + n ≤ 24
      → read_le n (write_record page off r) (off + d) ≡ read_le n with_xmax (off + d)
  unfolding write_record
  header_kept n d c =
      read_le-write_bytes_ne n r.val with_key (off + d) (rec_val_offset off (length r.key))
        (omega arith)
      ∙ read_le-write_bytes_ne n r.key with_xmax (off + d) (rec_key_offset off) (omega arith)

  -- The two transaction ids leave the eight bytes before them.
  front_kept :
      (n d : ℕ)
      → d + n ≤ 8
      → read_le n (write_record page off r) (off + d) ≡ read_le n with_type (off + d)
  front_kept n d c =
      header_kept n d (omega arith)
      ∙ read_le-write_le_ne n 8 with_xmin (off + d) (off + 16) r.xmax (omega arith)
      ∙ read_le-write_le_ne n 8 with_type (off + d) (off + 8) r.xmin (omega arith)

  module _ (b : off + size_of r ≤ length page) (fits : IsStorable r) where
    lens_length : length with_lens ≡ length page
    lens_length =
        length-write_le 2 with_key_len (off + 2) (length r.val % 2 ^ 16)
        ∙ length-write_le 2 page (off + 0) (length r.key % 2 ^ 16)

    type_length : length with_type ≡ length page
    type_length = length-set with_lens (off + 4) r.rec_type ∙ lens_length

    xmin_length : length with_xmin ≡ length page
    xmin_length = length-write_le 8 with_type (off + 8) r.xmin ∙ type_length

    xmax_length : length with_xmax ≡ length page
    xmax_length = length-write_le 8 with_xmin (off + 16) r.xmax ∙ xmin_length

    key_length : length with_key ≡ length page
    key_length = length-write_bytes r.key with_xmax (rec_key_offset off) ∙ xmax_length

    key_len_written : read_u16 (write_record page off r) (off + 0) ≡ length r.key
    key_len_written = omega (
      arith,
      fits.key_small,
      front_kept 2 0 (omega arith),
      read_le-set_ne 2 with_lens (off + 0) (off + 4) r.rec_type (omega arith),
      read_le-write_le_ne 2 2 with_key_len (off + 0) (off + 2) (length r.val % 2 ^ 16)
          (omega arith),
      read_le-write_le_self 2 page (off + 0) (length r.key % 2 ^ 16) (omega arith) (omega arith),
    )

    val_len_written : read_u16 (write_record page off r) (off + 2) ≡ length r.val
    val_len_written = omega (
      arith,
      fits.val_small,
      front_kept 2 2 (omega arith),
      read_le-set_ne 2 with_lens (off + 2) (off + 4) r.rec_type (omega arith),
      read_le-write_le_self 2 with_key_len (off + 2) (length r.val % 2 ^ 16)
          (omega (arith, length-write_le 2 page (off + 0) (length r.key % 2 ^ 16))) (omega arith),
    )

    type_written : read_u8 (write_record page off r) (off + 4) ≡ r.rec_type
    type_written = omega (
      arith,
      read_one (write_record page off r) (off + 4),
      read_one with_type (off + 4),
      front_kept 1 4 (omega arith),
      get_or-set_self with_lens (off + 4) r.rec_type 0 (omega (arith, lens_length)),
    )

    xmin_written : read_u64 (write_record page off r) (off + 8) ≡ r.xmin
    xmin_written =
        header_kept 8 8 (omega arith)
        ∙ read_le-write_le_ne 8 8 with_xmin (off + 8) (off + 16) r.xmax (omega arith)
        ∙ read_le-write_le_self 8 with_type (off + 8) r.xmin (omega (arith, type_length))
            fits.xmin_small

    xmax_written : read_u64 (write_record page off r) (off + 16) ≡ r.xmax
    xmax_written =
        header_kept 8 16 (omega arith)
        ∙ read_le-write_le_self 8 with_xmin (off + 16) r.xmax (omega (arith, xmin_length))
            fits.xmax_small

    key_written : key_at (write_record page off r) off ≡ r.key
    unfolding write_record
    key_written = rw key_len_written (
        slice-SameBytes (length r.key) (write_record page off r) with_key (off + 24) (off + 24)
          (omega (arith, length-write_record)) (omega (arith, key_length))
          (record {
            agree = λ k c.
                get_or-write_bytes r.val with_key (rec_val_offset off (length r.key)) (off + 24 + k)
                  (omega arith);
          })
        ∙ slice-write_bytes_self r.key with_xmax (off + 24) (omega (arith, xmax_length)))

    val_written : value_at (write_record page off r) off ≡ r.val
    unfolding write_record
    val_written =
        rw (key_len_written, val_len_written)
          (slice-write_bytes_self r.val with_key (rec_val_offset off (length r.key))
            (omega (arith, key_length)))

    pub size_at-write_record : size_at (write_record page off r) off ≡ size_of r
    size_at-write_record = rw (key_len_written, val_len_written) refl

    pub record_at-write_record : record_at (write_record page off r) off ≡ r
    record_at-write_record =
        LeafRecord-ext (record_at (write_record page off r) off) r key_written val_written
          type_written xmin_written xmax_written
