-- ===== src/Page/Leaf/Counts.antt =====
-- Slots and counters of a leaf, crates/storage/src/page/leaf.rs: what their writes store and leave.
use flux_db.Common.{ℕ, ◌+◌, ◌%◌, ◌^◌, ◌<◌, ◌≤◌, ◌≡◌, ◌⊎◌, inl, length, get_or, arith, ◌∙◌}
use flux_db.Page.Bytes.{
  Page, read_u16, write_u16, length-write_le, get_or-write_le, read_le-write_le_self,
  read_le-write_le_ne,
}
use flux_db.Page.Leaf.{free_start, free_end, off_leaf_slot_count, off_leaf_free_start}
use flux_db.Page.Leaf.Mutate.{write_slot, write_counts}
use flux_db.Page.Leaf.Valid.{pairs}

module _ (page : Page) (off rec_base rec_size : ℕ) where
  half_slot : Page
  unfolding write_slot
  half_slot = write_u16 page off (rec_base % 2 ^ 16)

  pub length-write_slot : length (write_slot page off rec_base rec_size) ≡ length page
  unfolding write_slot half_slot
  length-write_slot =
      length-write_le 2 half_slot (off + 2) (rec_size % 2 ^ 16)
      ∙ length-write_le 2 page off (rec_base % 2 ^ 16)

  pub get_or-write_slot :
      (j : ℕ)
      → (j < off) ⊎ (off + 4 ≤ j)
      → get_or (write_slot page off rec_base rec_size) j 0 ≡ get_or page j 0
  unfolding write_slot half_slot
  get_or-write_slot j h =
      get_or-write_le 2 half_slot (off + 2) (rec_size % 2 ^ 16) j (omega arith)
      ∙ get_or-write_le 2 page off (rec_base % 2 ^ 16) j (omega arith)

  module _ (b : off + 4 ≤ length page) where
    pub slot_base_written :
        rec_base < 2 ^ 16 → read_u16 (write_slot page off rec_base rec_size) off ≡ rec_base
    unfolding write_slot half_slot
    slot_base_written small = omega (
      arith,
      read_le-write_le_ne 2 2 half_slot off (off + 2) (rec_size % 2 ^ 16) (inl (omega arith)),
      read_le-write_le_self 2 page off (rec_base % 2 ^ 16) (omega arith) (omega arith),
    )

    pub slot_size_written :
        rec_size < 2 ^ 16 → read_u16 (write_slot page off rec_base rec_size) (off + 2) ≡ rec_size
    unfolding write_slot half_slot
    slot_size_written small = omega (
      arith,
      read_le-write_le_self 2 half_slot (off + 2) (rec_size % 2 ^ 16)
          (omega (arith, length-write_le 2 page off (rec_base % 2 ^ 16))) (omega arith),
    )

module _ (page : Page) (n start end : ℕ) where
  counted : Page
  unfolding write_counts
  counted = write_u16 page off_leaf_slot_count (n % 2 ^ 16)

  started : Page
  unfolding counted
  started = write_u16 counted off_leaf_free_start (start % 2 ^ 16)

  pub length-write_counts : length (write_counts page n start end) ≡ length page
  unfolding write_counts counted started
  length-write_counts =
      length-write_le 2 started 6 (end % 2 ^ 16)
      ∙ length-write_le 2 counted 4 (start % 2 ^ 16)
      ∙ length-write_le 2 page 2 (n % 2 ^ 16)

  pub get_or-write_counts :
      (j : ℕ) → (j < 2) ⊎ (8 ≤ j) → get_or (write_counts page n start end) j 0 ≡ get_or page j 0
  unfolding write_counts counted started
  get_or-write_counts j h =
      get_or-write_le 2 started 6 (end % 2 ^ 16) j (omega arith)
      ∙ get_or-write_le 2 counted 4 (start % 2 ^ 16) j (omega arith)
      ∙ get_or-write_le 2 page 2 (n % 2 ^ 16) j (omega arith)

  module _ (b : 8 ≤ length page) where
    length-started : length started ≡ length page
    unfolding counted started
    length-started =
        length-write_le 2 counted 4 (start % 2 ^ 16) ∙ length-write_le 2 page 2 (n % 2 ^ 16)

    pub pairs-write_counts : n < 2 ^ 16 → pairs (write_counts page n start end) ≡ n
    unfolding write_counts counted started
    pairs-write_counts small = omega (
      arith,
      read_le-write_le_ne 2 2 started 2 6 (end % 2 ^ 16) (inl (omega arith)),
      read_le-write_le_ne 2 2 counted 2 4 (start % 2 ^ 16) (inl (omega arith)),
      read_le-write_le_self 2 page 2 (n % 2 ^ 16) (omega arith) (omega arith),
    )

    pub free_start-write_counts :
        start < 2 ^ 16 → free_start (write_counts page n start end) ≡ start
    unfolding write_counts counted started
    free_start-write_counts small = omega (
      arith,
      read_le-write_le_ne 2 2 started 4 6 (end % 2 ^ 16) (inl (omega arith)),
      read_le-write_le_self 2 counted 4 (start % 2 ^ 16)
          (omega (arith, length-write_le 2 page 2 (n % 2 ^ 16))) (omega arith),
    )

    pub free_end-write_counts : end < 2 ^ 16 → free_end (write_counts page n start end) ≡ end
    unfolding write_counts counted started
    free_end-write_counts small = omega (
      arith,
      read_le-write_le_self 2 started 6 (end % 2 ^ 16) (omega (arith, length-started))
          (omega arith),
    )
