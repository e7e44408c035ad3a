-- ===== src/Page/Leaf/Remove.antt =====
-- `remove` of crates/storage/src/page/leaf.rs, step by step: what each step leaves and stores.
pub mod Refine
use flux_db.Common.{
  ℕ, ◌+◌, ◌-◌, ◌*◌, ◌%◌, ◌^◌, ◌<◌, ◌≤◌, ◌≡◌, ◌⊎◌, inl, inr, refl, some, length, get_or, replicate,
  arith, ◌∙◌, ltb, lt→ltb,
}
use flux_db.Page.Bytes.{
  Page, read_le, write_u16, length-write_le, get_or-write_le, read_le-write_le_self,
  read_le-write_le_ne,
}
use flux_db.Page.Slices.{copy_within, write_bytes, length-write_bytes, get_or-write_bytes}
use flux_db.Page.Leaf.{
  slot_offset_at, high_key_len, free_start, free_end, slot_size, slot_base, off_leaf_slot_count,
  off_leaf_free_start,
}
use flux_db.Page.Leaf.Mutate.{remove}
use flux_db.Page.Frames.{read_le-SameBytes, get_or-copy_within, get_or-copy_within_self}
use flux_db.Page.Leaf.Valid.{pairs, IsLeaf}

module _ (page : Page) (pos : ℕ) (valid : IsLeaf page) (h : pos < pairs page) where
  abbrev pub next_slot : ℕ
  next_slot = slot_offset_at (high_key_len page) (pos + 1)

  abbrev pub tail_len : ℕ
  tail_len = (pairs page - pos - 1) * slot_size

  abbrev pub last_slot : ℕ
  last_slot = slot_offset_at (high_key_len page) (pairs page - 1)

  abbrev no_slot : Page
  no_slot = replicate slot_size 0

  unfoldable pub shifted : Page
  shifted = copy_within page next_slot tail_len (next_slot - slot_size)

  unfoldable pub cleared : Page
  unfolding shifted
  cleared = write_bytes shifted last_slot no_slot

  unfoldable pub counted : Page
  unfolding cleared
  counted = write_u16 cleared off_leaf_slot_count ((pairs page - 1) % 2 ^ 16)

  unfoldable pub removed : Page
  unfolding counted
  removed = write_u16 counted off_leaf_free_start ((free_start page - slot_size) % 2 ^ 16)

  pub remove-removed : remove page pos ≡ some removed
  unfolding remove removed counted cleared shifted
  remove-removed = rw (lt→ltb pos (pairs page) h) refl

  abbrev pub Layout : Type 0
  Layout =
      (length page ≡ 4096)
      × (free_start page ≡ slot_base (high_key_len page) + pairs page * 4)
      × (next_slot + tail_len ≡ free_start page)
      × (52 ≤ next_slot)
      × (last_slot + 4 ≡ free_start page)
      × (next_slot ≤ free_start page)
      × (free_start page ≤ free_end page)
      × (free_end page ≤ 4096)

  pub layout : Layout
  layout =
      let l = valid.sized in
      let s = valid.starts in
      let e = valid.ends in
      let o = valid.has_room in (l, s, omega arith, omega arith, omega arith, omega arith, o, e)

  length-shifted : length shifted ≡ 4096
  unfolding shifted
  length-shifted = length-write_bytes _ page (next_slot - 4) ∙ valid.sized

  length-cleared : length cleared ≡ 4096
  unfolding cleared
  length-cleared = length-write_bytes no_slot shifted last_slot ∙ length-shifted

  length-counted : length counted ≡ 4096
  unfolding counted
  length-counted = length-write_le 2 cleared 2 ((pairs page - 1) % 2 ^ 16) ∙ length-cleared

  pub length-removed : length removed ≡ 4096
  unfolding removed
  length-removed = length-write_le 2 counted 4 ((free_start page - 4) % 2 ^ 16) ∙ length-counted

  -- Outside the two counters `remove` leaves what it made of the slots.
  counters_kept : (j : ℕ) → (j < 2) ⊎ (6 ≤ j) → get_or removed j 0 ≡ get_or cleared j 0
  unfolding removed counted
  counters_kept j b =
      get_or-write_le 2 counted 4 ((free_start page - 4) % 2 ^ 16) j (omega arith)
      ∙ get_or-write_le 2 cleared 2 ((pairs page - 1) % 2 ^ 16) j (omega arith)

  pub kept :
      (j : ℕ)
      → (j < 2) ⊎ (6 ≤ j)
      → (j < next_slot - 4) ⊎ (free_start page ≤ j)
      → get_or removed j 0 ≡ get_or page j 0
  unfolding cleared shifted
  kept j b b' =
      let lay = layout in
      counters_kept j b
      ∙ get_or-write_bytes no_slot shifted last_slot j (omega arith)
      ∙ get_or-copy_within page next_slot tail_len (next_slot - 4) (omega arith) j (omega arith)

  -- The slots behind the removed one have moved to the front.
  pub moved :
      (j to from : ℕ)
      → pos ≤ j
      → j + 1 < pairs page
      → slot_offset_at (high_key_len page) j ≤ to
      → to < slot_offset_at (high_key_len page) (j + 1)
      → from ≡ to + 4
      → get_or removed to 0 ≡ get_or page from 0
  unfolding cleared shifted
  moved j to from a b c d e =
      let lay = layout in
      counters_kept to (inr (omega arith))
      ∙ get_or-write_bytes no_slot shifted last_slot to (inl (omega arith))
      ∙ get_or-copy_within_self page next_slot tail_len (next_slot - 4) (omega arith)
          (to - (next_slot - 4)) to from (omega arith) (omega arith) (omega arith) (omega arith)

  pub pairs-removed : pairs removed ≡ pairs page - 1
  unfolding removed counted
  pairs-removed =
      let lay = layout in
      omega (
        arith,
        read_le-write_le_ne 2 2 counted 2 4 ((free_start page - 4) % 2 ^ 16) (inl (omega arith)),
        read_le-write_le_self 2 cleared 2 ((pairs page - 1) % 2 ^ 16)
            (omega (arith, length-cleared)) (omega arith),
      )

  pub start_removed : free_start removed ≡ free_start page - 4
  unfolding removed
  start_removed =
      let lay = layout in
      omega (
        arith,
        read_le-write_le_self 2 counted 4 ((free_start page - 4) % 2 ^ 16)
            (omega (arith, length-counted)) (omega arith),
      )

  pub front_read :
      (n off : ℕ) → 6 ≤ off → off + n ≤ next_slot - 4 → read_le n removed off ≡ read_le n page off
  front_read n off a b =
      read_le-SameBytes n removed page off off
        (record { agree = λ k c. kept (off + k) (inr (omega arith)) (inl (omega arith)) })

  pub len_removed : high_key_len removed ≡ high_key_len page
  len_removed = let lay = layout in front_read 2 40 (omega arith) (omega arith)

  pub end_removed : free_end removed ≡ free_end page
  end_removed = let lay = layout in front_read 2 6 (omega arith) (omega arith)
