-- ===== src/Page/Leaf/Insert.antt =====
-- `insert_raw` of crates/storage/src/page/leaf.rs, step by step: what each step leaves and stores.
mod Slots
pub mod Refine
use flux_db.Common.{
  ℕ, suc, ◌+◌, ◌-◌, ◌*◌, ◌<◌, ◌≤◌, ◌≡◌, ◌⊎◌, inl, inr, length, get_or, arith, ◌∙◌, sym,
}
use flux_db.Page.Bytes.{Page, read_le, read_u16}
use flux_db.Page.Slices.{copy_within, length-write_bytes}
use flux_db.Page.Leaf.{slot_offset_at, high_key_len, free_start, free_end, slot_size, slot_base}
use flux_db.Page.Leaf.Mutate.{LeafRecord, write_record, write_slot, write_counts}
use flux_db.Page.Frames.{SameBytes, read_le-SameBytes, get_or-copy_within, get_or-copy_within_self}
use flux_db.Page.Leaf.Records.{size_of, IsStorable}
use flux_db.Page.Leaf.Records.Writes.{length-write_record, get_or-write_record}
use flux_db.Page.Leaf.Valid.{pairs, IsLeaf}
use flux_db.Page.Leaf.Counts.{
  length-write_slot, get_or-write_slot, slot_base_written, slot_size_written, length-write_counts,
  get_or-write_counts,
}

module _ (page : Page) (pos : ℕ) (r : LeafRecord) where
  abbrev pub new_base : ℕ
  new_base = free_end page - size_of r

  abbrev pub new_slot : ℕ
  new_slot = slot_offset_at (high_key_len page) pos

  abbrev pub tail_len : ℕ
  tail_len = (pairs page - pos) * slot_size

  unfoldable pub recorded : Page
  unfolding write_record
  recorded = write_record page new_base r

  unfoldable pub shifted : Page
  unfolding recorded
  shifted = copy_within recorded new_slot tail_len (new_slot + slot_size)

  unfoldable pub slotted : Page
  unfolding shifted write_slot
  slotted = write_slot shifted new_slot new_base (size_of r)

  unfoldable pub inserted : Page
  unfolding slotted write_counts
  inserted = write_counts slotted (pairs page + 1) (free_start page + slot_size) new_base

  module _ (valid : IsLeaf page) (b : pos ≤ pairs page)
      (room : slot_size + size_of r ≤ free_end page - free_start page) (fits : IsStorable r) where
    -- The numbers of the page in one place.
    abbrev pub Layout : Type 0
    Layout =
        (length page ≡ 4096)
        × (free_start page ≡ slot_base (high_key_len page) + pairs page * 4)
        × (new_slot + 4 + tail_len ≡ free_start page + 4)
        × (48 ≤ new_slot)
        × (new_base + size_of r ≡ free_end page)
        × (free_start page + 4 ≤ new_base)
        × (free_end page ≤ 4096)
        × (24 ≤ size_of r)

    pub layout : Layout
    layout =
        let l = valid.sized in
        let s = valid.starts in
        let e = valid.ends in
        let o = valid.has_room in
        (l, s, omega arith, omega arith, omega arith, omega arith, e, omega arith)

    pub recorded_read :
        (n off : ℕ) → off + n ≤ new_base → read_le n recorded off ≡ read_le n page off
    unfolding recorded
    recorded_read n off h = read_le-SameBytes n recorded page off off (record {
      agree = λ k c. get_or-write_record page new_base r (off + k) (inl (omega arith));
    })

    length-recorded : length recorded ≡ 4096
    unfolding recorded
    length-recorded = length-write_record page new_base r ∙ valid.sized

    length-shifted : length shifted ≡ 4096
    unfolding shifted
    length-shifted =
        let lay = layout in length-write_bytes _ recorded (new_slot + 4) ∙ length-recorded

    pub length-slotted : length slotted ≡ 4096
    unfolding slotted
    length-slotted = length-write_slot shifted new_slot new_base (size_of r) ∙ length-shifted

    pub length-inserted : length inserted ≡ 4096
    unfolding inserted
    length-inserted =
        length-write_counts slotted (pairs page + 1) (free_start page + 4) new_base ∙ length-slotted

    -- Outside the counters and the moved slots the insertion leaves what the record's writes left.
    pub kept :
        (j : ℕ)
        → (j < 2) ⊎ (8 ≤ j)
        → (j < new_slot) ⊎ (free_start page + 4 ≤ j)
        → get_or inserted j 0 ≡ get_or recorded j 0
    unfolding inserted slotted shifted
    kept j h h' =
        let lay = layout in
        get_or-write_counts slotted (pairs page + 1) (free_start page + 4) new_base j h
        ∙ get_or-write_slot shifted new_slot new_base (size_of r) j (omega arith)
        ∙ get_or-copy_within recorded new_slot tail_len (new_slot + 4)
            (omega (arith, length-recorded)) j (omega arith)

    pub front_kept :
        (j : ℕ) → (j < 2) ⊎ (8 ≤ j) → j < new_slot → get_or inserted j 0 ≡ get_or page j 0
    unfolding recorded
    front_kept j h h' =
        let lay = layout in
        kept j h (inl h') ∙ get_or-write_record page new_base r j (inl (omega arith))

    back_kept : (j : ℕ) → free_end page ≤ j → get_or inserted j 0 ≡ get_or page j 0
    unfolding recorded
    back_kept j h =
        let lay = layout in
        kept j (inr (omega arith)) (inr (omega arith))
        ∙ get_or-write_record page new_base r j (inr (omega arith))

    pub front_read :
        (n off : ℕ)
        → (off + n ≤ 2) ⊎ (8 ≤ off)
        → off + n ≤ new_slot
        → read_le n inserted off ≡ read_le n page off
    front_read n off h h' =
        read_le-SameBytes n inserted page off off
          (record { agree = λ k c. front_kept (off + k) (omega arith) (omega arith) })

    pub high_key_len_kept : high_key_len inserted ≡ high_key_len page
    high_key_len_kept = let lay = layout in front_read 2 40 (inr (omega arith)) (omega arith)

    pub back_same : (off n : ℕ) → free_end page ≤ off → SameBytes page off inserted off n
    back_same off n h = record { agree = λ k c. sym (back_kept (off + k) (omega arith)) }

    -- The slots before, at and after the new one.
    pub slots_before :
        (j d off : ℕ)
        → j < pos
        → d ≤ 2
        → off ≡ slot_offset_at (high_key_len page) j + d
        → read_u16 inserted off ≡ read_u16 page off
    slots_before j d off h c e =
        let lay = layout in front_read 2 off (inr (omega arith)) (omega arith)

    slotted_read : (n off : ℕ) → 8 ≤ off → read_le n inserted off ≡ read_le n slotted off
    unfolding inserted
    slotted_read n off h = read_le-SameBytes n inserted slotted off off (record {
      agree = λ k c.
          get_or-write_counts slotted (pairs page + 1) (free_start page + 4) new_base (off + k)
            (inr (omega arith));
    })

    pub slot_at_base : read_u16 inserted new_slot ≡ new_base
    unfolding slotted
    slot_at_base =
        let lay = layout in
        slotted_read 2 new_slot (omega arith)
        ∙ slot_base_written shifted new_slot new_base (size_of r) (omega (arith, length-shifted))
            (omega arith)

    pub slot_at_size : read_u16 inserted (new_slot + 2) ≡ size_of r
    unfolding slotted
    slot_at_size =
        let lay = layout in
        slotted_read 2 (new_slot + 2) (omega arith)
        ∙ slot_size_written shifted new_slot new_base (size_of r) (omega (arith, length-shifted))
            (omega arith)

    pub slots_after :
        (j d to from : ℕ)
        → pos ≤ j
        → j < pairs page
        → d ≤ 2
        → to ≡ slot_offset_at (high_key_len page) (suc j) + d
        → from ≡ slot_offset_at (high_key_len page) j + d
        → read_u16 inserted to ≡ read_u16 page from
    unfolding slotted shifted recorded
    slots_after j d to from h h' c e₁ e₂ =
        let lay = layout in
        slotted_read 2 to (omega arith)
        ∙ read_le-SameBytes 2 slotted page to from (record {
          agree = λ k e.
              get_or-write_slot shifted new_slot new_base (size_of r) (to + k) (omega arith)
              ∙ get_or-copy_within_self recorded new_slot tail_len (new_slot + 4)
                  (omega (arith, length-recorded)) ((j - pos) * 4 + d + k) (to + k) (from + k)
                  (omega arith) (omega arith) (omega arith) (omega (arith, length-recorded))
              ∙ get_or-write_record page new_base r (from + k) (inl (omega arith));
        })
