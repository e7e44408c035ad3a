-- ===== src/Page/Leaf/Insert/Slots.antt =====
-- The slots of a leaf after `insert_raw` of crates/storage/src/page/leaf.rs: each is an old slot, moved
-- or not, or the new one.
use flux_db.Common.{
  ℕ, suc, ◌+◌, ◌-◌, ◌<◌, ◌≤◌, ◌≡◌, ◌⊎◌, inl, inr, refl, length, arith, ◌∙◌, sym, ltb, Bool-cases,
  ◌==◌,
}
use flux_db.Page.Bytes.{Page}
use flux_db.Page.Leaf.{
  accessor, slot_rec_size, slot_offset_at, high_key_len, free_start, free_end, slot_size,
}
use flux_db.Page.Leaf.Mutate.{LeafRecord}
use flux_db.Page.Frames.{SameBytes}
use flux_db.Page.Leaf.Records.{
  record_at, size_at, size_of, IsStorable, record_at-SameBytes, size_at-SameBytes,
}
use flux_db.Page.Leaf.Records.Writes.{record_at-write_record, size_at-write_record}
use flux_db.Page.Leaf.Valid.{pairs, base_at, entry, entry_size, IsLeaf}
use flux_db.Page.Leaf.Insert.{
  inserted, recorded, new_base, length-inserted, kept, high_key_len_kept, back_same, slots_before,
  slot_at_base, slot_at_size, slots_after, layout, length-recorded,
}

module _ (page : Page) (pos : ℕ) (r : LeafRecord) (valid : IsLeaf page) (b : pos ≤ pairs page)
    (room : slot_size + size_of r ≤ free_end page - free_start page) (fits : IsStorable r) where
  abbrev page' : Page
  page' = inserted page pos r

  -- A record that lies behind the free space is the same in both pages.
  old_record :
      (off : ℕ)
      → free_end page ≤ off
      → off + size_at page off ≤ 4096
      → (size_at page off ≡ size_at page' off) × (record_at page off ≡ record_at page' off)
  old_record off h h' =
      let same = back_same page pos r valid b room fits off (size_at page off) h in
      let l = valid.sized in
      let l' = length-inserted page pos r valid b room fits in
      (
        size_at-SameBytes same (omega arith) (omega arith),
        record_at-SameBytes same (omega arith) (omega arith),
      )

  -- The slot that slot `j` of the new page was before.
  abbrev pub Old : ℕ → ℕ → Type 0
  Old j i =
      (i < pairs page)
      × (((j < pos) × (i ≡ j)) ⊎ ((pos < j) × (j ≡ suc i)))
      × (base_at page' j ≡ base_at page i)
      × (slot_rec_size (accessor page') j ≡ slot_rec_size (accessor page) i)

  pub before_Old : (j : ℕ) → j < pos → Old j j
  before_Old j h =
      let slot = slot_offset_at (high_key_len page) j in
      let read = slots_before page pos r valid b room fits j in
      (
        omega arith,
        inl (h, refl),
        rw (high_key_len_kept page pos r valid b room fits)
            (read 0 slot h (omega arith) (omega arith)),
        rw (high_key_len_kept page pos r valid b room fits)
            (read 2 (slot + 2) h (omega arith) refl),
      )

  pub after_Old : (j : ℕ) → pos ≤ j → j < pairs page → Old (suc j) j
  after_Old j h h' =
      let to = slot_offset_at (high_key_len page) (suc j) in
      let from = slot_offset_at (high_key_len page) j in
      let read = slots_after page pos r valid b room fits j in
      (
        h',
        inr (omega arith, refl),
        rw (high_key_len_kept page pos r valid b room fits)
            (read 0 to from h h' (omega arith) (omega arith) (omega arith)),
        rw (high_key_len_kept page pos r valid b room fits)
            (read 2 (to + 2) (from + 2) h h' (omega arith) refl refl),
      )

  unfoldable pub New : ℕ → Type 0
  New j =
      (j ≡ pos)
      × (base_at page' j ≡ new_base page pos r)
      × (slot_rec_size (accessor page') j ≡ size_of r)

  at_New : New pos
  unfolding New
  at_New = (
    refl,
    rw (high_key_len_kept page pos r valid b room fits) (slot_at_base page pos r valid b room fits),
    rw (high_key_len_kept page pos r valid b room fits) (slot_at_size page pos r valid b room fits),
  )

  after_at : (j i : ℕ) → j ≡ suc i → pos ≤ i → i < pairs page → Old j i
  after_at j i e h h' = rw e (after_Old i h h')

  pub New-eq_pos : (j : ℕ) → j ≡ pos → New j
  New-eq_pos j e = rw e at_New

  pub origin : (j : ℕ) → j < pairs page + 1 → ((i : ℕ) × Old j i) ⊎ New j
  origin j h = elim (Bool-cases (j == pos)) [
    | inl e ↦ inr (New-eq_pos j (ground arith))
    | inr e ↦ elim (Bool-cases (ltb j pos)) [
      | inl l ↦ inl (j, before_Old j (ground arith))
      | inr l ↦ inl (j - 1, after_at j (j - 1) (ground arith) (ground arith) (ground arith))
    ]
  ]

  -- The records.
  pub Old-record :
      (j i : ℕ)
      → Old j i
      → (entry_size page' j ≡ entry_size page i) × (entry page' j ≡ entry page i)
  unfolding entry
  Old-record j i (h, _, e, _) =
      let (s, q) = old_record (base_at page i) (valid.above i h) (valid.inside i h) in
      rw e (sym s, sym q)

  new_same :
      SameBytes (recorded page pos r) (new_base page pos r) page' (new_base page pos r) (size_of r)
  new_same =
      let lay = layout page pos r valid b room fits in
      record {
        agree = λ k c. sym (
            kept page pos r valid b room fits (new_base page pos r + k) (inr (omega arith))
              (inr (omega arith)));
      }

  pub New-record : (j : ℕ) → New j → (entry_size page' j ≡ size_of r) × (entry page' j ≡ r)
  unfolding entry New recorded
  New-record j (_, e, _) =
      let lay = layout page pos r valid b room fits in
      let written : new_base page pos r + size_of r ≤ length page = omega arith in
      let s = size_at-write_record page (new_base page pos r) r written fits in
      let base = new_base page pos r in
      let first = recorded page pos r in
      let same : SameBytes first base page' base (size_at first base) = record {
        agree = λ k c. new_same.agree k (omega (arith, s));
      } in
      let l = length-recorded page pos r valid b room fits in
      let l' = length-inserted page pos r valid b room fits in
      rw e (
        sym (size_at-SameBytes same (omega arith) (omega arith)) ∙ s,
        sym (record_at-SameBytes same (omega arith) (omega arith))
            ∙ record_at-write_record page (new_base page pos r) r written fits,
      )
