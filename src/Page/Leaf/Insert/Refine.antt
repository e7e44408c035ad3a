-- ===== src/Page/Leaf/Insert/Refine.antt =====
-- `insert_raw` of crates/storage/src/page/leaf.rs as the insertion into the list of records.
use flux_db.Common.{
  ℕ, suc, ◌+◌, ◌-◌, ◌<◌, ◌≤◌, ◌≡◌, ◌⊎◌, inl, inr, refl, List, ◌∷◌, ◌++◌, length, get_or, take, drop,
  arith, ◌∙◌, sym, collect_inserted, true, false, ltb, Bool-cases, leb→le,
}
use flux_db.Page.Bytes.{Page, Apart, read_u8}
use flux_db.Page.Header.{leaf, page_size}
use flux_db.Page.Overflow.{ok, err, insufficient_space}
use flux_db.Page.Leaf.{
  accessor, slot_rec_size, high_key_len, free_start, free_end, slot_size, slot_base, can_fit_direct,
}
use flux_db.Page.Leaf.Mutate.{LeafRecord, insert_raw}
use flux_db.Page.Leaf.Records.{size_of, IsStorable}
use flux_db.Page.Leaf.Valid.{pairs, base_at, entry, entry_size, entries, IsLeaf}
use flux_db.Page.Leaf.Counts.{pairs-write_counts, free_start-write_counts, free_end-write_counts}
use flux_db.Page.Leaf.Insert.{
  inserted, recorded, shifted, slotted, recorded_read, new_base, length-inserted, high_key_len_kept,
  layout, length-slotted, front_kept,
}
use flux_db.Page.Leaf.Insert.Slots.{
  Old, New, before_Old, after_Old, New-eq_pos, origin, Old-record, New-record,
}

-- What an insertion of `r` at `pos` makes of a page: a leaf whose records are those of the page with
-- `r` at its place, and whose header is kept, but for the counters.
pub record Inserts (page : Page) (pos : ℕ) (r : LeafRecord) (page' : Page) : Type 0 where
  pub valid : IsLeaf page'
  pub records : entries page' ≡ take pos (entries page) ++ r ∷ drop pos (entries page)
  pub end_moved : free_end page' + size_of r ≡ free_end page
  pub start_moved : free_start page' ≡ free_start page + slot_size
  pub len_kept : high_key_len page' ≡ high_key_len page
  pub header :
      (off : ℕ)
      → (off < 2) ⊎ (8 ≤ off)
      → off < slot_base (high_key_len page)
      → get_or page' off 0 ≡ get_or page off 0

module _ (page : Page) (pos : ℕ) (r : LeafRecord) (valid : IsLeaf page) (b : pos ≤ pairs page)
    (room : slot_size + size_of r ≤ free_end page - free_start page) (fits : IsStorable r) where
  abbrev page' : Page
  page' = inserted page pos r

  pub pairs-inserted : pairs page' ≡ pairs page + 1
  unfolding inserted
  pairs-inserted =
      let lay = layout page pos r valid b room fits in
      pairs-write_counts _ _ _ _ (omega (arith, length-slotted page pos r valid b room fits))
        (omega arith)

  start_inserted : free_start page' ≡ free_start page + 4
  unfolding inserted
  start_inserted =
      let lay = layout page pos r valid b room fits in
      free_start-write_counts _ _ _ _ (omega (arith, length-slotted page pos r valid b room fits))
        (omega arith)

  end_inserted : free_end page' ≡ new_base page pos r
  unfolding inserted
  end_inserted =
      let lay = layout page pos r valid b room fits in
      free_end-write_counts _ _ _ _ (omega (arith, length-slotted page pos r valid b room fits))
        (omega arith)

  typed_inserted : read_u8 page' 0 ≡ leaf
  typed_inserted =
      let lay = layout page pos r valid b room fits in
      front_kept page pos r valid b room fits 0 (inl (omega arith)) (omega arith) ∙ valid.typed

  -- Where the record of a slot lies: where an old one lay, or just below the free space.
  abbrev At : ℕ → ℕ → ℕ → Type 0
  At j start size = (base_at page' j ≡ start) × (entry_size page' j ≡ size)

  placed :
      (j : ℕ)
      → j < pairs page + 1
      → ((i : ℕ) × Old page pos r valid b room fits j i × At j (base_at page i) (entry_size page i))
        ⊎ (New page pos r valid b room fits j × At j (new_base page pos r) (size_of r))
  unfolding New
  placed j h = elim (origin page pos r valid b room fits j h) [
    | inl (i, o) ↦ inl (i, o, (o.2, (Old-record page pos r valid b room fits j i o).0))
    | inr o ↦ inr (o, (o.1, (New-record page pos r valid b room fits j o).0))
  ]

  above_inserted : (j : ℕ) → j < pairs page + 1 → new_base page pos r ≤ base_at page' j
  above_inserted j h = elim (placed j h) [
    | inl (i, o, (e, _)) ↦ rw e (omega (arith, valid.above i o.0))
    | inr (_, (e, _)) ↦ rw e (omega arith)
  ]

  inside_inserted : (j : ℕ) → j < pairs page + 1 → base_at page' j + entry_size page' j ≤ page_size
  inside_inserted j h = elim (placed j h) [
    | inl (i, o, (e, s)) ↦ rw s (rw e (valid.inside i o.0))
    | inr (_, (e, s)) ↦ let lay = layout page pos r valid b room fits in rw s (rw e (omega arith))
  ]

  measured_inserted :
      (j : ℕ) → j < pairs page + 1 → slot_rec_size (accessor page') j ≡ entry_size page' j
  unfolding New
  measured_inserted j h = elim (placed j h) [
    | inl (i, o, (_, s)) ↦ o.3 ∙ valid.measured i o.0 ∙ sym s
    | inr (o, (_, s)) ↦ o.2 ∙ sym s
  ]

  -- An old record ends below no new one.
  old_apart : (i : ℕ) → i < pairs page → new_base page pos r + size_of r ≤ base_at page i
  old_apart i h = let lay = layout page pos r valid b room fits in omega (arith, valid.above i h)

  separate_inserted :
      (i j : ℕ)
      → i < j
      → j < pairs page + 1
      → Apart (base_at page' i) (entry_size page' i) (base_at page' j) (entry_size page' j)
  unfolding New
  separate_inserted i j l h = elim (placed i (omega arith)) [
    | inl (k, o, (e, s)) ↦ elim (placed j h) [
      | inl (k', o', (e', s')) ↦
          let before : k < k' = omega (arith, o.1, o'.1) in
          rw (s, s') (rw (e, e') (valid.separate k k' before o'.0))
      | inr (_, (e', s')) ↦ rw (s, s') (rw (e, e') (inr (old_apart k o.0)))
    ]
    | inr (o, (e, s)) ↦ elim (placed j h) [
      | inl (k', o', (e', s')) ↦ rw (s, s') (rw (e, e') (inl (old_apart k' o'.0)))
      | inr (o', _) ↦ absurd (omega (arith, o.0, o'.0))
    ]
  ]

  inserted-IsLeaf : IsLeaf page'
  inserted-IsLeaf = record {
    sized = length-inserted page pos r valid b room fits;
    typed = typed_inserted;
    starts =
        rw (start_inserted, pairs-inserted, high_key_len_kept page pos r valid b room fits)
          (omega (arith, valid.starts));
    has_room =
        rw (start_inserted, end_inserted)
          (let lay = layout page pos r valid b room fits in omega arith);
    ends = rw end_inserted (let lay = layout page pos r valid b room fits in omega arith);
    above = λ j h. rw end_inserted (above_inserted j (omega (arith, pairs-inserted)));
    inside = λ j h. inside_inserted j (omega (arith, pairs-inserted));
    measured = λ j h. measured_inserted j (omega (arith, pairs-inserted));
    separate = λ i j l h. separate_inserted i j l (omega (arith, pairs-inserted));
  }

  pub entries-inserted : entries page' ≡ take pos (entries page) ++ r ∷ drop pos (entries page)
  entries-inserted =
      let grown : pairs page' ≡ suc (pairs page) = omega (arith, pairs-inserted) in
      rw grown (
        collect_inserted (entry page') (entry page) r 0 (pairs page) pos b
          (λ j _ h.
            (Old-record page pos r valid b room fits j j
              (before_Old page pos r valid b room fits j (omega arith))).1)
          (New-record page pos r valid b room fits (0 + pos)
            (New-eq_pos page pos r valid b room fits (0 + pos) (omega arith))).1
          (λ j h h'.
            (Old-record page pos r valid b room fits (suc j) j
              (after_Old page pos r valid b room fits j (omega arith) (omega arith))).1))

  pub inserted-Inserts : Inserts page pos r (inserted page pos r)
  inserted-Inserts =
      let lay = layout page pos r valid b room fits in
      record {
        valid = inserted-IsLeaf;
        records = entries-inserted;
        end_moved = omega (arith, end_inserted);
        start_moved = start_inserted;
        len_kept = high_key_len_kept page pos r valid b room fits;
        header = λ off h h'. front_kept page pos r valid b room fits off h (omega arith);
      }

module _ (page : Page) (pos : ℕ) (key val : List ℕ) (rec_type : ℕ) where
  abbrev fresh : LeafRecord
  fresh = record { key = key; val = val; rec_type = rec_type; xmin = 0; xmax = 0 }

  module _ (valid : IsLeaf page) (b : pos ≤ pairs page)
      (room : slot_size + size_of fresh ≤ free_end page - free_start page) where
    fresh-IsStorable : IsStorable fresh
    fresh-IsStorable =
        let e = valid.ends in
        record {
          key_small = omega arith;
          val_small = omega arith;
          xmin_small = omega arith;
          xmax_small = omega arith;
        }

    insert_raw_fits : insert_raw page pos key val rec_type ≡ ok (inserted page pos fresh)
    unfolding insert_raw inserted slotted shifted recorded
    insert_raw_fits =
        let lay = layout page pos fresh valid b room fresh-IsStorable in
        let read = recorded_read page pos fresh valid b room fresh-IsStorable in
        let test : ltb (free_end page - free_start page) (slot_size + size_of fresh) ≡ false =
          ground arith in
        rw (test, read 2 40 (omega arith), read 2 2 (omega arith)) refl

  -- On a leaf, at a position that is at most the number of its records, `insert_raw` does one of two
  -- things. If the record and its slot fit into the free space, it returns a leaf whose records are
  -- those of the page with the new one, live, at the position, and whose header and high key are
  -- those of the page, but for the counters. If not, it fails with the space it needs and has.
  pub insert_raw-Inserts :
      IsLeaf page
      → pos ≤ pairs page
      → ((can_fit_direct (accessor page) (length key) (length val) ≡ true)
          × (page' : Page) × (insert_raw page pos key val rec_type ≡ ok page')
          × Inserts page pos fresh page')
        ⊎ ((can_fit_direct (accessor page) (length key) (length val) ≡ false)
            × (insert_raw page pos key val rec_type
                ≡ err (
                    insufficient_space
                      (slot_size + size_of fresh)
                      (free_end page - free_start page))))
  unfolding insert_raw
  insert_raw-Inserts valid b =
      elim (Bool-cases (can_fit_direct (accessor page) (length key) (length val))) [
        | inl fit ↦
            let room = leb→le _ _ fit in
            inl (
              fit,
              inserted page pos fresh,
              insert_raw_fits valid b room,
              inserted-Inserts page pos fresh valid b room (fresh-IsStorable valid b room),
            )
        | inr full ↦
            let test : ltb (free_end page - free_start page) (slot_size + size_of fresh) ≡ true =
              ground arith in
            inr (full, rw test refl)
      ]
