-- ===== src/Page/Leaf/Remove/Refine.antt =====
-- `remove` of crates/storage/src/page/leaf.rs as the deletion from the list of records.
use flux_db.Common.{
  ℕ, suc, ◌+◌, ◌-◌, ◌<◌, ◌≤◌, ◌≡◌, ◌⊎◌, inl, inr, refl, some, ◌++◌, get_or, take, drop, arith, ◌∙◌,
  sym, collect_removed, ltb, Bool-cases,
}
use flux_db.Page.Bytes.{Page, read_u16}
use flux_db.Page.Leaf.{accessor, slot_rec_size, slot_offset_at, high_key_len, free_end, slot_base}
use flux_db.Page.Leaf.Mutate.{remove}
use flux_db.Page.Frames.{SameBytes, read_le-SameBytes}
use flux_db.Page.Leaf.Records.{record_at-SameBytes, size_at-SameBytes}
use flux_db.Page.Leaf.Valid.{pairs, base_at, entry, entry_size, entries, IsLeaf}
use flux_db.Page.Leaf.Remove.{
  removed, remove-removed, layout, length-removed, kept, moved, pairs-removed, start_removed,
  front_read, len_removed, end_removed,
}

module _ (page : Page) (pos : ℕ) (valid : IsLeaf page) (h : pos < pairs page) where
  abbrev page' : Page
  page' = removed page pos valid h

  -- The slot that slot `j` was before.
  abbrev Old : ℕ → ℕ → Type 0
  Old j i =
      (i < pairs page)
      × (((j < pos) × (i ≡ j)) ⊎ ((pos ≤ j) × (i ≡ suc j)))
      × (base_at page' j ≡ base_at page i)
      × (slot_rec_size (accessor page') j ≡ slot_rec_size (accessor page) i)

  before_Old : (j : ℕ) → j < pos → Old j j
  before_Old j l =
      let lay = layout page pos valid h in
      let len = len_removed page pos valid h in
      (
        omega arith,
        inl (l, refl),
        rw len (front_read page pos valid h 2 _ (omega arith) (omega arith)),
        rw len (front_read page pos valid h 2 _ (omega arith) (omega arith)),
      )

  moved_read :
      (j d to from : ℕ)
      → pos ≤ j
      → j + 1 < pairs page
      → d ≤ 2
      → to ≡ slot_offset_at (high_key_len page) j + d
      → from ≡ slot_offset_at (high_key_len page) (suc j) + d
      → read_u16 page' to ≡ read_u16 page from
  moved_read j d to from a b c e e' = read_le-SameBytes 2 page' page to from (record {
    agree = λ k l.
        moved page pos valid h j (to + k) (from + k) a b (omega arith) (omega arith) (omega arith);
  })

  after_Old : (j : ℕ) → pos ≤ j → j + 1 < pairs page → Old j (suc j)
  after_Old j a b =
      let len = len_removed page pos valid h in
      (
        omega arith,
        inr (a, refl),
        rw len (moved_read j 0 _ _ a b (omega arith) (omega arith) (omega arith)),
        rw len (moved_read j 2 _ _ a b (omega arith) refl refl),
      )

  origin : (j : ℕ) → j < pairs page - 1 → (i : ℕ) × Old j i
  origin j l = elim (Bool-cases (ltb j pos)) [
    | inl e ↦ (j, before_Old j (ground arith))
    | inr e ↦ (suc j, after_Old j (ground arith) (omega arith))
  ]

  old_record :
      (i : ℕ)
      → i < pairs page
      → SameBytes page (base_at page i) page' (base_at page i) (entry_size page i)
  old_record i l =
      let lay = layout page pos valid h in
      let a = valid.above i l in
      record {
        agree = λ k c.
            sym
              (kept page pos valid h (base_at page i + k) (inr (omega arith)) (inr (omega arith)));
      }

  Old-record :
      (j i : ℕ)
      → Old j i
      → (entry_size page' j ≡ entry_size page i) × (entry page' j ≡ entry page i)
  unfolding entry
  Old-record j i (l, _, e, _) =
      let b = valid.inside i l in
      let n = valid.sized in
      let n' = length-removed page pos valid h in
      rw e (
        sym (size_at-SameBytes (old_record i l) (omega arith) (omega arith)),
        sym (record_at-SameBytes (old_record i l) (omega arith) (omega arith)),
      )

  placed :
      (j : ℕ)
      → j < pairs page'
      → (i : ℕ) × Old j i
        × ((base_at page' j ≡ base_at page i) × (entry_size page' j ≡ entry_size page i))
  placed j l =
      let (i, o) = origin j (omega (arith, pairs-removed page pos valid h)) in
      (i, o, (o.2, (Old-record j i o).0))

  removed-IsLeaf : IsLeaf page'
  removed-IsLeaf =
      let lay = layout page pos valid h in
      let s = start_removed page pos valid h in
      let e = end_removed page pos valid h in
      record {
        sized = length-removed page pos valid h;
        typed = kept page pos valid h 0 (inl (omega arith)) (inl (omega arith)) ∙ valid.typed;
        starts = rw (s, len_removed page pos valid h, pairs-removed page pos valid h) (omega arith);
        has_room = rw (s, e) (omega arith);
        ends = rw e valid.ends;
        above = λ j l. let (i, o, p) = placed j l in rw (e, p.0) (valid.above i o.0);
        inside = λ j l. let (i, o, p) = placed j l in rw p.1 (rw p.0 (valid.inside i o.0));
        measured = λ j l. let (i, o, p) = placed j l in o.3 ∙ valid.measured i o.0 ∙ sym p.1;
        separate = λ j k l m.
            let (i, o, p) = placed j (omega arith) in
            let (i', o', p') = placed k m in
            let before : i < i' = omega (arith, o.1, o'.1) in
            rw (p.1, p'.1) (rw (p.0, p'.0) (valid.separate i i' before o'.0));
      }

  entries-removed :
      (n : ℕ)
      → pairs page ≡ suc n
      → entries page' ≡ take pos (entries page) ++ drop (suc pos) (entries page)
  entries-removed n e =
      let fewer : pairs page' ≡ n = omega (arith, pairs-removed page pos valid h) in
      rw (fewer, e)
        (collect_removed (entry page') (entry page) 0 n pos (omega arith)
          (λ j a b. (Old-record j j (before_Old j (omega arith))).1)
          (λ j a b. (Old-record j (suc j) (after_Old j (omega arith) (omega arith))).1))

  -- On a leaf, at the position of a slot, `remove` returns a leaf whose records are those of the page
  -- without the one at the position, under the same high key and the same free space behind the
  -- slots; the header is kept but for the counters.
  pub remove-drop :
      (page'' : Page) × (remove page pos ≡ some page'')
      × IsLeaf page''
      × (entries page'' ≡ take pos (entries page) ++ drop (suc pos) (entries page))
      × (free_end page'' ≡ free_end page)
      × ((off : ℕ)
          → (off < 2) ⊎ (6 ≤ off)
          → off < slot_base (high_key_len page)
          → get_or page'' off 0 ≡ get_or page off 0)
  remove-drop =
      let lay = layout page pos valid h in
      (
        page',
        remove-removed page pos valid h,
        removed-IsLeaf,
        entries-removed (pairs page - 1) (omega arith),
        end_removed page pos valid h,
        λ off a b. kept page pos valid h off a (inl (omega arith)),
      )
