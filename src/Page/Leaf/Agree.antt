-- ===== src/Page/Leaf/Agree.antt =====
-- Writes to the header of a leaf, crates/storage/src/page/leaf.rs, which leave its records: the flags,
-- the LSN and the links of `LeafPageMutator`.
use flux_db.Common.{
  ℕ, ◌+◌, ◌<◌, ◌≤◌, ◌≡◌, ◌⊎◌, inl, inr, length, get_or, arith, ◌∙◌, sym, collect-congr,
}
use flux_db.Page.Bytes.{Page, read_le}
use flux_db.Page.Leaf.{accessor, slot_rec_size, high_key_len, free_start, free_end}
use flux_db.Page.Frames.{SameBytes, read_le-SameBytes}
use flux_db.Page.Leaf.Records.{record_at-SameBytes, size_at-SameBytes}
use flux_db.Page.Leaf.Valid.{pairs, base_at, entry, entry_size, entries, IsLeaf}

-- Two pages that differ in the flags, the page id, the LSN and the links at most.
pub record Agree (page page' : Page) : Type 0 where
  pub length_same : length page' ≡ length page
  pub bytes_same :
      (j : ℕ) → (j < 1) ⊎ ((2 ≤ j) × (j < 8)) ⊎ (40 ≤ j) → get_or page' j 0 ≡ get_or page j 0

module _ {page page' : Page} (same : Agree page page') (valid : IsLeaf page) where
  pub read_same :
      (n off : ℕ)
      → ((2 ≤ off) × (off + n ≤ 8)) ⊎ (40 ≤ off)
      → read_le n page' off ≡ read_le n page off
  read_same n off h =
      read_le-SameBytes n page' page off off
        (record { agree = λ k c. same.bytes_same (off + k) (omega arith) })

  pub high_key_len-Agree : high_key_len page' ≡ high_key_len page
  high_key_len-Agree = read_same 2 40 (inr (omega arith))

  pub pairs-Agree : pairs page' ≡ pairs page
  pairs-Agree = read_same 2 2 (inl (omega arith))

  start_same : free_start page' ≡ free_start page
  start_same = read_same 2 4 (inl (omega arith))

  end_same : free_end page' ≡ free_end page
  end_same = read_same 2 6 (inl (omega arith))

  base_same : (i : ℕ) → base_at page' i ≡ base_at page i
  base_same i = rw high_key_len-Agree (read_same 2 _ (inr (omega arith)))

  stored_same : (i : ℕ) → slot_rec_size (accessor page') i ≡ slot_rec_size (accessor page) i
  stored_same i = rw high_key_len-Agree (read_same 2 _ (inr (omega arith)))

  entry_bytes :
      (i : ℕ)
      → i < pairs page
      → SameBytes page (base_at page i) page' (base_at page i) (entry_size page i)
  entry_bytes i h =
      let a = valid.above i h in
      let o = valid.has_room in
      let s = valid.starts in
      record { agree = λ k c. sym (same.bytes_same (base_at page i + k) (omega arith)) }

  entry_same :
      (i : ℕ)
      → i < pairs page
      → (entry_size page' i ≡ entry_size page i) × (entry page' i ≡ entry page i)
  unfolding entry
  entry_same i h =
      let l = valid.sized in
      let l' = same.length_same in
      let b = valid.inside i h in
      rw (base_same i) (
        sym (size_at-SameBytes (entry_bytes i h) (omega arith) (omega arith)),
        sym (record_at-SameBytes (entry_bytes i h) (omega arith) (omega arith)),
      )

  pub IsLeaf-Agree : IsLeaf page'
  IsLeaf-Agree = record {
    sized = same.length_same ∙ valid.sized;
    typed = same.bytes_same 0 (inl (omega arith)) ∙ valid.typed;
    starts = rw (start_same, high_key_len-Agree, pairs-Agree) valid.starts;
    has_room = rw (start_same, end_same) valid.has_room;
    ends = rw end_same valid.ends;
    above = λ i h. rw (end_same, base_same i) (valid.above i (rw pairs-Agree at h));
    inside = λ i h.
        let h' = rw pairs-Agree at h in
        rw ((entry_same i h').0) (rw (base_same i) (valid.inside i h'));
    measured = λ i h.
        let h' = rw pairs-Agree at h in
        stored_same i ∙ valid.measured i h' ∙ sym ((entry_same i h').0);
    separate = λ i j l h.
        let h' = rw pairs-Agree at h in
        rw ((entry_same i (omega arith)).0, (entry_same j h').0)
          (rw (base_same i, base_same j) (valid.separate i j l h'));
  }

  pub entries-Agree : entries page' ≡ entries page
  entries-Agree = rw pairs-Agree (
      collect-congr (entry page') (entry page) 0 (pairs page)
        (λ j a b. (entry_same j (omega arith)).1))
