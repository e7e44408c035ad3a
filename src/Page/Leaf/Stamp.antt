-- ===== src/Page/Leaf/Stamp.antt =====
-- `set_xmin` and `set_xmax` of crates/storage/src/page/leaf.rs, which stamp one record of a leaf.
pub mod Refine
use flux_db.Common.{
  ℕ, ◌+◌, ◌^◌, ◌<◌, ◌≤◌, ◌≡◌, ◌≢◌, ◌⊎◌, inl, inr, refl, length, set, arith, ◌∙◌, sym, collect-set,
  Bool-cases, ltb, ◌==◌,
}
use flux_db.Page.Bytes.{
  Page, read_le, read_u16, read_u64, write_u64, length-write_le, get_or-write_le,
  read_le-write_le_self, read_le-write_le_ne,
}
use flux_db.Page.Leaf.{
  accessor, slot_rec_size, high_key_len, free_start, free_end, even_up, rec_val_offset,
}
use flux_db.Page.Leaf.Mutate.{LeafRecord}
use flux_db.Page.Frames.{SameBytes, SameBytes-sub, read_le-SameBytes, slice-SameBytes}
use flux_db.Page.Leaf.Records.{record_at-SameBytes, size_at-SameBytes}
use flux_db.Page.Leaf.Valid.{pairs, base_at, entry, entry_size, entries, IsLeaf}

module _ (page : Page) (pos off id : ℕ) (valid : IsLeaf page) (h : pos < pairs page) (a : 8 ≤ off)
    (b : off ≤ 16) where
  abbrev place : ℕ
  place = base_at page pos + off

  -- The page with a transaction id written into the header of the record.
  abbrev stamped : Page
  stamped = write_u64 page place id

  place_inside : (free_end page ≤ place) × (place + 8 ≤ base_at page pos + entry_size page pos)
  place_inside = let v = valid.above pos h in (omega arith, omega arith)

  front_read : (n k : ℕ) → k + n ≤ free_end page → read_le n stamped k ≡ read_le n page k
  front_read n k c =
      let p = place_inside.0 in read_le-write_le_ne n 8 page k place id (inl (omega arith))

  len_same : high_key_len stamped ≡ high_key_len page
  len_same = let s = valid.starts in let o = valid.has_room in front_read 2 40 (omega arith)

  pairs_same : pairs stamped ≡ pairs page
  pairs_same = let s = valid.starts in let o = valid.has_room in front_read 2 2 (omega arith)

  start_same : free_start stamped ≡ free_start page
  start_same = let s = valid.starts in let o = valid.has_room in front_read 2 4 (omega arith)

  end_same : free_end stamped ≡ free_end page
  end_same = let s = valid.starts in let o = valid.has_room in front_read 2 6 (omega arith)

  base_same : (i : ℕ) → i < pairs page → base_at stamped i ≡ base_at page i
  base_same i l =
      let s = valid.starts in let o = valid.has_room in rw len_same (front_read 2 _ (omega arith))

  stored_same :
      (i : ℕ)
      → i < pairs page
      → slot_rec_size (accessor stamped) i ≡ slot_rec_size (accessor page) i
  stored_same i l =
      let s = valid.starts in let o = valid.has_room in rw len_same (front_read 2 _ (omega arith))

  length_same : length stamped ≡ length page
  length_same = length-write_le 8 page place id

  -- The lengths of the stamped record stay, and every other record.
  size_same : entry_size stamped pos ≡ entry_size page pos
  size_same =
      let v = valid.above pos h in
      rw (base_same pos h) (
        let k = read_le-write_le_ne 2 8 page (base_at page pos + 0) place id (inl (omega arith)) in
        let v = read_le-write_le_ne 2 8 page (base_at page pos + 2) place id (inl (omega arith)) in
        rw (k, v) refl)

  other_bytes :
      (i : ℕ)
      → i < pairs page
      → i ≢ pos
      → SameBytes page (base_at page i) stamped (base_at page i) (entry_size page i)
  other_bytes i l ne = record {
    agree = λ k c. sym (
        get_or-write_le 8 page place id (base_at page i + k) (elim (Bool-cases (ltb i pos)) [
          | inl e ↦
              let s = valid.separate i pos (ground arith) h in let p = place_inside in omega arith
          | inr e ↦
              let s = valid.separate pos i (ground arith) l in let p = place_inside in omega arith
        ]));
  }

  other_same :
      (i : ℕ)
      → i < pairs page
      → i ≢ pos
      → (entry_size stamped i ≡ entry_size page i) × (entry stamped i ≡ entry page i)
  unfolding entry
  other_same i l ne =
      let b = valid.inside i l in
      let n = valid.sized in
      let n' = length_same in
      rw (base_same i l) (
        sym (size_at-SameBytes (other_bytes i l ne) (omega arith) (omega arith)),
        sym (record_at-SameBytes (other_bytes i l ne) (omega arith) (omega arith)),
      )

  sizes_same : (i : ℕ) → i < pairs page → entry_size stamped i ≡ entry_size page i
  sizes_same i l = elim (Bool-cases (i == pos)) [
    | inl e ↦ let same : i ≡ pos = ground arith in rw same size_same
    | inr e ↦ (other_same i l (ground arith)).0
  ]

  stamped-IsLeaf : IsLeaf stamped
  stamped-IsLeaf = record {
    sized = length_same ∙ valid.sized;
    typed =
        let s = valid.starts in
        let o = valid.has_room in
        let p = place_inside.0 in
        get_or-write_le 8 page place id 0 (inl (omega arith)) ∙ valid.typed;
    starts = rw (start_same, len_same, pairs_same) valid.starts;
    has_room = rw (start_same, end_same) valid.has_room;
    ends = rw end_same valid.ends;
    above = λ i l. let l' = rw pairs_same at l in rw (end_same, base_same i l') (valid.above i l');
    inside = λ i l.
        let l' = rw pairs_same at l in
        rw (sizes_same i l') (rw (base_same i l') (valid.inside i l'));
    measured = λ i l.
        let l' = rw pairs_same at l in
        stored_same i l' ∙ valid.measured i l' ∙ sym (sizes_same i l');
    separate = λ i j l m.
        let m' = rw pairs_same at m in
        rw (sizes_same i (omega arith), sizes_same j m')
          (rw (base_same i (omega arith), base_same j m') (valid.separate i j l m'));
  }

  -- The bytes of the stamped record outside the id.
  body_same :
      (d n : ℕ)
      → (d + n ≤ off) ⊎ (off + 8 ≤ d)
      → SameBytes stamped (base_at page pos + d) page (base_at page pos + d) n
  body_same d n c = record {
    agree = λ k l. get_or-write_le 8 page place id (base_at page pos + d + k) (omega arith);
  }

  field_same :
      (n d : ℕ)
      → (d + n ≤ off) ⊎ (off + 8 ≤ d)
      → read_le n stamped (base_at page pos + d) ≡ read_le n page (base_at page pos + d)
  field_same n d c = read_le-SameBytes n stamped page _ _ (body_same d n c)

  key_same : (entry stamped pos).key ≡ (entry page pos).key
  unfolding entry
  key_same =
      let l = valid.sized in
      let l' = length_same in
      let i = valid.inside pos h in
      rw (base_same pos h) (
        rw (field_same 2 0 (inl (omega arith))) (
          slice-SameBytes _ stamped page (base_at page pos + 24) (base_at page pos + 24)
            (omega arith) (omega arith) (body_same 24 _ (inr (omega arith)))))

  val_same : (entry stamped pos).val ≡ (entry page pos).val
  unfolding entry
  val_same =
      let l = valid.sized in
      let l' = length_same in
      let i = valid.inside pos h in
      let len = read_u16 page (base_at page pos + 0) in
      let at_val =
        body_same (24 + even_up len) (read_u16 page (base_at page pos + 2)) (inr (omega arith)) in
      rw (base_same pos h) (
        rw (field_same 2 0 (inl (omega arith)), field_same 2 2 (inl (omega arith)))
          (slice-SameBytes _ stamped page (rec_val_offset (base_at page pos) len)
            (rec_val_offset (base_at page pos) len) (omega arith) (omega arith)
            (SameBytes-sub at_val 0 _ _ _ (omega arith) (omega arith) (omega arith))))

  type_same : (entry stamped pos).rec_type ≡ (entry page pos).rec_type
  unfolding entry
  type_same =
      rw (base_same pos h)
        (get_or-write_le 8 page place id (base_at page pos + 4) (inl (omega arith)))

  own_read : id < 2 ^ 64 → read_u64 stamped place ≡ id
  own_read small =
      let i = place_inside.1 in
      let inside = valid.inside pos h in
      let l = valid.sized in read_le-write_le_self 8 page place id (omega arith) small

  -- What the stamped record becomes.
  entries-stamped :
      (r : LeafRecord) → entry stamped pos ≡ r → entries stamped ≡ set (entries page) pos r
  entries-stamped r e = rw pairs_same (
      collect-set (entry stamped) (entry page) r 0 (pairs page) pos
        (let same : 0 + pos ≡ pos = omega arith in rw same e)
        (λ j c l ne. (other_same j (omega arith) (λ q. ne (omega arith))).1))
