-- ===== src/Recovery/Sizes.antt =====
-- The redo of crates/storage/src/recovery/mod.rs keeps the size of a page.
use flux_db.Common.{
  ℕ, zero, suc, ◌+◌, ◌-◌, ◌*◌, ◌%◌, ◌^◌, ◌≡◌, refl, Bool, true, false, Option, none, some, List,
  length, ltb, ◌∙◌, ◌==◌, if◌then◌else◌, if_cases, length-set,
}
use flux_db.Values.Keys.{Key}
use flux_db.Page.Bytes.{Page, read_u8, read_u16, write_u16, length-write_le}
use flux_db.Page.Slices.{copy_within, length-write_bytes, slice}
use flux_db.Page.Header.{leaf, internal, off_page_type, set_half_dead, clear_incomplete_split}
use flux_db.Page.Meta.{set_root}
use flux_db.Page.Overflow.{Result, ok, err, insufficient_space}
use flux_db.Page.Leaf.{
  slot_size, rec_total_size, free_end, free_start, high_key_len, off_leaf_slot_count,
  slot_offset_at,
}
use flux_db.Page.Leaf.Mutate.{
  open_mutator, insert_raw, set_xmin, set_xmax, LeafRecord, write_record, write_slot, write_counts,
}
use flux_db.Page.Leaf.Records.Writes.{length-write_record}
use flux_db.Page.Internal
use flux_db.Page.Internal.{open_internal, snapshot, can_fit, int_key_data_base}
use flux_db.Page.Internal.Mutate.{
  insert_key_and_right_child, remove_key_at, rewrite, rewrite_edited, insert_at, write_children,
  write_key_ends, ChildSide, left, right,
}
use flux_db.Page.Internal.Sections.{length-write_children, length-write_key_ends, length-write_keys}
use flux_db.Wal.Record.{
  WalRecordType, insert, set_x_max, insert_down_link, mark_half_dead, unlink_page, new_root,
}
use flux_db.Recovery.Apply.{
  ◌>>=◌, field, part, with_xmin, apply_insert, apply_set_xmax, apply_downlink, apply_unlink,
  apply_root, apply_data,
}

-- A page that is produced has so many bytes.
abbrev pub Sized : ℕ → Option (Result Page) → Type 0
Sized n none = Unit
Sized n (some (err e)) = Unit
Sized n (some (ok page)) = length page ≡ n

Sized-bind {ℓ} :
    {A : Type ℓ} (n : ℕ) (o : Option A) (f : A → Option (Result Page))
    → ((a : A) → Sized n (f a))
    → Sized n (o >>= f)
Sized-bind n none f h = tt
Sized-bind n (some a) f h = h a

-- A page that is opened is the page.
Sized-open :
    (n : ℕ) (b : Bool) (page : Page) (f : Page → Option (Result Page))
    → Sized n (f page)
    → Sized n ((if b then some page else none) >>= f)
Sized-open n true page f h = h
Sized-open n false page f h = tt

length-rewrite :
    (page : Page) (children : List ℕ) (keys : List (List ℕ))
    → length (rewrite page children keys) ≡ length page
unfolding rewrite
length-rewrite page children keys =
    let n = length keys in
    let counted = write_u16 page Internal.off_int_num_keys (n % 2 ^ 16) in
    let with_children = write_children counted 0 children in
    length-write_keys keys (write_key_ends n with_children 0 0 keys) (int_key_data_base n)
    ∙ length-write_key_ends n keys with_children 0 0
    ∙ length-write_children children counted 0
    ∙ length-write_le 2 page Internal.off_int_num_keys (n % 2 ^ 16)

abbrev OfSize : Page → Option Page → Type 0
OfSize page none = Unit
OfSize page (some page') = length page' ≡ length page

rewrite_edited-OfSize :
    (page : Page) (children : Option (List ℕ)) (keys : Option (List (List ℕ)))
    → OfSize page (rewrite_edited page children keys)
rewrite_edited-OfSize page none keys = tt
rewrite_edited-OfSize page (some children) none = tt
rewrite_edited-OfSize page (some children) (some keys) = length-rewrite page children keys

okay-Sized :
    (page : Page) (o : Option Page) → OfSize page o → Sized (length page) (o >>= λ p. some (ok p))
okay-Sized page none h = tt
okay-Sized page (some page') h = h

downlink-Sized :
    (page : Page) (index : ℕ) (key_bytes : List ℕ) (right_child : ℕ)
    → Sized (length page) (insert_key_and_right_child page index key_bytes right_child)
unfolding insert_key_and_right_child
downlink-Sized page index key_bytes right_child =
    let (children, keys) = snapshot page in
    let edited =
      rewrite_edited page (insert_at (index + 1) right_child children)
        (insert_at index key_bytes keys) in
    if_cases (Sized (length page)) (can_fit page (length key_bytes))
      (elim edited [ none ↦ none | some page' ↦ some (ok page') ])
      (some (err (insufficient_space (8 + 4 + length key_bytes) (Internal.free_bytes page))))
      (λ _. written edited (rewrite_edited-OfSize page _ _)) (λ _. tt)
  where
    written :
        (o : Option Page)
        → OfSize page o
        → Sized (length page) (elim o [ none ↦ none | some p ↦ some (ok p) ])
    written none h = tt
    written (some p) h = h

removal-Sized :
    (page : Page) (index : ℕ) (keep : ChildSide)
    → Sized (length page) (remove_key_at page index keep >>= λ p. some (ok p))
unfolding remove_key_at
removal-Sized page index left = okay-Sized page _ (rewrite_edited-OfSize page _ _)
removal-Sized page index right = okay-Sized page _ (rewrite_edited-OfSize page _ _)

insertion-Sized :
    (page : Page) (pos : ℕ) (key value : List ℕ) (rec_type xmin : ℕ)
    → Sized (length page) (some (with_xmin (insert_raw page pos key value rec_type) pos xmin))
unfolding insert_raw write_slot write_counts set_xmin
insertion-Sized page pos key value rec_type xmin =
    let size = rec_total_size (length key) (length value) in
    let rec_base = free_end page - size in
    let r : LeafRecord = record {
      key = key;
      val = value;
      rec_type = rec_type;
      xmin = 0;
      xmax = 0;
    } in
    let p1 = write_record page rec_base r in
    let n = read_u16 p1 off_leaf_slot_count in
    let src = slot_offset_at (high_key_len p1) pos in
    let p2 = copy_within p1 src ((n - pos) * slot_size) (src + slot_size) in
    let p3 = write_slot p2 src rec_base size in
    let done = write_counts p3 (n + 1) (free_start page + slot_size) rec_base in
    let free = free_end page - free_start page in
    if_cases (λ o. Sized (length page) (some (with_xmin o pos xmin))) (ltb free (slot_size + size))
      (err (insufficient_space (slot_size + size) free)) (ok done) (λ _. tt)
      (λ _.
        length-write_le 8 done _ xmin
        ∙ length-write_le 2 _ _ _
        ∙ length-write_le 2 _ _ _
        ∙ length-write_le 2 p3 _ _
        ∙ length-write_le 2 _ _ _
        ∙ length-write_le 2 p2 _ _
        ∙ length-write_bytes (slice p1 src ((n - pos) * slot_size)) p1 (src + slot_size)
        ∙ length-write_record page rec_base r)

unlink-Sized : (d : List ℕ) (page : Page) → Sized (length page) (apply_unlink d page)
unfolding apply_unlink open_mutator open_internal
unlink-Sized d page =
    let n = length page in
    Sized-bind n (field 1 0 d) _ (λ role.
      if_cases (Sized n) (role == 0) _ _
        (λ _. Sized-bind n (field 8 1 d) _ (λ link.
          Sized-open n (read_u8 page off_page_type == leaf) page _ (length-write_le 8 page _ _)))
        (λ _.
          if_cases (Sized n) (role == 1) _ _
            (λ _. Sized-bind n (field 8 1 d) _ (λ link.
              Sized-open n (read_u8 page off_page_type == leaf) page _
                (length-write_le 8 page _ _)))
            (λ _.
              if_cases (Sized n) (role == 2) _ _
                (λ _. Sized-bind n (field 2 1 d) _ (λ index. Sized-bind n (field 1 3 d) _ (λ keep.
                  Sized-open n (read_u8 page off_page_type == internal) page _
                    (removal-Sized page index _))))
                (λ _. tt))))

module _ {ℓ} {K : Type ℓ} (key : Key K) where
  insert-Sized : (d : List ℕ) (page : Page) → Sized (length page) (apply_insert d page)
  unfolding apply_insert open_mutator
  insert-Sized d page =
      let n = length page in
      Sized-bind n (field 2 0 d) _ (λ slot. Sized-bind n (field 2 2 d) _ (λ key_len.
        Sized-bind n (field 2 4 d) _ (λ val_len. Sized-bind n (field 1 6 d) _ (λ rec_type.
          Sized-bind n (field 8 7 d) _ (λ xmin. Sized-bind n (part 15 key_len d) _ (λ key_bytes.
            Sized-bind n (part (15 + key_len) val_len d) _ (λ value.
              Sized-open n (read_u8 page off_page_type == leaf) page _
                (insertion-Sized page slot key_bytes value rec_type xmin))))))))

  set_xmax-Sized : (d : List ℕ) (page : Page) → Sized (length page) (apply_set_xmax d page)
  unfolding apply_set_xmax open_mutator set_xmax
  set_xmax-Sized d page =
      let n = length page in
      Sized-bind n (field 2 0 d) _ (λ slot. Sized-bind n (field 8 2 d) _ (λ xmax.
        Sized-open n (read_u8 page off_page_type == leaf) page _ (length-write_le 8 page _ xmax)))

  link-Sized : (d : List ℕ) (page : Page) → Sized (length page) (apply_downlink key d page)
  unfolding apply_downlink open_internal
  link-Sized d page =
      let n = length page in
      Sized-bind n (field 2 0 d) _ (λ index. Sized-bind n (field 2 2 d) _ (λ sep_len.
        Sized-bind n (field 8 4 d) _ (λ right_child. Sized-bind n (part 12 sep_len d) _ (λ sep_key.
          Sized-open n (read_u8 page off_page_type == internal) page _ (
            Sized-bind n (key.value.from_bytes sep_key) _
              (λ k. downlink-Sized page index (key.value.as_bytes k) right_child))))))

  root-Sized : (d : List ℕ) (page : Page) → Sized (length page) (apply_root d page)
  unfolding apply_root set_root
  root-Sized d page =
      Sized-bind (length page) (field 8 0 d) _ (λ root. length-write_le 8 page _ root)

  half_dead-Sized : (page : Page) → length (set_half_dead page) ≡ length page
  unfolding set_half_dead
  half_dead-Sized page = length-set page _ _

  clear-Sized : (page : Page) → length (clear_incomplete_split page) ≡ length page
  unfolding clear_incomplete_split
  clear-Sized page = length-set page _ _

  pub apply_data-Sized :
      (t : WalRecordType) (i : ℕ) (data_of : Option (List ℕ)) (page : Page)
      → Sized (length page) (apply_data key t i data_of page)
  unfolding apply_data
  apply_data-Sized insert zero o page = Sized-bind (length page) o _ (λ d. insert-Sized d page)
  apply_data-Sized set_x_max zero o page = Sized-bind (length page) o _ (λ d. set_xmax-Sized d page)
  apply_data-Sized insert_down_link zero o page =
      Sized-bind (length page) o _ (λ d. link-Sized d page)
  apply_data-Sized mark_half_dead zero o page = half_dead-Sized page
  apply_data-Sized unlink_page i o page = Sized-bind (length page) o _ (λ d. unlink-Sized d page)
  apply_data-Sized insert_down_link (suc zero) o page = clear-Sized page
  apply_data-Sized new_root (suc zero) o page =
      Sized-bind (length page) o _ (λ d. root-Sized d page)
  apply_data-Sized new_root (suc (suc zero)) o page = clear-Sized page
  apply_data-Sized _ _ o page = refl
