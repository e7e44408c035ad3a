-- ===== src/Page/Leaf/Compact/Rebuild.antt =====
-- The page that `compact` of crates/storage/src/page/leaf.rs rebuilds.
use flux_db.Common.{
  ℕ, ◌+◌, ◌-◌, ◌^◌, ◌<◌, ◌≤◌, ◌≡◌, ◌⊎◌, inl, inr, refl, some, List, [], ◌++◌, length, get_or, arith,
  ◌∙◌, ap, length-set, get_or-set_ne, get_or-set_self,
}
use flux_db.Page.Bytes.{
  Page, read_le, read_u8, read_u64, write_u8, write_u64, length-write_le, get_or-write_le,
  read_le-write_le_self, read_le-write_le_ne, read_le-set_ne,
}
use flux_db.Page.Slices.{slice}
use flux_db.Page.Header.{leaf, page_size}
use flux_db.Page.Leaf.{slot_base, high_key_len}
use flux_db.Page.Leaf.Mutate.{LeafRecord, open_mutator}
use flux_db.Page.Frames.{read_le-SameBytes, slice-SameBytes}
use flux_db.Page.Leaf.Valid.{entries, IsLeaf}
use flux_db.Page.Leaf.Agree.{Agree, IsLeaf-Agree, entries-Agree}
use flux_db.Page.Leaf.Build.{Builder, push_all}
use flux_db.Page.Leaf.Build.Push.{space_of, AllStorable, Extends, push_all-Extends}
use flux_db.Page.Leaf.Build.Start.{Blank-entries}
use flux_db.Page.Leaf.Compact.{rebuild}
use flux_db.Page.FreeSpace.Scan.{IsBytes}
use flux_db.Page.Leaf.Compact.Fits.{read_le-bounded}
use flux_db.Page.Leaf.Compact.Links.{
  fits_base, linked, linked_page, linked_data, linked-Blank, linked-IsBuilt, linked_key,
  linked_right, linked_prev,
}

-- The metadata of a leaf that compaction keeps.
pub record SameMetadata (page page' : Page) : Type 0 where
  pub same_len : high_key_len page' ≡ high_key_len page
  pub same_high_key : slice page' 48 (high_key_len page) ≡ slice page 48 (high_key_len page)
  pub same_rightlink : read_u64 page' 32 ≡ read_u64 page 32
  pub same_prev : read_u64 page' 24 ≡ read_u64 page 24
  pub same_lsn : read_u64 page' 16 ≡ read_u64 page 16
  pub same_flags : read_u8 page' 1 ≡ read_u8 page 1

-- The last writes of `compact`, the LSN and the flags, leave the records.
module _ (page : Page) (lsn flags : ℕ) where
  abbrev stamped_page : Page
  stamped_page = write_u8 (write_u64 page 16 lsn) 1 flags

  stamped-Agree : Agree page stamped_page
  stamped-Agree = record {
    length_same = length-set (write_u64 page 16 lsn) 1 flags ∙ length-write_le 8 page 16 lsn;
    bytes_same = λ j h.
        get_or-set_ne (write_u64 page 16 lsn) 1 j flags 0 (omega arith)
        ∙ get_or-write_le 8 page 16 lsn j (omega arith);
  }

  stamped_read : (n off : ℕ) → 24 ≤ off → read_le n stamped_page off ≡ read_le n page off
  stamped_read n off h =
      read_le-set_ne n (write_u64 page 16 lsn) off 1 flags (inr (omega arith))
      ∙ read_le-write_le_ne n 8 page off 16 lsn (inr (omega arith))

-- What pushes leave of a page's header.
header_read :
    (n off base : ℕ) (page page' : Page)
    → 8 ≤ off
    → off + n ≤ base
    → ((j : ℕ) → (j < 2) ⊎ (8 ≤ j) → j < base → get_or page' j 0 ≡ get_or page j 0)
    → read_le n page' off ≡ read_le n page off
header_read n off base page page' h b same =
    read_le-SameBytes n page' page off off
      (record { agree = λ k c. same (off + k) (inr (omega arith)) (omega arith) })

module _ (page_id : ℕ) (page : Page) (valid : IsLeaf page) (small : page_id < 2 ^ 64)
    (bytes : IsBytes page) (live : List LeafRecord) (storable : AllStorable live)
    (room : space_of live ≤ page_size - slot_base (high_key_len page)) where
  abbrev start : Builder
  start = linked page_id page valid small

  abbrev start_page : Page
  start_page = linked_page page_id page valid small

  start_empty : entries start.data_bytes ≡ []
  start_empty =
      rw (linked_data page_id page valid small)
        (Blank-entries (linked-Blank page_id page valid small))

  rebuild-pushed :
      (b₄ : Builder)
      → push_all start live ≡ some b₄
      → read_u8 b₄.data_bytes 0 ≡ leaf
      → rebuild page_id page live
        ≡ some (stamped_page b₄.data_bytes (read_u64 page 16) (read_u8 page 1))
  unfolding rebuild open_mutator
  rebuild-pushed b₄ pushed typed = rw (pushed, typed, rebuild) refl

  module _ (b₄ : Builder) (ext : Extends start live b₄) where
    abbrev final : Page
    final = stamped_page b₄.data_bytes (read_u64 page 16) (read_u8 page 1)

    header_kept :
        (j : ℕ)
        → (j < 2) ⊎ (8 ≤ j)
        → j < slot_base (high_key_len page)
        → get_or b₄.data_bytes j 0 ≡ get_or start_page j 0
    header_kept j h h' =
        let blank = linked-Blank page_id page valid small in
        let data_eq = linked_data page_id page valid small in
        let len : high_key_len start.data_bytes ≡ high_key_len page = rw data_eq blank.hkl_read in
        ext.header j h (omega arith) ∙ ap (λ p. get_or p j 0) data_eq

    final_read :
        (n off : ℕ)
        → 24 ≤ off
        → off + n ≤ slot_base (high_key_len page)
        → read_le n final off ≡ read_le n start_page off
    final_read n off h b =
        let blank = linked-Blank page_id page valid small in
        stamped_read b₄.data_bytes (read_u64 page 16) (read_u8 page 1) n off h
        ∙ header_read n off (slot_base (high_key_len page)) start_page b₄.data_bytes (omega arith) b
            header_kept

    pushed_length : length b₄.data_bytes ≡ page_size
    pushed_length = ext.built.valid.sized

    final-SameMetadata : SameMetadata page final
    final-SameMetadata =
        let l = pushed_length in
        let p16 = write_u64 b₄.data_bytes 16 (read_u64 page 16) in
        let l16 = length-write_le 8 b₄.data_bytes 16 (read_u64 page 16) in
        let blank = linked-Blank page_id page valid small in
        let fb = fits_base page_id page valid small in
        record {
          same_len = final_read 2 40 (omega arith) (omega arith) ∙ blank.hkl_read;
          same_high_key =
              slice-SameBytes (high_key_len page) final start_page 48 48
                (omega (arith, length-set p16 1 (read_u8 page 1))) (omega (arith, blank.sized))
                (record {
                  agree = λ k c.
                      get_or-set_ne p16 1 (48 + k) (read_u8 page 1) 0 (omega arith)
                      ∙ get_or-write_le 8 b₄.data_bytes 16 (read_u64 page 16) (48 + k)
                          (inr (omega arith))
                      ∙ header_kept (48 + k) (inr (omega arith)) (omega arith);
                })
              ∙ linked_key page_id page valid small;
          same_rightlink =
              final_read 8 32 (omega arith) (omega arith)
              ∙ linked_right page_id page valid small bytes;
          same_prev =
              final_read 8 24 (omega arith) (omega arith)
              ∙ linked_prev page_id page valid small bytes;
          same_lsn =
              read_le-set_ne 8 p16 16 1 (read_u8 page 1) (inr (omega arith))
              ∙ read_le-write_le_self 8 b₄.data_bytes 16 (read_u64 page 16) (omega arith)
                  (read_le-bounded 8 page 16 bytes);
          same_flags = get_or-set_self p16 1 (read_u8 page 1) 0 (omega arith);
        }

    final_id : read_u64 final 8 ≡ page_id
    final_id =
        let p16 = write_u64 b₄.data_bytes 16 (read_u64 page 16) in
        let blank = linked-Blank page_id page valid small in
        read_le-set_ne 8 p16 8 1 (read_u8 page 1) (inr (omega arith))
        ∙ read_le-write_le_ne 8 8 b₄.data_bytes 8 16 (read_u64 page 16) (inl (omega arith))
        ∙ header_read 8 8 (slot_base (high_key_len page)) start_page b₄.data_bytes (omega arith)
            (omega arith) header_kept
        ∙ blank.id_read

    final-IsLeaf : IsLeaf final
    final-IsLeaf =
        IsLeaf-Agree (stamped-Agree b₄.data_bytes (read_u64 page 16) (read_u8 page 1))
          ext.built.valid

    entries-final : entries final ≡ live
    entries-final =
        let blank = linked-Blank page_id page valid small in
        entries-Agree (stamped-Agree b₄.data_bytes (read_u64 page 16) (read_u8 page 1))
          ext.built.valid
        ∙ ext.records
        ∙ ap (λ xs. xs ++ live) start_empty

  pub rebuild-SameMetadata :
      (page' : Page) × (rebuild page_id page live ≡ some page')
      × IsLeaf page'
      × (entries page' ≡ live)
      × SameMetadata page page'
      × (read_u64 page' 8 ≡ page_id)
  unfolding rebuild open_mutator
  rebuild-SameMetadata =
      let blank = linked-Blank page_id page valid small in
      let data_eq = linked_data page_id page valid small in
      let fb = fits_base page_id page valid small in
      let (b₄, pushed, ext) =
        push_all-Extends live start (linked-IsBuilt page_id page valid small) storable
          (rw data_eq (omega (arith, blank.starts, blank.ends))) in
      let typed = ext.built.valid.typed in
      (
        final b₄ ext,
        rebuild-pushed b₄ pushed typed,
        final-IsLeaf b₄ ext,
        entries-final b₄ ext,
        final-SameMetadata b₄ ext,
        final_id b₄ ext,
      )
