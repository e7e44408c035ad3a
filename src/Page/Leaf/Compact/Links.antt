-- ===== src/Page/Leaf/Compact/Links.antt =====
-- The links and the high key that compact in crates/storage/src/page/leaf.rs puts on a new leaf.
use flux_db.Common.{
  ℕ, ◌+◌, ◌^◌, ◌<◌, ◌≤◌, ◌≡◌, inl, inr, refl, List, length, arith, ◌∙◌, sym, Bool-cases, ◌==◌,
  ==_iff,
}
use flux_db.Page.Bytes.{
  Page, read_u64, write_u64, get_or-write_le, read_le-write_le_self, read_le-write_le_ne,
}
use flux_db.Page.Slices.{slice}
use flux_db.Page.Header.{page_size}
use flux_db.Page.Overflow.{unwrap_or_zero}
use flux_db.Page.Leaf.{
  accessor, slot_base, high_key_len, rightlink, prev_page, link_at, high_key_bytes,
}
use flux_db.Page.Frames.{slice-SameBytes, length-slice}
use flux_db.Page.Leaf.Valid.{IsLeaf}
use flux_db.Page.Leaf.Build.{
  Builder, new_leaf, builder_set_high_key, builder_set_prev_page, builder_set_rightlink,
}
use flux_db.Page.Leaf.Build.Push.{IsBuilt}
use flux_db.Page.Leaf.Build.Start.{
  Blank, Blank-IsLeaf, new_leaf-Blank, set_high_key-Blank, slice-set_high_key, write_u64-Blank,
}
use flux_db.Page.Leaf.Compact.{keep_high_key}
use flux_db.Page.FreeSpace.Scan.{IsBytes}
use flux_db.Page.Leaf.Compact.Fits.{read_le-bounded}

pub Blank-len : {page : Page} {id a b : ℕ} → a ≡ b → Blank page id a → Blank page id b
Blank-len e blank = rw (← e) blank

pub link_kept : (page : Page) (off : ℕ) → unwrap_or_zero (link_at page off) ≡ read_u64 page off
unfolding link_at
link_kept page off = elim (Bool-cases (read_u64 page off == 0)) [
  | inl e ↦ rw e (ground arith)
  | inr e ↦ rw e refl
]

module _ (page_id : ℕ) (page : Page) (valid : IsLeaf page) (small : page_id < 2 ^ 64) where
  abbrev pub hkl : ℕ
  hkl = high_key_len page

  abbrev pub keyed : Builder
  keyed = keep_high_key (high_key_bytes (accessor page)) (new_leaf page_id page)

  pub fits_base : slot_base hkl ≤ page_size
  fits_base = let s = valid.starts in let o = valid.has_room in let e = valid.ends in omega arith

  -- The builder with the high key of the page.
  pub KeepsKey : Builder → Type 0
  KeepsKey b =
      Blank b.data_bytes page_id hkl
      × (b.write_end ≡ page_size)
      × (b.hkl ≡ hkl)
      × (slice b.data_bytes 48 hkl ≡ slice page 48 hkl)

  pub keyed_with :
      (hk : List ℕ)
      → length hk ≡ hkl
      → hk ≡ slice page 48 hkl
      → KeepsKey (builder_set_high_key (new_leaf page_id page) hk)
  unfolding KeepsKey builder_set_high_key new_leaf
  keyed_with hk l e =
      let blank = new_leaf-Blank page_id page valid.sized small in
      let fits : slot_base (length hk) ≤ page_size = rw l fits_base in
      let b = new_leaf page_id page in
      let keyed_blank = set_high_key-Blank b page_id hk blank fits in
      (Blank-len l keyed_blank, refl, l, rw (← l) (slice-set_high_key b page_id hk blank fits) ∙ e)

  pub keyed-KeepsKey : KeepsKey keyed
  unfolding KeepsKey high_key_bytes new_leaf
  keyed-KeepsKey = elim (Bool-cases (hkl == 0)) [
    | inl e ↦
        let z = (==_iff hkl 0).0 e in
        rw e (rw z (new_leaf-Blank page_id page valid.sized small, refl, refl, refl))
    | inr e ↦ rw e (
        keyed_with (slice page 48 hkl)
          (length-slice page 48 hkl (let l = valid.sized in let f = fits_base in omega arith)) refl)
  ]

  abbrev pub linked : Builder
  linked =
      builder_set_prev_page (builder_set_rightlink keyed (rightlink (accessor page)))
        (prev_page (accessor page))

  abbrev pub right_page : Page
  right_page = write_u64 keyed.data_bytes 32 (unwrap_or_zero (link_at page 32))

  abbrev pub linked_page : Page
  linked_page = write_u64 right_page 24 (unwrap_or_zero (link_at page 24))

  pub linked_data : linked.data_bytes ≡ linked_page
  unfolding builder_set_prev_page builder_set_rightlink rightlink prev_page link_at
  linked_data = refl

  pub right-Blank : Blank right_page page_id hkl
  unfolding KeepsKey
  right-Blank =
      write_u64-Blank keyed.data_bytes 32 (unwrap_or_zero (link_at page 32)) page_id hkl
        (keyed-KeepsKey.0) (omega arith) (omega arith)

  pub linked-Blank : Blank linked_page page_id hkl
  linked-Blank =
      write_u64-Blank right_page 24 (unwrap_or_zero (link_at page 24)) page_id hkl right-Blank
        (omega arith) (omega arith)

  pub linked-IsBuilt : IsBuilt linked
  unfolding KeepsKey builder_set_prev_page builder_set_rightlink
  linked-IsBuilt = record {
    valid = rw linked_data (Blank-IsLeaf linked-Blank fits_base);
    end_known = rw linked_data (keyed-KeepsKey.1 ∙ sym linked-Blank.ends);
    hkl_known = rw linked_data (keyed-KeepsKey.2 ∙ sym linked-Blank.hkl_read);
  }

  module _ (bytes : IsBytes page) where
    pub linked_right : read_u64 linked_page 32 ≡ read_u64 page 32
    unfolding KeepsKey
    linked_right =
        read_le-write_le_ne 8 8 right_page 32 24 (unwrap_or_zero (link_at page 24)) (omega arith)
        ∙ rw (link_kept page 32) (
            read_le-write_le_self 8 keyed.data_bytes 32 (read_u64 page 32)
              (omega (arith, keyed-KeepsKey.0.sized)) (read_le-bounded 8 page 32 bytes))

    pub linked_prev : read_u64 linked_page 24 ≡ read_u64 page 24
    linked_prev = rw (link_kept page 24) (
        read_le-write_le_self 8 right_page 24 (read_u64 page 24) (omega (arith, right-Blank.sized))
          (read_le-bounded 8 page 24 bytes))

  pub linked_key : slice linked_page 48 hkl ≡ slice page 48 hkl
  unfolding KeepsKey
  linked_key =
      let f = fits_base in
      slice-SameBytes hkl linked_page keyed.data_bytes 48 48 (omega (arith, linked-Blank.sized))
        (omega (arith, keyed-KeepsKey.0.sized))
        (record {
          agree = λ k c.
              get_or-write_le 8 right_page 24 (unwrap_or_zero (link_at page 24)) (48 + k)
                (inr (omega arith))
              ∙ get_or-write_le 8 keyed.data_bytes 32 (unwrap_or_zero (link_at page 32)) (48 + k)
                  (inr (omega arith));
        })
      ∙ keyed-KeepsKey.3
