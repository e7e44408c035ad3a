-- ===== src/Page/Leaf/Stamp/Refine.antt =====
-- The writes of the transaction ids in crates/storage/src/page/leaf.rs, on the list of records.
use flux_db.Common.{ℕ, ◌^◌, ◌<◌, ◌≡◌, inl, inr, set, arith}
use flux_db.Page.Bytes.{Page}
use flux_db.Page.Leaf.Mutate.{set_xmin, set_xmax}
use flux_db.Page.Leaf.Records.{LeafRecord-ext}
use flux_db.Page.Leaf.Valid.{pairs, entry, entries, IsLeaf}
use flux_db.Page.Leaf.Stamp.{
  stamped, base_same, stamped-IsLeaf, field_same, key_same, val_same, type_same, own_read,
  entries-stamped,
}

module _ (page : Page) (pos id : ℕ) (valid : IsLeaf page) (h : pos < pairs page)
    (small : id < 2 ^ 64) where
  xmin_kept :
      (entry (stamped page pos 16 id valid h (omega arith) (omega arith)) pos).xmin
      ≡ (entry page pos).xmin
  unfolding entry
  xmin_kept =
      rw (base_same page pos 16 id valid h (omega arith) (omega arith) pos h)
        (field_same page pos 16 id valid h (omega arith) (omega arith) 8 8 (inl (omega arith)))

  xmax_set : (entry (stamped page pos 16 id valid h (omega arith) (omega arith)) pos).xmax ≡ id
  unfolding entry
  xmax_set =
      rw (base_same page pos 16 id valid h (omega arith) (omega arith) pos h)
        (own_read page pos 16 id valid h (omega arith) (omega arith) small)

  xmax_kept :
      (entry (stamped page pos 8 id valid h (omega arith) (omega arith)) pos).xmax
      ≡ (entry page pos).xmax
  unfolding entry
  xmax_kept =
      rw (base_same page pos 8 id valid h (omega arith) (omega arith) pos h)
        (field_same page pos 8 id valid h (omega arith) (omega arith) 8 16 (inr (omega arith)))

  xmin_set : (entry (stamped page pos 8 id valid h (omega arith) (omega arith)) pos).xmin ≡ id
  unfolding entry
  xmin_set =
      rw (base_same page pos 8 id valid h (omega arith) (omega arith) pos h)
        (own_read page pos 8 id valid h (omega arith) (omega arith) small)

  -- `set_xmin` on a slot of a leaf leaves a leaf with the same records, but for the creator of the
  -- record at the slot.
  pub set_xmin-set :
      IsLeaf (set_xmin page pos id)
      × (entries (set_xmin page pos id)
          ≡ set (entries page) pos (record (entry page pos) { xmin = id }))
  unfolding set_xmin
  set_xmin-set = (
    stamped-IsLeaf page pos 8 id valid h (omega arith) (omega arith),
    entries-stamped page pos 8 id valid h (omega arith) (omega arith) _ (
        LeafRecord-ext (entry (stamped page pos 8 id valid h (omega arith) (omega arith)) pos)
          (record (entry page pos) { xmin = id })
          (key_same page pos 8 id valid h (omega arith) (omega arith))
          (val_same page pos 8 id valid h (omega arith) (omega arith))
          (type_same page pos 8 id valid h (omega arith) (omega arith)) xmin_set xmax_kept),
  )

  -- `set_xmax` on a slot of a leaf leaves a leaf, with the same records but that the transaction id
  -- of the record at the slot is the given one.
  pub set_xmax-set :
      IsLeaf (set_xmax page pos id)
      × (entries (set_xmax page pos id)
          ≡ set (entries page) pos (record (entry page pos) { xmax = id }))
  unfolding set_xmax
  set_xmax-set = (
    stamped-IsLeaf page pos 16 id valid h (omega arith) (omega arith),
    entries-stamped page pos 16 id valid h (omega arith) (omega arith) _ (
        LeafRecord-ext (entry (stamped page pos 16 id valid h (omega arith) (omega arith)) pos)
          (record (entry page pos) { xmax = id })
          (key_same page pos 16 id valid h (omega arith) (omega arith))
          (val_same page pos 16 id valid h (omega arith) (omega arith))
          (type_same page pos 16 id valid h (omega arith) (omega arith)) xmin_kept xmax_set),
  )
