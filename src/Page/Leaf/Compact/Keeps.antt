-- ===== src/Page/Leaf/Compact/Keeps.antt =====
-- What `compact` of crates/storage/src/page/leaf.rs keeps and drops.
use flux_db.Common.{
  ℕ, ◌^◌, ◌<◌, ◌≡◌, inl, inr, refl, some, [], arith, sym, Bool-cases, ◌==◌, ==_iff, true, false,
}
use flux_db.Mvcc.State.{TransactionManager}
use flux_db.Values.Keys.{Key}
use flux_db.Page.Bytes.{Page}
use flux_db.Page.Leaf.{accessor, open_accessor}
use flux_db.Page.Leaf.Valid.{pairs, entries, IsLeaf}
use flux_db.Page.Leaf.Compact.{compact, gather, rebuild}
use flux_db.Page.Leaf.Compact.Gather.{
  survivors, dead_chains, dead_number, summary, AllEncode, gather-summary, survivors_same,
  no_chains, space_of-survivors, survivors-AllStorable,
}
use flux_db.Page.FreeSpace.Scan.{IsBytes}
use flux_db.Page.Leaf.Compact.Fits.{space_of-entries, entries-AllStorable}
use flux_db.Page.Leaf.Compact.Rebuild.{SameMetadata, rebuild-SameMetadata}

module _ {ℓ} {A : Type ℓ} (key : Key A) (horizon : ℕ) (tm : TransactionManager) (page_id : ℕ)
    (page : Page) (valid : IsLeaf page) where
  SameMetadata-self : SameMetadata page page
  SameMetadata-self = record {
    same_len = refl;
    same_high_key = refl;
    same_rightlink = refl;
    same_prev = refl;
    same_lsn = refl;
    same_flags = refl;
  }

  opened : open_accessor page ≡ some (accessor page)
  unfolding open_accessor
  opened = rw valid.typed refl

  compact_untouched :
      gather key horizon tm (accessor page) 0 (pairs page)
        ≡ some (summary horizon tm (entries page))
      → dead_number horizon tm (entries page) ≡ 0
      → compact key horizon tm page_id page ≡ some (page, 0, [])
  unfolding compact
  compact_untouched g z =
      rw (opened, g, compact)
        (let none_dead : (dead_number horizon tm (entries page) == 0) ≡ true = (==_iff _ 0).1 z in
          rw none_dead refl)

  compact_rebuilt :
      (page' : Page)
      → gather key horizon tm (accessor page) 0 (pairs page)
        ≡ some (summary horizon tm (entries page))
      → (dead_number horizon tm (entries page) == 0) ≡ false
      → rebuild page_id page (survivors horizon tm (entries page)) ≡ some page'
      → compact key horizon tm page_id page
        ≡ some (page', dead_number horizon tm (entries page), dead_chains horizon tm (entries page))
  unfolding compact
  compact_rebuilt page' g some_dead built = rw (opened, g, compact) (rw some_dead (rw built refl))

  -- A leaf of bytes whose keys are encodings is compacted without a panic. The page afterwards is a
  -- leaf that holds, in order, the records that are not vacuumable, under the same high key, links,
  -- LSN and flags; the counts say how many records were dropped, and which overflow chains they
  -- headed.
  pub compact-survivors :
      IsBytes page
      → page_id < 2 ^ 64
      → AllEncode key (entries page)
      → (page' : Page) × (compact key horizon tm page_id page
          ≡ some
              (page', dead_number horizon tm (entries page), dead_chains horizon tm (entries page)))
        × IsLeaf page'
        × (entries page' ≡ survivors horizon tm (entries page))
        × SameMetadata page page'
  compact-survivors bytes small keys =
      let rs = entries page in
      let g = gather-summary horizon tm key page 0 (pairs page) keys in
      elim (Bool-cases (dead_number horizon tm rs == 0)) [
        | inl e ↦
            let z = (==_iff (dead_number horizon tm rs) 0).0 e in
            let untouched = compact_untouched g z in
            (
              page,
              rw (z, no_chains horizon tm rs z) untouched,
              valid,
              sym (survivors_same horizon tm rs z),
              SameMetadata-self,
            )
        | inr e ↦
            let (page', built, leaf', held, same, _) =
              rebuild-SameMetadata page_id page valid small bytes (survivors horizon tm rs)
                (survivors-AllStorable horizon tm rs
                  (entries-AllStorable page valid bytes 0 (pairs page) (omega arith)))
                (omega
                  (arith, space_of-survivors horizon tm rs, space_of-entries page valid bytes)) in
            (page', compact_rebuilt page' g e built, leaf', held, same)
      ]
