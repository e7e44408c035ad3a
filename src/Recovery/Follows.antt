-- ===== src/Recovery/Follows.antt =====
-- What one record of the scan of crates/storage/src/recovery/mod.rs does to the pages.
use mathlib.Core.Path.{subst}
use flux_db.Common.{
  ℕ, ◌≡◌, ◌≢◌, refl, sym, ap, Bool, true, false, Option, none, some, List, [], ltb, ◌++◌,
  if◌then◌else◌, ◌⊎◌, inl, inr,
}
use flux_db.Values.Keys.{Key}
use flux_db.Page.Overflow
use flux_db.Wal.Record.{
  WalRecordType, Block, insert, set_x_max, commit, abort, leaf_split, internal_s_plit,
  insert_down_link, new_root, page_compact, mark_half_dead, unlink_page, checkpoint, overflow_write,
  overflow_free,
}
use flux_db.Wal.Reader.{WalRecord}
use flux_db.Recovery.Apply.{Pages, redo_blocks, redo_record}
use flux_db.Recovery.Gate.{ImagesWhole}
use flux_db.Recovery.Scan.{Scan, track, replay, scan_record, redo_overflow_free}
use flux_db.Recovery.Passes.{Result, ok, err, page_error}

module _ {ℓ} {K : Type ℓ} (key : Key K) where
  -- A step of the scan is the redo of blocks, whatever else the state holds.
  pub record Follows (rec : WalRecord) (step : Scan key → Option (Result (Scan key)))
      (blocks : List Block) : Type 0 where
    pub forward :
        (s s' : Scan key)
        → step s ≡ some (ok s')
        → redo_blocks key rec 0 blocks s.pages ≡ some (Overflow.ok s'.pages)
    pub back :
        (s : Scan key) (pages' : Pages key)
        → redo_blocks key rec 0 blocks s.pages ≡ some (Overflow.ok pages')
        → (s' : Scan key) × (step s ≡ some (ok s')) × (s'.pages ≡ pages')

  abbrev pub PagesIn : Option (Result (Scan key)) → Option (Overflow.Result (Pages key)) → Type 0
  PagesIn (some (ok s)) (some (Overflow.ok pages)) = s.pages ≡ pages
  PagesIn (some (ok s)) _ = ⊥
  PagesIn (some (err e)) (some (Overflow.ok pages)) = ⊥
  PagesIn none (some (Overflow.ok pages)) = ⊥
  PagesIn _ _ = Unit

  PagesIn-ok :
      (s' : Scan key) (r : Option (Overflow.Result (Pages key)))
      → PagesIn (some (ok s')) r
      → r ≡ some (Overflow.ok s'.pages)
  PagesIn-ok s' (some (Overflow.ok pages)) h = ap (λ q. some (Overflow.ok q)) (sym h)
  PagesIn-ok s' (some (Overflow.err e)) h = absurd h
  PagesIn-ok s' none h = absurd h

  ok-PagesIn :
      (o : Option (Result (Scan key))) (pages : Pages key)
      → PagesIn o (some (Overflow.ok pages))
      → (s' : Scan key) × (o ≡ some (ok s')) × (s'.pages ≡ pages)
  ok-PagesIn (some (ok s)) pages h = (s, refl, h)
  ok-PagesIn (some (err e)) pages h = absurd h
  ok-PagesIn none pages h = absurd h

  Follows-intro :
      (rec : WalRecord) (step : Scan key → Option (Result (Scan key))) (blocks : List Block)
      → ((s : Scan key) → PagesIn (step s) (redo_blocks key rec 0 blocks s.pages))
      → Follows rec step blocks
  Follows-intro rec step blocks h = record {
    forward = λ s s' e.
        PagesIn-ok s' (redo_blocks key rec 0 blocks s.pages)
          (subst (λ o. PagesIn o (redo_blocks key rec 0 blocks s.pages)) e (h s));
    back = λ s pages' e. ok-PagesIn (step s) pages' (subst (λ r. PagesIn (step s) r) e (h s));
  }

  abbrev Failed : Option (Result (Scan key)) → Type 0
  Failed (some (ok s)) = ⊥
  Failed _ = Unit

  module _ (rec : WalRecord) where
    -- A record that always fails, or the blocks that it redoes.
    abbrev pub Course : (Scan key → Option (Result (Scan key))) → Type 0
    Course step =
        ((s s' : Scan key) → step s ≢ some (ok s'))
        ⊎ ((blocks : List Block) × (ImagesWhole rec.blocks → ImagesWhole blocks)
            × Follows rec step blocks)

    idle-Course :
        (step : Scan key → Option (Result (Scan key)))
        → ((s : Scan key) → PagesIn (step s) (some (Overflow.ok s.pages)))
        → Course step
    unfolding redo_blocks
    idle-Course step h = inr ([], λ _. tt, Follows-intro rec step [] h)

    redo-Course :
        (below : Bool)
        → Course (λ s.
          let s = track key rec s in
          if below then some (ok s) else elim (redo_record key rec s.pages) [
            | none ↦ none
            | some (Overflow.err e) ↦ some (err (page_error e))
            | some (Overflow.ok pages) ↦ some (ok (record s { pages = pages }))
          ])
    unfolding track redo_record
    redo-Course true = idle-Course (λ s. some (ok (track key rec s))) (λ s. refl)
    redo-Course false = inr (
      rec.blocks,
      λ w. w,
      Follows-intro rec _ rec.blocks
          (λ s. mapped (track key rec s) (redo_blocks key rec 0 rec.blocks s.pages)),
    )
      where
        mapped :
            (s : Scan key) (r : Option (Overflow.Result (Pages key)))
            → PagesIn
                (elim r [
                  | none ↦ none
                  | some (Overflow.err e) ↦ some (err (page_error e))
                  | some (Overflow.ok pages) ↦ some (ok (record s { pages = pages }))
                ])
                r
        mapped s none = tt
        mapped s (some (Overflow.err e)) = tt
        mapped s (some (Overflow.ok pages)) = refl

    freed-Course :
        (below : Bool) → Course (λ s. replay key overflow_free below rec (track key rec s))
    unfolding track replay
    freed-Course true = idle-Course (λ s. some (ok (track key rec s))) (λ s. refl)
    freed-Course false = freed (redo_overflow_free rec)
      where
        freed :
            (r : Result (List ℕ))
            → Course (λ s. elim r [
              | err e ↦ some (err e)
              | ok ids ↦ some (ok (record (track key rec s) { deleted = ids ++ s.deleted }))
            ])
        freed (ok ids) =
            idle-Course (λ s. some (ok (record (track key rec s) { deleted = ids ++ s.deleted })))
              (λ s. refl)
        freed (err e) = inl (λ s s' h. absurd (subst Failed h tt))

    replay-Course :
        (t : WalRecordType) (below : Bool) → Course (λ s. replay key t below rec (track key rec s))
    unfolding replay track
    replay-Course commit below = idle-Course _ (λ s. refl)
    replay-Course abort below = idle-Course _ (λ s. refl)
    replay-Course checkpoint below = idle-Course _ (λ s. refl)
    replay-Course overflow_free below = freed-Course below
    replay-Course insert below = redo-Course below
    replay-Course set_x_max below = redo-Course below
    replay-Course leaf_split below = redo-Course below
    replay-Course internal_s_plit below = redo-Course below
    replay-Course insert_down_link below = redo-Course below
    replay-Course new_root below = redo-Course below
    replay-Course page_compact below = redo-Course below
    replay-Course mark_half_dead below = redo-Course below
    replay-Course unlink_page below = redo-Course below
    replay-Course overflow_write below = redo-Course below

    pub scan_record-Course : (redo_point : ℕ) → Course (scan_record key redo_point rec)
    unfolding scan_record
    scan_record-Course redo_point = replay-Course rec.entry_type (ltb rec.lsn redo_point)
