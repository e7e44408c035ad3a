-- ===== src/Recovery/Gate.antt =====
-- The LSN gate of `redo_record` in crates/storage/src/recovery/mod.rs.
use mathlib.Core.Path.{subst}
use flux_db.Common.{
  ℕ, suc, ◌^◌, ◌<◌, ◌≤◌, ◌≡◌, refl, true, inl, inr, Option, none, some, List, [], ◌∷◌, length, leb,
  leb→le, ◌==◌, arith, ◌∙◌, if_cases, Bool-cases,
}
use flux_db.Values.Keys.{Key}
use flux_db.Page.Bytes.{Page, length-write_le, read_le-write_le_self}
use flux_db.Page.Header.{page_lsn, set_lsn, page_size}
use flux_db.Page.Overflow.{Result, ok, err}
use flux_db.Wal.Record.{Block}
use flux_db.Wal.Reader.{WalRecord}
use flux_db.Recovery.Apply.{Pages, put, redone, redo_block, redo_blocks, redo_record, apply_data}
use flux_db.Recovery.Sizes.{Sized, apply_data-Sized}

-- Images are whole pages.
abbrev pub ImagesWhole : List Block → Type 0
ImagesWhole [] = Unit
ImagesWhole (block ∷ rest) =
    ((image : List ℕ) → block.fpi ≡ some image → length image ≡ page_size) × ImagesWhole rest

pub record IsLogged (rec : WalRecord) : Type 0 where
  pub lsn_bound : rec.lsn < 2 ^ 64
  pub images : ImagesWhole rec.blocks

set_lsn_lem :
    (page : Page) (lsn : ℕ)
    → length page ≡ page_size
    → lsn < 2 ^ 64
    → (length (set_lsn page lsn) ≡ page_size) × (page_lsn (set_lsn page lsn) ≡ lsn)
unfolding set_lsn page_lsn
set_lsn_lem page lsn full b = (
  length-write_le 8 page 16 lsn ∙ full,
  read_le-write_le_self 8 page 16 lsn (omega (arith, full)) (omega arith),
)

module _ {ℓ} {K : Type ℓ} (key : Key K) where
  abbrev pub AllSized : Pages key → Type 0
  AllSized pages = (p : ℕ) → length (pages p) ≡ page_size

  -- No page's LSN goes back.
  pub record Raises (pages pages' : Pages key) : Type 0 where
    pub sized : AllSized pages'
    pub grows : (p : ℕ) → page_lsn (pages p) ≤ page_lsn (pages' p)

  -- The pages of blocks have been stamped with an LSN or a later one.
  abbrev pub Stamped : ℕ → List Block → Pages key → Type 0
  Stamped lsn [] pages = Unit
  Stamped lsn (block ∷ rest) pages = (lsn ≤ page_lsn (pages block.page_id)) × Stamped lsn rest pages

  pub Raises-self : (pages : Pages key) → AllSized pages → Raises pages pages
  Raises-self pages sized = record { sized = sized; grows = λ p. omega arith }

  pub Raises-trans : {a b c : Pages key} → Raises a b → Raises b c → Raises a c
  Raises-trans h g = record { sized = g.sized; grows = λ p. omega (arith, h.grows p, g.grows p) }

  pub Stamped-Raises :
      (lsn : ℕ) (blocks : List Block) (pages pages' : Pages key)
      → Raises pages pages'
      → Stamped lsn blocks pages
      → Stamped lsn blocks pages'
  Stamped-Raises lsn [] pages pages' h s = tt
  Stamped-Raises lsn (block ∷ rest) pages pages' h (one, s) =
      (omega (arith, h.grows block.page_id), Stamped-Raises lsn rest pages pages' h s)

  module _ (pages : Pages key) (sized : AllSized pages) where
    put-Raises :
        (id : ℕ) (page : Page)
        → length page ≡ page_size
        → page_lsn (pages id) ≤ page_lsn page
        → Raises pages (put key pages id page)
    put-Raises id page full more = record {
      sized = λ p.
          if_cases (λ (q : Page). length q ≡ page_size) (p == id) page (pages p) (λ _. full)
            (λ _. sized p);
      grows = λ p. elim (Bool-cases (p == id)) [
        | inl e ↦
            let same : p ≡ id = ground arith in
            rw same (let at : (id == id) ≡ true = ground arith in rw at more)
        | inr e ↦ rw e (omega arith)
      ];
    }

    -- What a block's redo gives.
    abbrev AfterBlock : ℕ → Block → Option (Result (Pages key)) → Type 0
    AfterBlock lsn block none = Unit
    AfterBlock lsn block (some (err e)) = Unit
    AfterBlock lsn block (some (ok pages')) =
        Raises pages pages' × (lsn ≤ page_lsn (pages' block.page_id))

    redone-Sized :
        (rec : WalRecord) (i : ℕ) (block : Block)
        → ((image : List ℕ) → block.fpi ≡ some image → length image ≡ page_size)
        → Sized page_size (redone key rec i block (pages block.page_id))
    unfolding redone
    redone-Sized rec i block whole = go block.fpi whole
      where
        go :
            (fpi : Option (List ℕ))
            → ((image : List ℕ) → fpi ≡ some image → length image ≡ page_size)
            → Sized page_size (elim fpi [
              | some image ↦ some (ok image)
              | none ↦ apply_data key rec.entry_type i block.data_bytes (pages block.page_id)
            ])
        go none w =
            subst
              (λ n.
                Sized n (apply_data key rec.entry_type i block.data_bytes (pages block.page_id)))
              (sized block.page_id)
              (apply_data-Sized key rec.entry_type i block.data_bytes (pages block.page_id))
        go (some image) w = w image refl

    stamp-AfterBlock :
        (lsn : ℕ) (block : Block) (o : Option (Result Page))
        → lsn < 2 ^ 64
        → page_lsn (pages block.page_id) ≤ lsn
        → Sized page_size o
        → AfterBlock lsn block (elim o [
          | none ↦ none
          | some (err e) ↦ some (err e)
          | some (ok page') ↦ some (ok (put key pages block.page_id (set_lsn page' lsn)))
        ])
    stamp-AfterBlock lsn block none b l h = tt
    stamp-AfterBlock lsn block (some (err e)) b l h = tt
    stamp-AfterBlock lsn block (some (ok page')) b l h =
        let (full, stamp) = set_lsn_lem page' lsn h b in
        let at : (block.page_id == block.page_id) ≡ true = ground arith in
        (put-Raises block.page_id (set_lsn page' lsn) full (omega arith), rw at (omega arith))

    redo_block-AfterBlock :
        (rec : WalRecord) (i : ℕ) (block : Block)
        → rec.lsn < 2 ^ 64
        → ((image : List ℕ) → block.fpi ≡ some image → length image ≡ page_size)
        → AfterBlock rec.lsn block (redo_block key rec i block pages)
    unfolding redo_block
    redo_block-AfterBlock rec i block b whole =
        let page = pages block.page_id in
        if_cases (AfterBlock rec.lsn block) (leb rec.lsn (page_lsn page)) (some (ok pages)) _
          (λ e.
            (record { sized = sized; grows = λ p. omega arith }, leb→le rec.lsn (page_lsn page) e))
          (λ e.
            stamp-AfterBlock rec.lsn block (redone key rec i block page) b (ground arith)
              (redone-Sized rec i block whole))

  abbrev pub AfterBlocks : ℕ → List Block → Pages key → Option (Result (Pages key)) → Type 0
  AfterBlocks lsn blocks pages none = Unit
  AfterBlocks lsn blocks pages (some (err e)) = Unit
  AfterBlocks lsn blocks pages (some (ok pages')) = Raises pages pages' × Stamped lsn blocks pages'

  behind-AfterBlocks :
      (lsn : ℕ) (block : Block) (rest : List Block) (pages pages' : Pages key)
      (o : Option (Result (Pages key)))
      → Raises pages pages'
      → lsn ≤ page_lsn (pages' block.page_id)
      → AfterBlocks lsn rest pages' o
      → AfterBlocks lsn (block ∷ rest) pages o
  behind-AfterBlocks lsn block rest pages pages' none h s g = tt
  behind-AfterBlocks lsn block rest pages pages' (some (err e)) h s g = tt
  behind-AfterBlocks lsn block rest pages pages' (some (ok pages'')) h s (g, stamps) =
      (Raises-trans h g, (omega (arith, g.grows block.page_id), stamps))

  blocks-AfterBlocks :
      (pages : Pages key) (sized : AllSized pages) (rec : WalRecord) (i : ℕ) (block : Block)
      (rest : List Block)
      → ((pages' : Pages key)
          → AllSized pages'
          → AfterBlocks rec.lsn rest pages' (redo_blocks key rec (suc i) rest pages'))
      → (o : Option (Result (Pages key))) → AfterBlock pages sized rec.lsn block o
      → AfterBlocks rec.lsn (block ∷ rest) pages (elim o [
        | none ↦ none
        | some (err e) ↦ some (err e)
        | some (ok pages') ↦ redo_blocks key rec (suc i) rest pages'
      ])
  blocks-AfterBlocks pages sized rec i block rest next none h = tt
  blocks-AfterBlocks pages sized rec i block rest next (some (err e)) h = tt
  blocks-AfterBlocks pages sized rec i block rest next (some (ok pages')) (h, s) =
      behind-AfterBlocks rec.lsn block rest pages pages' (redo_blocks key rec (suc i) rest pages') h
        s (next pages' h.sized)

  pub redo_blocks-AfterBlocks :
      (rec : WalRecord) (i : ℕ) (blocks : List Block) (pages : Pages key)
      → AllSized pages
      → rec.lsn < 2 ^ 64
      → ImagesWhole blocks
      → AfterBlocks rec.lsn blocks pages (redo_blocks key rec i blocks pages)
  unfolding redo_blocks
  redo_blocks-AfterBlocks rec i [] pages sized b w =
      (record { sized = sized; grows = λ p. omega arith }, tt)
  redo_blocks-AfterBlocks rec i (block ∷ rest) pages sized b (whole, w) =
      blocks-AfterBlocks pages sized rec i block rest
        (λ pages' h. redo_blocks-AfterBlocks rec (suc i) rest pages' h b w)
        (redo_block key rec i block pages) (redo_block-AfterBlock pages sized rec i block b whole)

  pub redo_record-Stamped :
      (rec : WalRecord) (pages : Pages key)
      → AllSized pages
      → IsLogged rec
      → AfterBlocks rec.lsn rec.blocks pages (redo_record key rec pages)
  unfolding redo_record
  redo_record-Stamped rec pages sized logged =
      redo_blocks-AfterBlocks rec 0 rec.blocks pages sized logged.lsn_bound logged.images

  skips :
      (rec : WalRecord) (i : ℕ) (blocks : List Block) (pages : Pages key)
      → Stamped rec.lsn blocks pages
      → redo_blocks key rec i blocks pages ≡ some (ok pages)
  unfolding redo_blocks redo_block
  skips rec i [] pages s = refl
  skips rec i (block ∷ rest) pages (one, s) =
      let gated : leb rec.lsn (page_lsn (pages block.page_id)) ≡ true = ground arith in
      rw (gated, redo_blocks) (skips rec (suc i) rest pages s)

  -- A record whose pages are all stamped is skipped.
  pub redo_record-skips :
      (rec : WalRecord) (pages : Pages key)
      → Stamped rec.lsn rec.blocks pages
      → redo_record key rec pages ≡ some (ok pages)
  unfolding redo_record
  redo_record-skips rec pages s = skips rec 0 rec.blocks pages s
