-- ===== src/Recovery/Mixed.antt =====
-- The redo of blocks in crates/storage/src/recovery/mod.rs on pages some of which are from later.
use mathlib.Core.Path.{subst}
use flux_db.Common.{
  ℕ, suc, ◌≤◌, ◌≡◌, ◌⊎◌, refl, sym, ap, Bool, true, false, inl, inr, Option, none, some, List, [],
  ◌∷◌, leb, ◌==◌, arith, if◌then◌else◌, Bool-cases, ◌∙◌,
}
use flux_db.Values.Keys.{Key}
use flux_db.Page.Bytes.{Page}
use flux_db.Page.Header.{page_lsn, set_lsn}
use flux_db.Page.Overflow.{Result, ok, err}
use flux_db.Wal.Record.{Block}
use flux_db.Wal.Reader.{WalRecord}
use flux_db.Recovery.Apply.{Pages, put, redone, redo_block, redo_blocks}

module _ {ℓ} {K : Type ℓ} (key : Key K) (rec : WalRecord) where
  -- The page that the redo of a block leaves, of the page before it.
  changed : ℕ → Block → Page → Option (Result Page)
  changed i block page =
      if leb rec.lsn (page_lsn page) then some (ok page) else elim (redone key rec i block page) [
        | none ↦ none
        | some (err e) ↦ some (err e)
        | some (ok page') ↦ some (ok (set_lsn page' rec.lsn))
      ]

  module _ (i : ℕ) (block : Block) where
    -- Pages with the block's page replaced.
    abbrev Put : Pages key → Page → Pages key → Type 0
    Put pages page pages' = (p : ℕ) → pages' p ≡ (if p == block.page_id then page else pages p)

    abbrev Puts : Pages key → Option (Result (Pages key)) → Option (Result Page) → Type 0
    Puts pages (some (ok pages')) (some (ok page)) = Put pages page pages'
    Puts pages (some (ok pages')) _ = ⊥
    Puts pages _ (some (ok page)) = ⊥
    Puts pages _ _ = Unit

    redo_block-Puts :
        (pages : Pages key)
        → Puts pages (redo_block key rec i block pages) (changed i block (pages block.page_id))
    unfolding redo_block changed
    redo_block-Puts pages =
        let id = block.page_id in
        by_gate (leb rec.lsn (page_lsn (pages id))) (redone key rec i block (pages id))
      where
        by_gate :
            (b : Bool) (o : Option (Result Page))
            → Puts pages
                (if b then some (ok pages) else elim o [
                  | none ↦ none
                  | some (err e) ↦ some (err e)
                  | some (ok page') ↦
                      some (ok (put key pages block.page_id (set_lsn page' rec.lsn)))
                ])
                (if b then some (ok (pages block.page_id)) else elim o [
                  | none ↦ none
                  | some (err e) ↦ some (err e)
                  | some (ok page') ↦ some (ok (set_lsn page' rec.lsn))
                ])
        by_gate true o = λ p. elim (Bool-cases (p == block.page_id)) [
          | inl e ↦ rw e (let same : p ≡ block.page_id = ground arith in ap pages same)
          | inr e ↦ rw e refl
        ]
        by_gate false none = tt
        by_gate false (some (err e)) = tt
        by_gate false (some (ok page')) = λ p. refl

    done_of :
        (pages pages' : Pages key) (c : Option (Result Page))
        → Puts pages (some (ok pages')) c
        → (page : Page) × (c ≡ some (ok page)) × Put pages page pages'
    done_of pages pages' (some (ok page)) h = (page, refl, h)
    done_of pages pages' (some (err e)) h = absurd h
    done_of pages pages' none h = absurd h

    done_by :
        (pages : Pages key) (page : Page) (o : Option (Result (Pages key)))
        → Puts pages o (some (ok page))
        → (pages' : Pages key) × (o ≡ some (ok pages')) × Put pages page pages'
    done_by pages page (some (ok pages')) h = (pages', refl, h)
    done_by pages page (some (err e)) h = absurd h
    done_by pages page none h = absurd h

    redo_block-Put :
        (pages pages' : Pages key)
        → redo_block key rec i block pages ≡ some (ok pages')
        → (page : Page) × (changed i block (pages block.page_id) ≡ some (ok page))
          × Put pages page pages'
    redo_block-Put pages pages' e = done_of pages pages' (changed i block (pages block.page_id)) (
        subst (λ o. Puts pages o (changed i block (pages block.page_id))) e (redo_block-Puts pages))

    Put-redo_block :
        (pages : Pages key) (page : Page)
        → changed i block (pages block.page_id) ≡ some (ok page)
        → (pages' : Pages key) × (redo_block key rec i block pages ≡ some (ok pages'))
          × Put pages page pages'
    Put-redo_block pages page e =
        done_by pages page (redo_block key rec i block pages)
          (subst (λ c. Puts pages (redo_block key rec i block pages) c) e (redo_block-Puts pages))

    gated-changed : (page : Page) → rec.lsn ≤ page_lsn page → changed i block page ≡ some (ok page)
    unfolding changed
    gated-changed page h = rw (let e : leb rec.lsn (page_lsn page) ≡ true = ground arith in e) refl

  module _ {κ} (Later : ℕ → Page → Type κ) where
    -- Each page is the one of the scan, or one from later.
    abbrev pub Mixed : Pages key → Pages key → Type κ
    Mixed s t = (p : ℕ) → (t p ≡ s p) ⊎ Later p (t p)

    -- Pages from later are gated.
    abbrev pub Gated : List Block → Type κ
    Gated [] = Unit
    Gated (block ∷ blocks) =
        ((page : Page) → Later block.page_id page → rec.lsn ≤ page_lsn page) × Gated blocks

    Mixed-Put :
        (block : Block) (i : ℕ) (s s' t t' : Pages key) (page page' : Page)
        → Put i block s page s'
        → Put i block t page' t'
        → (page' ≡ page) ⊎ Later block.page_id page'
        → Mixed s t
        → Mixed s' t'
    Mixed-Put block i s s' t t' page page' ps pt at m p =
        subst (λ q. (q ≡ s' p) ⊎ Later p q) (sym (pt p))
          (subst
            (λ q.
              ((if p == block.page_id then page' else t p) ≡ q)
              ⊎ Later p (if p == block.page_id then page' else t p))
            (sym (ps p))
            (elim (Bool-cases (p == block.page_id)) [
              | inl e ↦ rw e (let same : p ≡ block.page_id = ground arith in rw same at)
              | inr e ↦ rw e (m p)
            ]))

    redo_block-Mixed :
        (i : ℕ) (block : Block) (s s' t : Pages key)
        → redo_block key rec i block s ≡ some (ok s')
        → ((page : Page) → Later block.page_id page → rec.lsn ≤ page_lsn page)
        → Mixed s t
        → (t' : Pages key) × (redo_block key rec i block t ≡ some (ok t')) × Mixed s' t'
    redo_block-Mixed i block s s' t e gate m =
        let (page, c, ps) = redo_block-Put i block s s' e in
        elim (m block.page_id) [
          | inl same ↦
              let (t', d, pt) = Put-redo_block i block t page (ap (changed i block) same ∙ c) in
              (t', d, Mixed-Put block i s s' t t' page page ps pt (inl refl) m)
          | inr later ↦
              let (t', d, pt) =
                Put-redo_block i block t (t block.page_id)
                  (gated-changed i block (t block.page_id) (gate (t block.page_id) later)) in
              (t', d, Mixed-Put block i s s' t t' page (t block.page_id) ps pt (inr later) m)
        ]

    pub redo_blocks-Mixed :
        (i : ℕ) (blocks : List Block) (s s' t : Pages key)
        → redo_blocks key rec i blocks s ≡ some (ok s')
        → Gated blocks
        → Mixed s t
        → (t' : Pages key) × (redo_blocks key rec i blocks t ≡ some (ok t')) × Mixed s' t'
    unfolding redo_blocks
    redo_blocks-Mixed i [] s s' t e g m =
        let same : s ≡ s' = ground arith in
        (t, refl, λ p. subst (λ q. (t p ≡ q p) ⊎ Later p (t p)) same (m p))
    redo_blocks-Mixed i (block ∷ blocks) s s' t e (gate, g) m =
        let (s1, e1, e2) = first_of (redo_block key rec i block s) e in
        let (t1, d1, m1) = redo_block-Mixed i block s s1 t e1 gate m in
        let (t', d2, m2) = redo_blocks-Mixed (suc i) blocks s1 s' t1 e2 g m1 in
        (t', rw (d1, redo_blocks) d2, m2)
      where
        first_of :
            (o : Option (Result (Pages key)))
            → elim o [
              | none ↦ none
              | some (err e) ↦ some (err e)
              | some (ok pages') ↦ redo_blocks key rec (suc i) blocks pages'
            ]
              ≡ some (ok s')
            → (s1 : Pages key) × (o ≡ some (ok s1))
              × (redo_blocks key rec (suc i) blocks s1 ≡ some (ok s'))
        first_of (some (ok s1)) h = (s1, refl, h)
        first_of (some (err e)) h = ground arith
        first_of none h = ground arith
