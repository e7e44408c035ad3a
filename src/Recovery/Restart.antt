-- ===== src/Recovery/Restart.antt =====
-- The second pass of crates/storage/src/recovery/mod.rs on the pages that a crash left.
use mathlib.Core.Path.{subst}
use flux_db.Common.{ℕ, ◌≤◌, ◌≡◌, ◌⊎◌, refl, sym, inl, inr, some, List, [], ◌∷◌, ◌++◌, arith, ◌∙◌}
use flux_db.Values.Keys.{Key}
use flux_db.Page.Bytes.{Page}
use flux_db.Page.Header.{page_lsn}
use flux_db.Wal.Error
use flux_db.Wal.Record.{Block}
use flux_db.Wal.Reader.{WalRecord}
use flux_db.Recovery.Apply.{Pages}
use flux_db.Recovery.Gate.{AllSized, Stamped}
use flux_db.Recovery.Mixed.{Mixed, Gated, redo_blocks-Mixed}
use flux_db.Recovery.Scan.{Scan, scan_record, scan}
use flux_db.Recovery.Passes.{Items, ok}
use flux_db.Recovery.Advance.{AllLogged, ok-injective, scan_record-Passed, scan-first, scan-Raises}

module _ {ℓ} {K : Type ℓ} (key : Key K) (redo_point : ℕ) where
  -- A page as some front of the log leaves it.
  pub record Reached (items : Items) (s : Scan key) (p : ℕ) (page : Page) : Type ℓ where
    pub front : Items
    pub rest : Items
    pub reached : Scan key
    pub splits : items ≡ front ++ rest
    pub scanned : scan key redo_point front s ≡ some (ok reached)
    pub at : page ≡ reached.pages p

  -- Each page in the state that it has behind some front of the log.
  abbrev pub Survives : Items → Scan key → Pages key → Type ℓ
  Survives items s pages = (p : ℕ) → Reached items s p (pages p)

  AllLogged-front : (front rest : Items) → AllLogged (front ++ rest) → AllLogged front
  AllLogged-front [] rest logged = tt
  AllLogged-front (Error.err e ∷ front) rest logged = AllLogged-front front rest logged
  AllLogged-front (Error.ok rec ∷ front) rest (one, logged) =
      (one, AllLogged-front front rest logged)

  -- A page is as it was before the first record, or it is behind it.
  Reached-step :
      (rec : WalRecord) (items : Items) (s s1 : Scan key) (p : ℕ) (page : Page)
      → scan_record key redo_point rec s ≡ some (ok s1)
      → Reached (Error.ok rec ∷ items) s p page
      → (page ≡ s.pages p) ⊎ Reached items s1 p page
  unfolding scan
  Reached-step rec items s s1 p page first r = go r.front r.splits r.scanned
    where
      go :
          (front : Items)
          → Path Items (Error.ok rec ∷ items) (front ++ r.rest)
          → scan key redo_point front s ≡ some (ok r.reached)
          → (page ≡ s.pages p) ⊎ Reached items s1 p page
      go [] splits scanned = inl (
          subst (λ q. page ≡ q.pages p) (sym (ok-injective key redo_point s r.reached scanned))
            r.at)
      go (x ∷ front) splits scanned =
          let tail : items ≡ front ++ r.rest = ground arith in
          let head : x ≡ Error.ok rec = ground arith in
          let (s1', first', rest) =
            scan-first key redo_point rec front s r.reached
              (subst (λ y. scan key redo_point (y ∷ front) s ≡ some (ok r.reached)) head scanned) in
          let same : s1' ≡ s1 = ok-injective key redo_point s1' s1 (sym first' ∙ first) in
          inr (record {
            front = front;
            rest = r.rest;
            reached = r.reached;
            splits = tail;
            scanned = subst (λ q. scan key redo_point front q ≡ some (ok r.reached)) same rest;
            at = r.at;
          })

  Reached-lsn :
      (items : Items) (s : Scan key) (p : ℕ) (page : Page)
      → AllSized key s.pages
      → AllLogged items
      → Reached items s p page
      → page_lsn (s.pages p) ≤ page_lsn page
  Reached-lsn items s p page sized logged r =
      let front_logged = AllLogged-front r.front r.rest (subst AllLogged r.splits logged) in
      let raises = scan-Raises key redo_point r.front s r.reached r.scanned sized front_logged in
      rw r.at (raises.grows p)

  Reached-Gated :
      (rec : WalRecord) (items : Items) (s : Scan key) (blocks : List Block)
      → AllSized key s.pages
      → AllLogged items
      → Stamped key rec.lsn blocks s.pages
      → Gated key rec (Reached items s) blocks
  Reached-Gated rec items s [] sized logged stamped = tt
  Reached-Gated rec items s (block ∷ blocks) sized logged (one, stamped) = (
    λ page r. omega (arith, one, Reached-lsn items s block.page_id page sized logged r),
    Reached-Gated rec items s blocks sized logged stamped,
  )

  Reached-nil :
      (items : Items) (s : Scan key) (p : ℕ) (page : Page)
      → page ≡ s.pages p
      → Reached items s p page
  unfolding scan
  Reached-nil items s p page e = record {
    front = [];
    rest = items;
    reached = s;
    splits = refl;
    scanned = refl;
    at = e;
  }

  Reached-none : (s : Scan key) (p : ℕ) (page : Page) → Reached [] s p page → page ≡ s.pages p
  unfolding scan
  Reached-none s p page r = go r.front r.splits r.scanned
    where
      go :
          (front : Items)
          → Path Items [] (front ++ r.rest)
          → scan key redo_point front s ≡ some (ok r.reached)
          → page ≡ s.pages p
      go [] splits scanned =
          subst (λ q. page ≡ q.pages p) (sym (ok-injective key redo_point s r.reached scanned)) r.at
      go (x ∷ front) splits scanned = ground arith

  Survives-Mixed :
      (rec : WalRecord) (items : Items) (s : Scan key) (pages pages' : Pages key)
      → pages' ≡ pages
      → Mixed key rec (Reached items s) s.pages pages
      → Survives items s pages'
  Survives-Mixed rec items s pages pages' same mixed =
      subst (Survives items s) (sym same)
        (λ p. elim (mixed p) [ inl e ↦ Reached-nil items s p (pages p) e | inr r ↦ r ])

  -- A second pass that succeeds on pages of the right size also does so, and with the same pages in the end, on any
  -- pages each of which is as some front of the log, its own, leaves it, whatever else the state holds.
  pub scan-Survives :
      (items : Items) (s s' t : Scan key)
      → scan key redo_point items s ≡ some (ok s')
      → AllSized key s.pages
      → AllLogged items
      → Survives items s t.pages
      → (t' : Scan key) × (scan key redo_point items t ≡ some (ok t'))
        × ((p : ℕ) → t'.pages p ≡ s'.pages p)
  unfolding scan
  scan-Survives [] s s' t e sized logged survives = (
    t,
    refl,
    λ p.
        subst (λ q. t.pages p ≡ q.pages p) (ok-injective key redo_point s s' e)
          (Reached-none s p (t.pages p) (survives p)),
  )
  scan-Survives (Error.err x ∷ items) s s' t e sized logged survives = ground arith
  scan-Survives (Error.ok rec ∷ items) s s' t e sized (one, logged) survives =
      let (s1, first, rest) = scan-first key redo_point rec items s s' e in
      let passed = scan_record-Passed key redo_point rec s s1 first sized one in
      let step = λ (p : ℕ). Reached-step rec items s s1 p (t.pages p) first (survives p) in
      let gated =
        Reached-Gated rec items s1 passed.blocks passed.raises.sized logged passed.stamped in
      let (pages, redone, mixed) =
        redo_blocks-Mixed key rec (Reached items s1) 0 passed.blocks s.pages s1.pages t.pages
          passed.redone gated step in
      let (t1, first', same) = passed.follows.back t pages redone in
      let (t', rest', ends) =
        scan-Survives items s1 s' t1 rest passed.raises.sized logged
          (Survives-Mixed rec items s1 pages t1.pages same mixed) in
      (t', rw (first', scan) rest', ends)
