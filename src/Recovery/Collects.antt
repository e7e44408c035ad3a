-- ===== src/Recovery/Collects.antt =====
-- What the second pass of crates/storage/src/recovery/mod.rs collects over the log.
use mathlib.Core.Path.{subst}
use Prim.Native.Nat.{max}
use flux_db.Common.{
  ℕ, ◌<◌, ◌≤◌, ◌≡◌, ◌≢◌, refl, ap, Bool, true, false, ◌||◌, some, List, [], ◌∷◌, ltb, ◌==◌, arith,
  ◌∙◌, contains, get, Bool-cases, inl, inr,
}
use flux_db.Values.Keys.{Key}
use flux_db.Wal.Error
use flux_db.Wal.Record.{Block}
use flux_db.Wal.Reader.{WalRecord}
use flux_db.Recovery.Outcomes.{logged_outcome, names, Kept, Keeps, replay-Keeps}
use flux_db.Recovery.Advance.{ok-injective, scan-first}
use flux_db.Recovery.Scan.{Scan, track, scan_record, scan, see, max_block}
use flux_db.Recovery.Passes.{Items, ok}

-- That a block of the log is of the page.
abbrev pub touched : ℕ → List Block → Bool
touched page_id [] = false
touched page_id (block ∷ blocks) = page_id == block.page_id || touched page_id blocks

abbrev pub touches : ℕ → Items → Bool
touches page_id [] = false
touches page_id (Error.err e ∷ items) = touches page_id items
touches page_id (Error.ok rec ∷ items) = touched page_id rec.blocks || touches page_id items

-- The ids of the log are below a bound.
abbrev pub IdsBelow : ℕ → Items → Type 0
IdsBelow bound items =
    ((txn_id : ℕ) → names txn_id items ≡ true → txn_id < bound)
    × ((page_id : ℕ) → touches page_id items ≡ true → page_id < bound)

contains-see : (t id : ℕ) (seen : List ℕ) → contains (see t seen) id ≡ (id == t || contains seen id)
contains-see t id seen = elim (Bool-cases (contains seen t)) [
  | inl e ↦ elim (Bool-cases (id == t)) [
    | inl same ↦ let at : id ≡ t = ground arith in ground (arith, ap (contains seen) at)
    | inr other ↦ ground arith
  ]
  | inr e ↦ ground arith
]

max_block-le : (n : ℕ) (blocks : List Block) → n ≤ max_block n blocks
max_block-le n [] = omega arith
max_block-le n (block ∷ blocks) = omega (arith, max_block-le (max n block.page_id) blocks)

max_block-touched :
    (n page_id : ℕ) (blocks : List Block)
    → touched page_id blocks ≡ true
    → page_id ≤ max_block n blocks
max_block-touched n page_id [] h = ground arith
max_block-touched n page_id (block ∷ blocks) h = elim (Bool-cases (page_id == block.page_id)) [
  | inl e ↦
      let same : page_id ≡ block.page_id = ground arith in
      omega (arith, max_block-le (max n block.page_id) blocks)
  | inr e ↦ max_block-touched (max n block.page_id) page_id blocks (ground arith)
]

max_block-below :
    (n bound : ℕ) (blocks : List Block)
    → n < bound
    → ((page_id : ℕ) → touched page_id blocks ≡ true → page_id < bound)
    → max_block n blocks < bound
max_block-below n bound [] b h = b
max_block-below n bound (block ∷ blocks) b h =
    max_block-below (max n block.page_id) bound blocks
      (omega (arith, h block.page_id (ground arith))) (λ page_id t. h page_id (ground arith))

module _ {ℓ} {K : Type ℓ} (key : Key K) (redo_point : ℕ) where
  -- What the fields besides the pages hold behind a scan.
  pub record Collected (items : Items) (s s' : Scan key) : Type 0 where
    pub status :
        (txn_id : ℕ) → get txn_id s'.tm.clog ≡ logged_outcome txn_id items (get txn_id s.tm.clog)
    pub next_txn_id : s'.tm.next_txn_id ≡ s.tm.next_txn_id
    pub seen :
        (txn_id : ℕ)
        → txn_id ≢ 0
        → contains s'.seen txn_id ≡ (contains s.seen txn_id || names txn_id items)
    pub least : (s.max_txn ≤ s'.max_txn) × (s.max_page_id ≤ s'.max_page_id)
    pub txns : (txn_id : ℕ) → names txn_id items ≡ true → txn_id ≤ s'.max_txn
    pub pages : (page_id : ℕ) → touches page_id items ≡ true → page_id ≤ s'.max_page_id
    pub below :
        (bound : ℕ)
        → IdsBelow bound items
        → s.max_txn < bound
        → s.max_page_id < bound
        → (s'.max_txn < bound) × (s'.max_page_id < bound)

  Kept-scan_record :
      (rec : WalRecord) (s s' : Scan key)
      → scan_record key redo_point rec s ≡ some (ok s')
      → Kept key rec.entry_type rec (track key rec s) s'
  unfolding scan_record
  Kept-scan_record rec s s' e =
      let tracked = track key rec s in
      subst (Keeps key rec.entry_type rec tracked) e
        (replay-Keeps key rec tracked rec.entry_type (ltb rec.lsn redo_point))

  track-seen :
      (rec : WalRecord) (s : Scan key) (txn_id : ℕ)
      → txn_id ≢ 0
      → contains (track key rec s).seen txn_id ≡ (txn_id == rec.txn_id || contains s.seen txn_id)
  unfolding track
  track-seen rec s txn_id n = elim (Bool-cases (rec.txn_id == 0)) [
    | inl e ↦ rw e (let other : (txn_id == rec.txn_id) ≡ false = ground arith in rw other refl)
    | inr e ↦ rw e (contains-see rec.txn_id txn_id s.seen)
  ]

  track-txns :
      (rec : WalRecord) (s : Scan key) (bound : ℕ)
      → (s.max_txn ≤ (track key rec s).max_txn)
        × (rec.txn_id ≤ (track key rec s).max_txn)
        × (s.max_txn < bound → rec.txn_id < bound → (track key rec s).max_txn < bound)
  unfolding track
  track-txns rec s bound = elim (Bool-cases (rec.txn_id == 0)) [
    | inl e ↦ rw e (
        let none_seen : rec.txn_id ≡ 0 = ground arith in
        (omega arith, omega (arith, none_seen), λ a b. a))
    | inr e ↦ rw e (omega arith, omega arith, λ a b. omega (arith, a, b))
  ]

  Collected-more :
      (rec : WalRecord) (items : Items) (s s1 s' : Scan key)
      → Kept key rec.entry_type rec (track key rec s) s1
      → Collected items s1 s'
      → Collected (Error.ok rec ∷ items) s s'
  unfolding track
  Collected-more rec items s s1 s' kept c = record {
    status = λ txn_id. c.status txn_id ∙ ap (logged_outcome txn_id items) (kept.status txn_id);
    next_txn_id = c.next_txn_id ∙ kept.next_txn_id;
    seen = λ txn_id n. more_seen txn_id n;
    least = (
      omega (arith, c.least, kept.max_txn, track-txns rec s 0),
      omega (arith, c.least, kept.max_page_id, max_block-le s.max_page_id rec.blocks),
    );
    txns = λ txn_id h. elim (Bool-cases (names txn_id items)) [
      | inl e ↦ c.txns txn_id e
      | inr e ↦
          let same : txn_id ≡ rec.txn_id = ground arith in
          omega (arith, same, c.least, kept.max_txn, track-txns rec s 0)
    ];
    pages = λ page_id h. elim (Bool-cases (touches page_id items)) [
      | inl e ↦ c.pages page_id e
      | inr e ↦ omega (
        arith,
        c.least,
        kept.max_page_id,
        max_block-touched s.max_page_id page_id rec.blocks (ground arith),
      )
    ];
    below = λ bound (ids, pages) a b.
        let (_, _, txn) = track-txns rec s bound in
        let page =
          max_block-below s.max_page_id bound rec.blocks b
            (λ page_id t. pages page_id (ground arith)) in
        c.below bound
          (λ txn_id h. ids txn_id (ground arith), λ page_id h. pages page_id (ground arith))
          (rw kept.max_txn (txn a (ids rec.txn_id (ground arith)))) (rw kept.max_page_id page);
  }
    where
      more_seen :
          (txn_id : ℕ)
          → txn_id ≢ 0
          → contains s'.seen txn_id
            ≡ (contains s.seen txn_id || (txn_id == rec.txn_id || names txn_id items))
      more_seen txn_id n =
          let later = c.seen txn_id n in
          let first = ap (λ ids. contains ids txn_id) kept.seen ∙ track-seen rec s txn_id n in
          ground arith

  pub scan-Collected :
      (items : Items) (s s' : Scan key)
      → scan key redo_point items s ≡ some (ok s')
      → Collected items s s'
  unfolding scan
  scan-Collected [] s s' e =
      subst (λ q. Collected [] s q) (ok-injective key redo_point s s' e)
        (record {
          status = λ txn_id. refl;
          next_txn_id = refl;
          seen = λ txn_id n. ground arith;
          least = (omega arith, omega arith);
          txns = λ txn_id h. ground arith;
          pages = λ page_id h. ground arith;
          below = λ bound h a b. (a, b);
        })
  scan-Collected (Error.err x ∷ items) s s' e = ground arith
  scan-Collected (Error.ok rec ∷ items) s s' e =
      let (s1, first, rest) = scan-first key redo_point rec items s s' e in
      Collected-more rec items s s1 s' (Kept-scan_record rec s s1 first)
        (scan-Collected items s1 s' rest)
