-- ===== src/Recovery/Advance.antt =====
-- One record of the second pass of crates/storage/src/recovery/mod.rs, and the LSNs over all of them.
use mathlib.Core.Path.{subst}
use flux_db.Common.{ℕ, ◌≡◌, refl, ap, inl, inr, Option, none, some, List, [], ◌∷◌, arith}
use flux_db.Values.Keys.{Key}
use flux_db.Page.Overflow
use flux_db.Wal.Error
use flux_db.Wal.Record.{Block}
use flux_db.Wal.Reader.{WalRecord}
use flux_db.Recovery.Apply.{redo_blocks}
use flux_db.Recovery.Gate.{
  IsLogged, AllSized, Raises, Raises-self, Raises-trans, Stamped, AfterBlocks,
  redo_blocks-AfterBlocks,
}
use flux_db.Recovery.Follows.{Course, Follows, scan_record-Course}
use flux_db.Recovery.Scan.{Scan, scan_record, scan}
use flux_db.Recovery.Passes.{Items, Result, ok, err}

-- The records of a log that can have been written.
abbrev pub AllLogged : Items → Type 0
AllLogged [] = Unit
AllLogged (Error.err e ∷ items) = AllLogged items
AllLogged (Error.ok rec ∷ items) = IsLogged rec × AllLogged items

module _ {ℓ} {K : Type ℓ} (key : Key K) (redo_point : ℕ) where
  pub ok-injective :
      (s s' : Scan key) → Path (Option (Result (Scan key))) (some (ok s)) (some (ok s')) → s ≡ s'
  ok-injective s s' e = ap (λ o. elim o [ some (ok x) ↦ x | _ ↦ s ]) e

  -- A record that the scan has got past.
  pub record Passed (rec : WalRecord) (s s' : Scan key) : Type 0 where
    pub blocks : List Block
    pub follows : Follows key rec (scan_record key redo_point rec) blocks
    pub redone : redo_blocks key rec 0 blocks s.pages ≡ some (Overflow.ok s'.pages)
    pub raises : Raises key s.pages s'.pages
    pub stamped : Stamped key rec.lsn blocks s'.pages

  pub scan_record-Passed :
      (rec : WalRecord) (s s' : Scan key)
      → scan_record key redo_point rec s ≡ some (ok s')
      → AllSized key s.pages
      → IsLogged rec
      → Passed rec s s'
  scan_record-Passed rec s s' e sized logged = go (scan_record-Course key rec redo_point)
    where
      go : Course key rec (scan_record key redo_point rec) → Passed rec s s'
      go (inl fails) = absurd (fails s s' e)
      go (inr (blocks, whole, follows)) =
          let redone = follows.forward s s' e in
          let (raises, stamped) =
            subst (λ o. AfterBlocks key rec.lsn blocks s.pages o) redone
              (redo_blocks-AfterBlocks key rec 0 blocks s.pages sized logged.lsn_bound
                (whole logged.images)) in
          record {
            blocks = blocks;
            follows = follows;
            redone = redone;
            raises = raises;
            stamped = stamped;
          }

  -- The first record of a scan, and the others.
  pub scan-first :
      (rec : WalRecord) (items : Items) (s s' : Scan key)
      → scan key redo_point (Error.ok rec ∷ items) s ≡ some (ok s')
      → (s1 : Scan key) × (scan_record key redo_point rec s ≡ some (ok s1))
        × (scan key redo_point items s1 ≡ some (ok s'))
  unfolding scan
  scan-first rec items s s' e = first_of (scan_record key redo_point rec s) e
    where
      first_of :
          (o : Option (Result (Scan key)))
          → elim o [
            | none ↦ none
            | some (err e) ↦ some (err e)
            | some (ok s1) ↦ scan key redo_point items s1
          ]
            ≡ some (ok s')
          → (s1 : Scan key) × (o ≡ some (ok s1)) × (scan key redo_point items s1 ≡ some (ok s'))
      first_of (some (ok s1)) h = (s1, refl, h)
      first_of (some (err e)) h = ground arith
      first_of none h = ground arith

  pub scan-Raises :
      (items : Items) (s s' : Scan key)
      → scan key redo_point items s ≡ some (ok s')
      → AllSized key s.pages
      → AllLogged items
      → Raises key s.pages s'.pages
  unfolding scan
  scan-Raises [] s s' e sized logged =
      subst (λ q. Raises key s.pages q.pages) (ok-injective s s' e) (Raises-self key s.pages sized)
  scan-Raises (Error.err x ∷ items) s s' e sized logged = ground arith
  scan-Raises (Error.ok rec ∷ items) s s' e sized (one, logged) =
      let (s1, first, rest) = scan-first rec items s s' e in
      let passed = scan_record-Passed rec s s1 first sized one in
      Raises-trans key passed.raises (scan-Raises items s1 s' rest passed.raises.sized logged)
