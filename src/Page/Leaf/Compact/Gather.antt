-- ===== src/Page/Leaf/Compact/Gather.antt =====
-- What the loop of `compact`, crates/storage/src/page/leaf.rs, collects: the records that are not
-- vacuumable, and of the others their number and the heads of their overflow chains.
use flux_db.Common.{
  ℕ, zero, suc, ◌+◌, ◌≤◌, ◌≡◌, inl, inr, refl, Bool, Option, none, some, List, [], ◌∷◌, arith,
  collect, Bool-cases, ◌==◌, if◌then◌else◌, if_cases,
}
use flux_db.Mvcc.State.{TransactionManager}
use flux_db.Mvcc.Visibility.{is_vacuumable}
use flux_db.Values.Keys.{Key}
use flux_db.Page.Bytes.{Page}
use flux_db.Page.Overflow.{from_bytes, OverflowDescriptor}
use flux_db.Page.Leaf.{accessor, rec_type_overflow, overflow_descriptor}
use flux_db.Page.Leaf.Mutate.{LeafRecord}
use flux_db.Page.Leaf.Valid.{entry}
use flux_db.Page.Leaf.Build.Push.{space_of, AllStorable}
use flux_db.Page.Leaf.Compact.{Gathered, gather, encode_again, orphan}

unfoldable pub descriptor_of : LeafRecord → Option OverflowDescriptor
descriptor_of r = if r.rec_type == rec_type_overflow then from_bytes r.val else none

-- The keys are encodings, which decode and encode to the same bytes.
abbrev pub AllEncode {ℓ} : {A : Type ℓ} → Key A → List LeafRecord → Type 0
AllEncode key [] = Unit
AllEncode key (r ∷ rest) = (encode_again key r.key ≡ some r.key) × AllEncode key rest

module _ (horizon : ℕ) (tm : TransactionManager) where
  abbrev pub is_dead : LeafRecord → Bool
  is_dead r = is_vacuumable r.xmin r.xmax horizon tm

  -- The records that are not vacuumable, in order.
  unfoldable pub survivors : List LeafRecord → List LeafRecord
  survivors [] = []
  survivors (r ∷ rest) = let kept = survivors rest in if is_dead r then kept else r ∷ kept

  -- The first pages of the overflow chains of the others.
  unfoldable pub dead_chains : List LeafRecord → List ℕ
  unfolding descriptor_of
  dead_chains [] = []
  dead_chains (r ∷ rest) =
      let chains = dead_chains rest in if is_dead r then orphan (descriptor_of r) chains else chains

  unfoldable pub dead_number : List LeafRecord → ℕ
  dead_number [] = 0
  dead_number (r ∷ rest) = let others = dead_number rest in if is_dead r then others + 1 else others

  abbrev pub summary : List LeafRecord → Gathered
  summary rs = record {
    live = survivors rs;
    dead_count = dead_number rs;
    orphaned_chains = dead_chains rs;
  }

  module _ {ℓ} {A : Type ℓ} (key : Key A) where
    pub gather-summary :
        (page : Page) (i n : ℕ)
        → AllEncode key (collect (entry page) i n)
        → gather key horizon tm (accessor page) i n ≡ some (summary (collect (entry page) i n))
    unfolding gather survivors dead_chains dead_number entry overflow_descriptor descriptor_of
        encode_again
    gather-summary page i zero h = refl
    gather-summary page i (suc n) (one, h) =
        let rest = gather-summary page (suc i) n h in
        elim (Bool-cases (is_dead (entry page i))) [
          | inl e ↦ rw (e, rest, summary) refl
          | inr e ↦ rw (e, one, rest) refl
        ]

  pub survivors_same : (rs : List LeafRecord) → dead_number rs ≡ 0 → survivors rs ≡ rs
  unfolding survivors dead_number
  survivors_same [] h = refl
  survivors_same (r ∷ rest) h = ground (arith, survivors_same rest)

  -- Records that may go leave no larger a list.
  pub space_of-survivors : (rs : List LeafRecord) → space_of (survivors rs) ≤ space_of rs
  unfolding survivors
  space_of-survivors [] = omega arith
  space_of-survivors (r ∷ rest) = ground (arith, space_of-survivors rest)

  pub survivors-AllStorable : (rs : List LeafRecord) → AllStorable rs → AllStorable (survivors rs)
  unfolding survivors
  survivors-AllStorable [] h = h
  survivors-AllStorable (r ∷ rest) (one, h) =
      let kept = survivors-AllStorable rest h in
      if_cases AllStorable (is_dead r) _ _ (λ e. kept) (λ e. (one, kept))

  pub no_chains : (rs : List LeafRecord) → dead_number rs ≡ 0 → dead_chains rs ≡ []
  unfolding dead_number dead_chains
  no_chains [] h = refl
  no_chains (r ∷ rest) h = ground (arith, no_chains rest)
