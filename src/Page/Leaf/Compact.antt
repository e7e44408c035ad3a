-- ===== src/Page/Leaf/Compact.antt =====
-- `LeafPageMutator::compact` of crates/storage/src/page/leaf.rs. The key type decodes and encodes
-- the keys again; a panic is none.
pub mod Gather
pub mod Readers
pub mod Keeps
pub mod Links
pub mod Rebuild
pub mod Fits
use flux_db.Common.{ℕ, zero, suc, ◌+◌, Option, none, some, List, [], ◌∷◌, ◌==◌, if◌then◌else◌}
use flux_db.Mvcc.State.{TransactionManager}
use flux_db.Mvcc.Visibility.{is_vacuumable}
use flux_db.Values.Keys.{Key}
use flux_db.Page.Bytes.{Page, read_u8, write_u8}
use flux_db.Page.Header.{off_flags}
use flux_db.Page.Overflow.{OverflowDescriptor}
use flux_db.Page.Leaf.{
  Accessor, accessor, open_accessor, high_key_bytes, rightlink, prev_page, lsn, get_xmin, get_xmax,
  get_rec_type, key_bytes_at, value_bytes_at, overflow_descriptor,
}
use flux_db.Page.Leaf.Mutate.{LeafRecord, set_lsn, open_mutator}
use flux_db.Page.Leaf.Build.{
  Builder, new_leaf, builder_set_high_key, builder_set_prev_page, builder_set_rightlink, push_all,
}

-- What the loop over the slots collects.
pub record Gathered : Type 0 where
  pub live : List LeafRecord
  pub dead_count : ℕ
  pub orphaned_chains : List ℕ

abbrev pub orphan : Option OverflowDescriptor → List ℕ → List ℕ
orphan none chains = chains
orphan (some desc) chains = desc.first_page_id ∷ chains

abbrev pub add_dead : Option OverflowDescriptor → Gathered → Gathered
add_dead desc g = record g {
  dead_count = g.dead_count + 1;
  orphaned_chains = orphan desc g.orphaned_chains;
}

abbrev pub add_live : LeafRecord → Gathered → Gathered
add_live r g = record g { live = r ∷ g.live }

abbrev pub keep_high_key : Option (List ℕ) → Builder → Builder
keep_high_key none builder = builder
keep_high_key (some hk) builder = builder_set_high_key builder hk

-- The page rebuilt from the records that stay, under the metadata of the old one.
unfoldable pub rebuild : ℕ → Page → List LeafRecord → Option Page
unfolding open_mutator new_leaf push_all high_key_bytes rightlink prev_page builder_set_rightlink
    builder_set_prev_page
rebuild page_id page live =
    let acc = accessor page in
    let b₁ = keep_high_key (high_key_bytes acc) (new_leaf page_id page) in
    let b₂ = builder_set_rightlink b₁ (rightlink acc) in
    let b₃ = builder_set_prev_page b₂ (prev_page acc) in
    elim (push_all b₃ live) [
      | none ↦ none
      | some b₄ ↦ elim (open_mutator b₄.data_bytes) [
        | none ↦ none
        | some finished ↦
            some (write_u8 (set_lsn finished (lsn acc)) off_flags (read_u8 page off_flags))
      ]
    ]

-- `K::as_bytes(&acc.get_key(i))`
unfoldable pub encode_again {ℓ} : {A : Type ℓ} → Key A → List ℕ → Option (List ℕ)
encode_again key bytes = elim (key.value.from_bytes bytes) [
  | none ↦ none
  | some k ↦ some (key.value.as_bytes k)
]

module _ {ℓ} {A : Type ℓ} (key : Key A) (horizon : ℕ) (tm : TransactionManager) where
  -- The loop over the `n` slots from `i` on.
  unfoldable pub gather : Accessor → ℕ → ℕ → Option Gathered
  unfolding is_vacuumable overflow_descriptor encode_again
  gather acc i zero = some (record { live = []; dead_count = 0; orphaned_chains = [] })
  gather acc i (suc n) =
      let rest = gather acc (suc i) n in
      if is_vacuumable (get_xmin acc i) (get_xmax acc i) horizon tm
      then elim rest [ none ↦ none | some g ↦ some (add_dead (overflow_descriptor acc i) g) ]
      else elim (encode_again key (key_bytes_at acc i)) [
        | none ↦ none
        | some k ↦ elim rest [
          | none ↦ none
          | some g ↦ some (
              add_live
                (record {
                  key = k;
                  val = value_bytes_at acc i;
                  rec_type = get_rec_type acc i;
                  xmin = get_xmin acc i;
                  xmax = get_xmax acc i;
                })
                g)
        ]
      ]

  -- The page afterwards, with the number of records dropped and the chains to free.
  unfoldable pub compact : ℕ → Page → Option (Page × ℕ × List ℕ)
  unfolding open_accessor gather rebuild
  compact page_id page = elim (open_accessor page) [
    | none ↦ none
    | some acc ↦ elim (gather acc 0 acc.num_pairs) [
      | none ↦ none
      | some g ↦
          if g.dead_count == 0 then some (page, 0, []) else elim (rebuild page_id page g.live) [
            | none ↦ none
            | some page' ↦ some (page', g.dead_count, g.orphaned_chains)
          ]
    ]
  ]
