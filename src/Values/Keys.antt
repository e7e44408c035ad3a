-- ===== src/Values/Keys.antt =====
-- The trait `Key` of crates/common/src/types.rs: the comparison of encoded keys, for the unsigned
-- integers, `Option` and `Vec`. A panic is none.
pub mod Laws
use Prim.Native.Nat.{Ordering, compare, min}
use flux_db.Common.{ℕ, zero, suc, ◌≡◌, Option, none, some, List, ◌∷◌}
use flux_db.Values.Value.{Value, IsValue}
use flux_db.Values.Scalars.{le_value}
use flux_db.Values.Varint.{decode_usize_varint}
use flux_db.Values.Vecs.{split_at, vec_value}
use flux_db.Values.Options.{option_value}

pub record Key {ℓ} (A : Type ℓ) : Type ℓ where
  pub value : Value A
  pub compare_bytes : List ℕ → List ℕ → Option Ordering

-- The comparison of the bytes of two values in range is that of the values.
pub record IsKey {ℓ} {A : Type ℓ} (Fits : A → Type 0) (cmp : A → A → Ordering) (key : Key A)
    : Type ℓ where
  pub is_value : IsValue Fits key.value
  pub agrees :
      (a b : A)
      → Fits a
      → Fits b
      → key.compare_bytes (key.value.as_bytes a) (key.value.as_bytes b) ≡ some (cmp a b)

-- `le_key!` at an unsigned integer of `n` bytes
abbrev pub le_compare : ℕ → List ℕ → List ℕ → Option Ordering
le_compare n bytes1 bytes2 = elim ((le_value n).from_bytes bytes1) [
  | none ↦ none
  | some value1 ↦ elim ((le_value n).from_bytes bytes2) [
    | none ↦ none
    | some value2 ↦ some (compare value1 value2)
  ]
]

abbrev pub le_key : ℕ → Key ℕ
le_key n = record { value = le_value n; compare_bytes = le_compare n }

-- The match on the first bytes, `(data1[0], bytes2[0])`.
abbrev pub option_compare {ℓ} : {A : Type ℓ} → Key A → List ℕ → List ℕ → Option Ordering
option_compare key (zero ∷ _) (zero ∷ _) = some Ordering.eq
option_compare key (zero ∷ _) (suc zero ∷ _) = some Ordering.lt
option_compare key (suc zero ∷ _) (zero ∷ _) = some Ordering.gt
option_compare key (suc zero ∷ rest1) (suc zero ∷ rest2) = key.compare_bytes rest1 rest2
option_compare key _ _ = none

-- An answer that is not `Equal` is returned at once.
abbrev pub or_later : Option Ordering → Option Ordering → Option Ordering
or_later none later = none
or_later (some Ordering.eq) later = later
or_later (some Ordering.lt) later = some Ordering.lt
or_later (some Ordering.gt) later = some Ordering.gt

module _ {ℓ} {A : Type ℓ} (key : Key A) where
  -- The loops of `compare` for vectors, over the items left in both; `counts` is the comparison of
  -- the numbers of items.
  unfoldable pub compare_of_width : ℕ → Ordering → ℕ → List ℕ → List ℕ → Option Ordering
  compare_of_width width counts zero bytes1 bytes2 = some counts
  compare_of_width width counts (suc common) bytes1 bytes2 = elim (split_at width bytes1) [
    | none ↦ none
    | some (item1, rest1) ↦ elim (split_at width bytes2) [
      | none ↦ none
      | some (item2, rest2) ↦
          or_later (key.compare_bytes item1 item2)
            (compare_of_width width counts common rest1 rest2)
    ]
  ]

  unfoldable pub next_item : List ℕ → Option (List ℕ × List ℕ)
  next_item bytes = elim (decode_usize_varint bytes) [
    | none ↦ none
    | some (len, rest) ↦ split_at len rest
  ]

  unfoldable pub compare_with_lengths : Ordering → ℕ → List ℕ → List ℕ → Option Ordering
  unfolding next_item
  compare_with_lengths counts zero bytes1 bytes2 = some counts
  compare_with_lengths counts (suc common) bytes1 bytes2 = elim (next_item bytes1) [
    | none ↦ none
    | some (item1, rest1) ↦ elim (next_item bytes2) [
      | none ↦ none
      | some (item2, rest2) ↦
          or_later (key.compare_bytes item1 item2) (compare_with_lengths counts common rest1 rest2)
    ]
  ]

  unfoldable pub vec_compare : List ℕ → List ℕ → Option Ordering
  unfolding compare_of_width compare_with_lengths
  vec_compare bytes1 bytes2 = elim (decode_usize_varint bytes1) [
    | none ↦ none
    | some (count1, rest1) ↦ elim (decode_usize_varint bytes2) [
      | none ↦ none
      | some (count2, rest2) ↦
          let common = min count1 count2 in
          let counts = compare count1 count2 in
          elim key.value.fixed_width [
            | none ↦ compare_with_lengths counts common rest1 rest2
            | some width ↦ compare_of_width width counts common rest1 rest2
          ]
    ]
  ]

  abbrev pub vec_key : Key (List A)
  vec_key = record { value = vec_value key.value; compare_bytes = vec_compare }

  abbrev pub option_key : Key (Option A)
  option_key = record { value = option_value key.value; compare_bytes = option_compare key }
