-- ===== src/Values/Vecs.antt =====
-- `Value for Vec<T>` of crates/common/src/types.rs. The mutable offset is the rest of the bytes, and
-- a slice out of bounds is a panic, none.
use flux_db.Common.{
  ℕ, zero, suc, ◌^◌, ◌<◌, ◌≡◌, false, Option, none, some, List, [], ◌∷◌, ◌++◌, length,
  length-append, arith, refl, ap, Option-cases, inl, inr, take, drop, ltb, if◌then◌else◌,
}
use flux_db.Values.Value.{Value, IsValue}
use flux_db.Values.Options.{option_map}
use flux_db.Values.Varint.{
  encode_usize_varint, decode_usize_varint, decode_usize_varint-encode_usize_varint,
}

-- `&data[offset..offset + n]`, and the rest after it
abbrev pub split_at : ℕ → List ℕ → Option (List ℕ × List ℕ)
split_at n bytes = if ltb (length bytes) n then none else some (take n bytes, drop n bytes)

module _ {ℓ} {A : Type ℓ} (value : Value A) where
  -- The items read, before those that the rest of the loop reads.
  abbrev pub push : Option A → Option (List A) → Option (List A)
  push none items = none
  push (some a) items = option_map (λ rest. a ∷ rest) items

  -- The loops of `from_bytes`, over the number of items left.
  unfoldable pub items_of_width : ℕ → ℕ → List ℕ → Option (List A)
  items_of_width width zero bytes = some []
  items_of_width width (suc count) bytes = elim (split_at width bytes) [
    | none ↦ none
    | some (item, rest) ↦ push (value.from_bytes item) (items_of_width width count rest)
  ]

  unfoldable pub items_with_lengths : ℕ → List ℕ → Option (List A)
  items_with_lengths zero bytes = some []
  items_with_lengths (suc count) bytes = elim (decode_usize_varint bytes) [
    | none ↦ none
    | some (item_len, after) ↦ elim (split_at item_len after) [
      | none ↦ none
      | some (item, rest) ↦ push (value.from_bytes item) (items_with_lengths count rest)
    ]
  ]

  unfoldable pub vec_from_bytes : List ℕ → Option (List A)
  unfolding items_of_width items_with_lengths
  vec_from_bytes bytes = elim (decode_usize_varint bytes) [
    | none ↦ none
    | some (count, rest) ↦ elim value.fixed_width [
      | none ↦ items_with_lengths count rest
      | some width ↦ items_of_width width count rest
    ]
  ]

  -- The loops of `as_bytes`.
  unfoldable pub joined : List A → List ℕ
  joined [] = []
  joined (item ∷ items) = value.as_bytes item ++ joined items

  unfoldable pub joined_with_lengths : List A → List ℕ
  joined_with_lengths [] = []
  joined_with_lengths (item ∷ items) =
      let bytes = value.as_bytes item in
      encode_usize_varint (length bytes) ++ (bytes ++ joined_with_lengths items)

  unfoldable pub vec_as_bytes : List A → List ℕ
  unfolding joined joined_with_lengths
  vec_as_bytes items =
      encode_usize_varint (length items)
      ++ (elim value.fixed_width [ none ↦ joined_with_lengths items | some width ↦ joined items ])

  abbrev pub vec_value : Value (List A)
  vec_value = record { fixed_width = none; from_bytes = vec_from_bytes; as_bytes = vec_as_bytes }

-- The items are in range, and the length of each one's bytes is a number of 64 bits.
abbrev pub FitsAll {ℓ} : {A : Type ℓ} → (A → Type 0) → Value A → List A → Type 0
FitsAll Fits value [] = Unit
FitsAll Fits value (item ∷ items) =
    Fits item × (length (value.as_bytes item) < 2 ^ 64) × FitsAll Fits value items

abbrev pub FitsVec {ℓ} : {A : Type ℓ} → (A → Type 0) → Value A → List A → Type 0
FitsVec Fits value items = (length items < 2 ^ 64) × FitsAll Fits value items

take-append : (xs ys : List ℕ) → take (length xs) (xs ++ ys) ≡ xs
take-append [] ys = refl
take-append (x ∷ xs) ys = ap (λ (zs : List ℕ). x ∷ zs) (take-append xs ys)

drop-append : (xs ys : List ℕ) → drop (length xs) (xs ++ ys) ≡ ys
drop-append [] ys = refl
drop-append (x ∷ xs) ys = drop-append xs ys

pub split_at-append :
    (n : ℕ) (xs ys : List ℕ) → length xs ≡ n → split_at n (xs ++ ys) ≡ some (xs, ys)
split_at-append n xs ys e =
    let inside : ltb (length (xs ++ ys)) (length xs) ≡ false =
      ground (arith, length-append xs ys) in
    rw⁻¹ e (rw inside (rw (take-append xs ys, drop-append xs ys) refl))

module _ {ℓ} {A : Type ℓ} (Fits : A → Type 0) (value : Value A) (law : IsValue Fits value) where
  items_of_width-joined :
      (width : ℕ) (items : List A)
      → value.fixed_width ≡ some width
      → FitsAll Fits value items
      → items_of_width value width (length items) (joined value items) ≡ some items
  unfolding items_of_width joined
  items_of_width-joined width [] e h = refl
  items_of_width-joined width (item ∷ items) e (fits, short, rest) =
      rw
        (
          split_at-append width (value.as_bytes item) (joined value items)
              (law.width item width fits e),
          items_of_width,
        )
        (rw (law.roundtrip item fits) (rw (items_of_width-joined width items e rest) refl))

  items_with_lengths-joined_with_lengths :
      (items : List A)
      → FitsAll Fits value items
      → items_with_lengths value (length items) (joined_with_lengths value items) ≡ some items
  unfolding items_with_lengths joined_with_lengths
  items_with_lengths-joined_with_lengths [] h = refl
  items_with_lengths-joined_with_lengths (item ∷ items) (fits, short, rest) =
      let bytes = value.as_bytes item in
      let later = joined_with_lengths value items in
      rw
        (
          decode_usize_varint-encode_usize_varint (length bytes) (bytes ++ later) short,
          items_with_lengths,
        )
        (rw (split_at-append (length bytes) bytes later refl) (
          rw (law.roundtrip item fits)
            (rw (items_with_lengths-joined_with_lengths items rest) refl)))

  vec_from_bytes-vec_as_bytes :
      (items : List A)
      → FitsVec Fits value items
      → vec_from_bytes value (vec_as_bytes value items) ≡ some items
  unfolding vec_from_bytes vec_as_bytes
  vec_from_bytes-vec_as_bytes items (few, fits) = elim (Option-cases value.fixed_width) [
    | inl e ↦
        rw (e, vec_as_bytes)
          (rw
            (
              decode_usize_varint-encode_usize_varint (length items)
                  (joined_with_lengths value items) few,
              vec_from_bytes,
            )
            (rw e (items_with_lengths-joined_with_lengths items fits)))
    | inr (width, e) ↦
        rw (e, vec_as_bytes)
          (rw
            (
              decode_usize_varint-encode_usize_varint (length items) (joined value items) few,
              vec_from_bytes,
            )
            (rw e (items_of_width-joined width items e fits)))
  ]

  -- If the values of a type survive their bytes, at the width that the type promises, so do the
  -- vectors of them, whether the type has a fixed width or not, if their lengths and those of their
  -- items' bytes are numbers of 64 bits.
  pub vec_value-IsValue : IsValue (FitsVec Fits value) (vec_value value)
  vec_value-IsValue = record {
    roundtrip = vec_from_bytes-vec_as_bytes;
    width = λ items w h e. absurd (ground arith);
  }
