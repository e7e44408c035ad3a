-- ===== src/Values/Options.antt =====
-- `Value for Option<T>` of crates/common/src/types.rs.
use flux_db.Common.{
  ℕ, zero, suc, ◌+◌, ◌≡◌, Option, none, some, List, [], ◌∷◌, length, replicate, length-replicate,
  arith, refl, ◌∙◌, Option-cases, inl, inr,
}
use flux_db.Values.Value.{Value, IsValue}

abbrev pub option_map {ℓ ℓ'} : {A : Type ℓ} {B : Type ℓ'} → (A → B) → Option A → Option B
option_map f none = none
option_map f (some a) = some (f a)

module _ {ℓ} {A : Type ℓ} (value : Value A) where
  abbrev pub option_from_bytes : List ℕ → Option (Option A)
  option_from_bytes [] = none
  option_from_bytes (zero ∷ _) = some none
  option_from_bytes (suc zero ∷ rest) = option_map some (value.from_bytes rest)
  option_from_bytes (suc (suc _) ∷ _) = none

  abbrev pub option_as_bytes : Option A → List ℕ
  option_as_bytes none = elim value.fixed_width [
    | none ↦ 0 ∷ []
    | some width ↦ 0 ∷ replicate width 0
  ]
  option_as_bytes (some inner) = 1 ∷ value.as_bytes inner

  abbrev pub option_value : Value (Option A)
  option_value = record {
    fixed_width = option_map (λ width. width + 1) value.fixed_width;
    from_bytes = option_from_bytes;
    as_bytes = option_as_bytes;
  }

-- An optional value is in range if it is none or its value is.
abbrev pub FitsOption {ℓ} : {A : Type ℓ} → (A → Type 0) → Option A → Type 0
FitsOption Fits none = Unit
FitsOption Fits (some a) = Fits a

module _ {ℓ} {A : Type ℓ} (Fits : A → Type 0) (value : Value A) (law : IsValue Fits value) where
  option_from_bytes-option_as_bytes :
      (o : Option A)
      → FitsOption Fits o
      → option_from_bytes value (option_as_bytes value o) ≡ some o
  option_from_bytes-option_as_bytes (some a) h = rw (law.roundtrip a h) refl
  option_from_bytes-option_as_bytes none h = elim (Option-cases value.fixed_width) [
    | inl e ↦ rw e refl
    | inr (w, e) ↦ rw e refl
  ]

  length-option_as_bytes_at :
      (o : Option A) (k : ℕ)
      → FitsOption Fits o
      → value.fixed_width ≡ some k
      → length (option_as_bytes value o) ≡ k + 1
  length-option_as_bytes_at (some a) k h f = omega (arith, law.width a k h f)
  length-option_as_bytes_at none k h f = rw f (omega (arith, length-replicate {A = ℕ} k 0))

  length-option_as_bytes :
      (o : Option A) (w : ℕ)
      → FitsOption Fits o
      → option_map (λ width. width + 1) value.fixed_width ≡ some w
      → length (option_as_bytes value o) ≡ w
  length-option_as_bytes o w h e = elim (Option-cases value.fixed_width) [
    | inl f ↦
        let e' : option_map {A = ℕ} {B = ℕ} (λ width. width + 1) none ≡ some w = rw f at e in
        absurd (ground arith)
    | inr (k, f) ↦
        let e' : option_map {A = ℕ} {B = ℕ} (λ width. width + 1) (some k) ≡ some w = rw f at e in
        let same : k + 1 ≡ w = ground arith in length-option_as_bytes_at o k h f ∙ same
  ]

  -- If the values of a type survive their bytes, at the width that the type promises, so do the
  -- optional values.
  pub option_value-IsValue : IsValue (FitsOption Fits) (option_value value)
  option_value-IsValue = record {
    roundtrip = option_from_bytes-option_as_bytes;
    width = length-option_as_bytes;
  }
