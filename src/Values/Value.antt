-- ===== src/Values/Value.antt =====
-- The trait `Value` of crates/common/src/types.rs, as a record of its functions, and what an
-- implementation owes its clients.
use flux_db.Common.{ℕ, ◌≡◌, Option, some, List, length}

-- `from_bytes` that panics is none.
pub record Value {ℓ} (A : Type ℓ) : Type ℓ where
  pub fixed_width : Option ℕ
  pub from_bytes : List ℕ → Option A
  pub as_bytes : A → List ℕ

-- Every value of the type's range survives its bytes, and has the width that the type promises.
pub record IsValue {ℓ} {A : Type ℓ} (Fits : A → Type 0) (value : Value A) : Type ℓ where
  pub roundtrip : (a : A) → Fits a → value.from_bytes (value.as_bytes a) ≡ some a
  pub width : (a : A) (w : ℕ) → Fits a → value.fixed_width ≡ some w → length (value.as_bytes a) ≡ w
