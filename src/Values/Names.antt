-- ===== src/Values/Names.antt =====
-- `TypeName` of crates/common/src/types.rs; `TypeNameError` is in crates/common/src/error.rs.
use mathlib.Core.Path.{subst}
use flux_db.Common.{
  ℕ, ◌≡◌, ◌↔◌, true, List, [], ◌∷◌, ◌==◌, if◌then◌else◌, arith, refl, Bool-cases, inl, inr,
}
use flux_db.Values.Texts.{is_utf8}

pub data TypeClassification : Type 0 where
  internal : TypeClassification
  user_defined : TypeClassification

pub record TypeName : Type 0 where
  pub classification : TypeClassification
  pub name : List ℕ

pub data TypeNameError : Type 0 where
  empty : TypeNameError
  unknown_classification : ℕ → TypeNameError
  invalid_utf8 : TypeNameError

pub data Result {ℓ} (A : Type ℓ) : Type ℓ where
  ok : A → Result A
  err : TypeNameError → Result A

abbrev pub to_byte : TypeClassification → ℕ
to_byte internal = 1
to_byte user_defined = 2

abbrev pub from_byte : ℕ → Result TypeClassification
from_byte value =
    if value == 1
    then ok internal
    else if value == 2
    then ok user_defined
    else err (unknown_classification value)

unfoldable pub type_name_to_bytes : TypeName → List ℕ
type_name_to_bytes n = to_byte n.classification ∷ n.name

unfoldable pub type_name_from_bytes : List ℕ → Result TypeName
type_name_from_bytes [] = err empty
type_name_from_bytes (first ∷ rest) = elim (from_byte first) [
  | err e ↦ err e
  | ok classification ↦
      if is_utf8 rest
      then ok (record { classification = classification; name = rest })
      else err invalid_utf8
]

type_name_there :
    (c : TypeClassification) (name : List ℕ)
    → is_utf8 name ≡ true
    → type_name_from_bytes (to_byte c ∷ name) ≡ ok (record { classification = c; name = name })
unfolding type_name_from_bytes
type_name_there internal name h = rw h refl
type_name_there user_defined name h = rw h refl

type_name_back :
    (bytes : List ℕ) (n : TypeName)
    → type_name_from_bytes bytes ≡ ok n
    → type_name_to_bytes n ≡ bytes
unfolding type_name_from_bytes type_name_to_bytes
type_name_back [] n h = absurd (ground arith)
type_name_back (first ∷ rest) n h = elim (Bool-cases (is_utf8 rest)) [
  | inl u ↦ ground (arith, u)
  | inr u ↦ ground (arith, u)
]

-- The bytes that are read as the name of a type, its text being well-formed, are those that the
-- name is written as.
pub type_name_from_bytes_iff :
    (bytes : List ℕ) (n : TypeName)
    → is_utf8 n.name ≡ true
    → (type_name_from_bytes bytes ≡ ok n) ↔ (type_name_to_bytes n ≡ bytes)
unfolding type_name_to_bytes
type_name_from_bytes_iff bytes n h = (
  type_name_back bytes n,
  λ e.
      subst (λ (b : List ℕ). type_name_from_bytes b ≡ ok n) e
        (type_name_there n.classification n.name h),
)
