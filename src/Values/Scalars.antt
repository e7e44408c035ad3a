-- ===== src/Values/Scalars.antt =====
-- The unit, Booleans, bytes, and the unsigned integers of crates/common/src/types.rs.
use flux_db.Common.{
  ℕ, zero, suc, ◌^◌, ◌<◌, ◌≡◌, Bool, true, false, Option, none, some, List, [], ◌∷◌, ◌==◌,
  if◌then◌else◌, length, replicate, length-replicate, arith, refl, ◌∙◌, ap,
}
use flux_db.Page.Bytes.{read_le, write_le, length-write_le, read_le-write_le_self}
use flux_db.Values.Value.{Value, IsValue}

abbrev pub unit_value : Value {0} Unit
unit_value = record { fixed_width = some 0; from_bytes = λ bytes. some tt; as_bytes = λ value. [] }

abbrev pub bool_from_bytes : List ℕ → Option Bool
bool_from_bytes [] = none
bool_from_bytes (zero ∷ _) = some false
bool_from_bytes (suc zero ∷ _) = some true
bool_from_bytes (suc (suc _) ∷ _) = none

abbrev pub bool_value : Value Bool
bool_value = record {
  fixed_width = some 1;
  from_bytes = bool_from_bytes;
  as_bytes = λ value. if value then 1 ∷ [] else 0 ∷ [];
}

-- `&[u8]`
abbrev pub bytes_value : Value (List ℕ)
bytes_value = record {
  fixed_width = none;
  from_bytes = λ bytes. some bytes;
  as_bytes = λ value. value;
}

-- `to_le_bytes` of an unsigned integer of `n` bytes
abbrev pub to_le_bytes : ℕ → ℕ → List ℕ
to_le_bytes n value = write_le n (replicate n 0) 0 value

-- `le_value!` at an unsigned integer of `n` bytes: another length is a panic.
abbrev pub le_value : ℕ → Value ℕ
le_value n = record {
  fixed_width = some n;
  from_bytes = λ bytes. if length bytes == n then some (read_le n bytes 0) else none;
  as_bytes = λ value. to_le_bytes n value;
}

pub length-to_le_bytes : (n v : ℕ) → length (to_le_bytes n v) ≡ n
length-to_le_bytes n v = length-write_le n (replicate n 0) 0 v ∙ length-replicate {A = ℕ} n 0

-- The unsigned integers of `n` bytes survive them.
pub le_value-IsValue : (n : ℕ) → IsValue (λ v. v < 256 ^ n) (le_value n)
le_value-IsValue n = record {
  roundtrip = λ v h.
      let full : length (to_le_bytes n v) == n ≡ true = ground (arith, length-to_le_bytes n v) in
      rw full (
        ap some (
          read_le-write_le_self n (replicate n 0) 0 v (omega (arith, length-replicate {A = ℕ} n 0))
            h));
  width = λ v w h e. let same : n ≡ w = ground arith in length-to_le_bytes n v ∙ same;
}

abbrev bool_as_bytes : Bool → List ℕ
bool_as_bytes value = if value then 1 ∷ [] else 0 ∷ []

bool_from_bytes-bool_as_bytes : (b : Bool) → bool_from_bytes (bool_as_bytes b) ≡ some b
bool_from_bytes-bool_as_bytes true = refl
bool_from_bytes-bool_as_bytes false = refl

length-bool_as_bytes : (b : Bool) → length (bool_as_bytes b) ≡ 1
length-bool_as_bytes true = refl
length-bool_as_bytes false = refl

-- Booleans.
pub bool_value-IsValue : IsValue (λ b. Unit {0}) bool_value
bool_value-IsValue = record {
  roundtrip = λ b h. bool_from_bytes-bool_as_bytes b;
  width = λ b w h e. let one : 1 ≡ w = ground arith in length-bool_as_bytes b ∙ one;
}
