-- ===== src/Values/Tests.antt =====
-- The encodings at concrete values.
use Prim.Native.Nat.{Ordering, compare}
use flux_db.Page.Bytes.{read_le}
use flux_db.Values.Keys.{IsKey, le_compare, le_key, option_key, vec_key}
use flux_db.Values.Keys.Laws.{option_cmp, vec_cmp, le_key-IsKey, option_key-IsKey, vec_key-IsKey}
use flux_db.Values.Texts.{is_utf8, utf8_after}
use flux_db.Common.{true, false, ℕ, ◌^◌, ◌<◌, ◌≡◌, some, [], ◌∷◌, refl}
use flux_db.Values.Varint.{encode_rounds, encode_usize_varint}
use flux_db.Values.Value.{IsValue}
use flux_db.Values.Scalars.{bytes_value, le_value, le_value-IsValue}
use flux_db.Values.Options.{option_value, FitsOption}
use flux_db.Values.Vecs.{vec_as_bytes, joined_with_lengths, FitsVec}

abbrev Fits32 : ℕ → Type 0
Fits32 v = v < 256 ^ 4

encode_usize_varint_300 : encode_usize_varint 300 ≡ 172 ∷ 2 ∷ []
unfolding encode_usize_varint encode_rounds
encode_usize_varint_300 = refl

le_value-IsValue_example : IsValue Fits32 (le_value 4)
le_value-IsValue_example = le_value-IsValue 4

-- "alpha" and "beta" in a vector of texts
vec_as_bytes_texts :
    vec_as_bytes bytes_value ((97 ∷ 108 ∷ 112 ∷ 104 ∷ 97 ∷ []) ∷ (98 ∷ 101 ∷ 116 ∷ 97 ∷ []) ∷ [])
    ≡ 2 ∷ 5 ∷ 97 ∷ 108 ∷ 112 ∷ 104 ∷ 97 ∷ 4 ∷ 98 ∷ 101 ∷ 116 ∷ 97 ∷ []
unfolding vec_as_bytes joined_with_lengths encode_usize_varint encode_rounds
vec_as_bytes_texts = refl

vec_key-IsKey_example :
    IsKey
      (FitsVec (FitsOption Fits32) (option_value (le_value 4)))
      (vec_cmp (option_cmp compare))
      (vec_key (option_key (le_key 4)))
vec_key-IsKey_example =
    vec_key-IsKey (FitsOption Fits32) (option_cmp compare) (option_key (le_key 4))
      (option_key-IsKey Fits32 compare (le_key 4) (le_key-IsKey 4))

-- 10 comes after 2.
le_compare_10 : le_compare 4 (10 ∷ 0 ∷ 0 ∷ 0 ∷ []) (2 ∷ 0 ∷ 0 ∷ 0 ∷ []) ≡ some Ordering.gt
unfolding read_le
le_compare_10 = refl

-- The letter lambda, of two bytes, is a text; its first byte is not.
is_utf8_lambda : (is_utf8 (206 ∷ 187 ∷ []) ≡ true) × (is_utf8 (206 ∷ []) ≡ false)
unfolding utf8_after
is_utf8_lambda = (refl, refl)
