-- ===== src/Values/Texts.antt =====
-- Texts, byte arrays and characters, of crates/common/src/types.rs. A text is its
-- bytes; `str::from_utf8` and `char::from_u32` are those of the standard library.
use Prim.Native.Nat.{Ordering, compare}
use flux_db.Common.{
  ℕ, zero, suc, ◌+◌, ◌*◌, ◌/◌, ◌%◌, ◌<◌, ◌≡◌, Bool, true, false, not, ◌&&◌, Option, none, some,
  List, [], ◌∷◌, ltb, leb, ◌==◌, if◌then◌else◌, length, arith, refl, ◌∙◌, ap,
}
use flux_db.Values.Value.{Value}
use flux_db.Values.Keys.{Key, IsKey}
use flux_db.Values.Keys.Laws.{vec_cmp}

-- `lo..=hi`
abbrev pub within : ℕ → ℕ → ℕ → Bool
within lo hi b = leb lo b && leb b hi

-- What the first byte of a character asks of those after it: how many, and the bounds of the next.
-- The rest are bytes `10xxxxxx`.
abbrev pub lead : ℕ → Option (ℕ × ℕ × ℕ)
lead a =
    if ltb a 128
    then some (0, 128, 191)
    else if within 194 223 a
    then some (1, 128, 191)
    else if a == 224
    then some (2, 160, 191)
    else if a == 237
    then some (2, 128, 159)
    else if within 225 239 a
    then some (2, 128, 191)
    else if a == 240
    then some (3, 144, 191)
    else if within 241 243 a
    then some (3, 128, 191)
    else if a == 244
    then some (3, 128, 143)
    else none

-- Well-formed UTF-8, with so many bytes of a character to come, the next within bounds.
unfoldable pub utf8_after : ℕ → ℕ → ℕ → List ℕ → Bool
utf8_after zero lo hi [] = true
utf8_after (suc n) lo hi [] = false
utf8_after (suc n) lo hi (b ∷ bytes) = within lo hi b && utf8_after n 128 191 bytes
utf8_after zero lo hi (a ∷ bytes) = elim (lead a) [
  | none ↦ false
  | some (n, lo', hi') ↦ utf8_after n lo' hi' bytes
]

-- `str::from_utf8` accepts the bytes.
abbrev pub is_utf8 : List ℕ → Bool
is_utf8 bytes = utf8_after 0 128 191 bytes

-- `&str` and `String`: other bytes are a panic.
abbrev pub text_value : Value (List ℕ)
text_value = record {
  fixed_width = none;
  from_bytes = λ bytes. if is_utf8 bytes then some bytes else none;
  as_bytes = λ value. value;
}

-- `cmp` on byte slices.
abbrev pub bytes_compare : List ℕ → List ℕ → Option Ordering
bytes_compare bytes1 bytes2 = some (vec_cmp compare bytes1 bytes2)

abbrev pub text_key : Key (List ℕ)
text_key = record { value = text_value; compare_bytes = bytes_compare }

-- `&[u8; N]`: another length is a panic.
abbrev pub byte_array_value : ℕ → Value (List ℕ)
byte_array_value n = record {
  fixed_width = some n;
  from_bytes = λ bytes. if length bytes == n then some bytes else none;
  as_bytes = λ value. value;
}

abbrev pub byte_array_key : ℕ → Key (List ℕ)
byte_array_key n = record { value = byte_array_value n; compare_bytes = bytes_compare }

-- `char::from_u32`: a scalar value is no surrogate.
abbrev pub is_char : ℕ → Bool
is_char v = ltb v 0x110000 && not (within 0xd800 0xdfff v)

abbrev pub char_from_bytes : List ℕ → Option ℕ
char_from_bytes (a ∷ b ∷ c ∷ _) =
    let v = a + 256 * b + 65536 * c in if is_char v then some v else none
char_from_bytes _ = none

abbrev pub char_as_bytes : ℕ → List ℕ
char_as_bytes v = v % 256 ∷ (v / 256) % 256 ∷ (v / 65536) % 256 ∷ []

abbrev pub char_value : Value ℕ
char_value = record { fixed_width = some 3; from_bytes = char_from_bytes; as_bytes = char_as_bytes }

abbrev pub char_compare : List ℕ → List ℕ → Option Ordering
char_compare bytes1 bytes2 = elim (char_from_bytes bytes1) [
  | none ↦ none
  | some c1 ↦ elim (char_from_bytes bytes2) [ none ↦ none | some c2 ↦ some (compare c1 c2) ]
]

abbrev pub char_key : Key ℕ
char_key = record { value = char_value; compare_bytes = char_compare }

-- Texts survive their bytes and compare as their bytes do.
pub text_key-IsKey : IsKey (λ t. is_utf8 t ≡ true) (vec_cmp compare) text_key
text_key-IsKey = record {
  is_value = record { roundtrip = λ t h. rw h refl; width = λ t w h e. absurd (ground arith) };
  agrees = λ a b p q. refl;
}

-- Byte arrays of a length survive their bytes and compare as their bytes do.
pub byte_array_key-IsKey : (n : ℕ) → IsKey (λ a. length a ≡ n) (vec_cmp compare) (byte_array_key n)
byte_array_key-IsKey n = record {
  is_value = record {
    roundtrip = λ a h. let e : length a == n ≡ true = ground arith in rw e refl;
    width = λ a w h e. let same : n ≡ w = ground arith in h ∙ same;
  };
  agrees = λ a b p q. refl;
}

char_from_bytes-char_as_bytes :
    (v : ℕ) → is_char v ≡ true → char_from_bytes (char_as_bytes v) ≡ some v
char_from_bytes-char_as_bytes v h =
    let small : v < 0x110000 = ground arith in
    let whole : v % 256 + 256 * ((v / 256) % 256) + 65536 * ((v / 65536) % 256) ≡ v = omega arith in
    rw whole (rw h refl)

char_compare_lem :
    (bytes1 bytes2 : List ℕ) (a b : ℕ)
    → char_from_bytes bytes1 ≡ some a
    → char_from_bytes bytes2 ≡ some b
    → char_compare bytes1 bytes2 ≡ some (compare a b)
char_compare_lem bytes1 bytes2 a b e f =
    ap
      (λ (o : Option ℕ). elim o as (λ x. Option Ordering) [
        | none ↦ none
        | some c1 ↦ elim (char_from_bytes bytes2) as (λ x. Option Ordering) [
          | none ↦ none
          | some c2 ↦ some (compare c1 c2)
        ]
      ])
      e
    ∙ ap
        (λ (o : Option ℕ). elim o as (λ x. Option Ordering) [
          | none ↦ none
          | some c2 ↦ some (compare a c2)
        ])
        f

-- Characters survive their three bytes and compare as numbers.
pub char_key-IsKey : IsKey (λ v. is_char v ≡ true) compare char_key
char_key-IsKey = record {
  is_value = record { roundtrip = char_from_bytes-char_as_bytes; width = λ v w h e. ground arith };
  agrees = λ a b p q.
      char_compare_lem (char_as_bytes a) (char_as_bytes b) a b (char_from_bytes-char_as_bytes a p)
        (char_from_bytes-char_as_bytes b q);
}
