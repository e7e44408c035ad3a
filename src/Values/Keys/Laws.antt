-- ===== src/Values/Keys/Laws.antt =====
-- The order of encoded keys.
use Prim.Native.Nat.{Ordering, compare, min}
use Prim.Native.Nat.compare
use flux_db.Common.{
  ℕ, suc, ◌^◌, ◌<◌, ◌≡◌, Option, none, some, List, [], ◌∷◌, ◌++◌, length, arith, refl, ◌∙◌, ap,
  Option-cases, inl, inr,
}
use flux_db.Values.Scalars.{le_value, le_value-IsValue}
use flux_db.Values.Options.{option_value, FitsOption, option_value-IsValue}
use flux_db.Values.Varint.{
  encode_usize_varint, decode_usize_varint, decode_usize_varint-encode_usize_varint,
}
use flux_db.Values.Vecs.{
  split_at-append, vec_as_bytes, joined, joined_with_lengths, FitsAll, FitsVec, vec_value-IsValue,
}
use flux_db.Values.Keys.{
  Key, IsKey, le_compare, le_key, option_compare, or_later, compare_of_width, next_item,
  compare_with_lengths, vec_compare, vec_key, option_key,
}

-- `Ord` for `Option`: none is the least.
abbrev pub option_cmp {ℓ} : {A : Type ℓ} → (A → A → Ordering) → Option A → Option A → Ordering
option_cmp cmp none none = Ordering.eq
option_cmp cmp none (some b) = Ordering.lt
option_cmp cmp (some a) none = Ordering.gt
option_cmp cmp (some a) (some b) = cmp a b

abbrev pub first_of : Ordering → Ordering → Ordering
first_of Ordering.eq later = later
first_of Ordering.lt later = Ordering.lt
first_of Ordering.gt later = Ordering.gt

-- `Ord` for `Vec`: the order of dictionaries.
abbrev pub vec_cmp {ℓ} : {A : Type ℓ} → (A → A → Ordering) → List A → List A → Ordering
vec_cmp cmp [] [] = Ordering.eq
vec_cmp cmp [] (b ∷ bs) = Ordering.lt
vec_cmp cmp (a ∷ rest) [] = Ordering.gt
vec_cmp cmp (a ∷ rest) (b ∷ bs) = first_of (cmp a b) (vec_cmp cmp rest bs)

or_later-some : (o later : Ordering) → or_later (some o) (some later) ≡ some (first_of o later)
or_later-some Ordering.lt later = refl
or_later-some Ordering.eq later = refl
or_later-some Ordering.gt later = refl

zero-min : (n : ℕ) → min n 0 ≡ 0
zero-min n = omega arith

min-suc : (a b : ℕ) → min (suc a) (suc b) ≡ suc (min a b)
min-suc a b = omega arith

min-zero : (n : ℕ) → min 0 n ≡ 0
min-zero n = omega arith

le_compare_lem :
    (n : ℕ) (bytes1 bytes2 : List ℕ) (a b : ℕ)
    → (le_value n).from_bytes bytes1 ≡ some a
    → (le_value n).from_bytes bytes2 ≡ some b
    → le_compare n bytes1 bytes2 ≡ some (compare a b)
le_compare_lem n bytes1 bytes2 a b e f =
    ap
      (λ (o : Option ℕ). elim o as (λ x. Option Ordering) [
        | none ↦ none
        | some value1 ↦ elim ((le_value n).from_bytes bytes2) as (λ x. Option Ordering) [
          | none ↦ none
          | some value2 ↦ some (compare value1 value2)
        ]
      ])
      e
    ∙ ap
        (λ (o : Option ℕ). elim o as (λ x. Option Ordering) [
          | none ↦ none
          | some value2 ↦ some (compare a value2)
        ])
        f

-- Unsigned integers of `n` bytes survive their bytes, and compare as numbers.
pub le_key-IsKey : (n : ℕ) → IsKey (λ v. v < 256 ^ n) compare (le_key n)
le_key-IsKey n = record {
  is_value = le_value-IsValue n;
  agrees = λ a b p q.
      let law = le_value-IsValue n in
      le_compare_lem n ((le_value n).as_bytes a) ((le_value n).as_bytes b) a b (law.roundtrip a p)
        (law.roundtrip b q);
}

module _ {ℓ} {A : Type ℓ} (Fits : A → Type 0) (cmp : A → A → Ordering) (key : Key A)
    (law : IsKey Fits cmp key) where
  compare_of_width-joined :
      (width : ℕ) (xs ys : List A) (counts : Ordering) (common : ℕ)
      → key.value.fixed_width ≡ some width
      → FitsAll Fits key.value xs
      → FitsAll Fits key.value ys
      → counts ≡ compare (length xs) (length ys)
      → common ≡ min (length xs) (length ys)
      → compare_of_width key width counts common (joined key.value xs) (joined key.value ys)
        ≡ some (vec_cmp cmp xs ys)
  unfolding compare_of_width joined
  compare_of_width-joined width [] [] counts common e p q c m = rw (m, c) refl
  compare_of_width-joined width [] (y ∷ ys) counts common e p q c m =
      rw (m ∙ min-zero (length (y ∷ ys)), c ∙ compare.zero-suc (length ys)) refl
  compare_of_width-joined width (x ∷ xs) [] counts common e p q c m =
      rw (m ∙ zero-min (length (x ∷ xs)), c ∙ compare.suc-zero (length xs)) refl
  compare_of_width-joined width (x ∷ xs) (y ∷ ys) counts common e (px, _, ps) (qy, _, qs) c m =
      let rest =
        compare_of_width-joined width xs ys counts (min (length xs) (length ys)) e ps qs
          (c ∙ compare.suc-suc (length xs) (length ys)) refl in
      rw (m ∙ min-suc (length xs) (length ys)) (
        rw
          (
            split_at-append width (key.value.as_bytes x) (joined key.value xs)
                (law.is_value.width x width px e),
            compare_of_width,
          )
          (rw
            (split_at-append width (key.value.as_bytes y) (joined key.value ys)
              (law.is_value.width y width qy e))
            (rw (law.agrees x y px qy)
              (ap (or_later (some (cmp x y))) rest ∙ or_later-some (cmp x y) (vec_cmp cmp xs ys)))))

  next_item-append :
      (bytes rest : List ℕ)
      → length bytes < 2 ^ 64
      → next_item key (encode_usize_varint (length bytes) ++ (bytes ++ rest)) ≡ some (bytes, rest)
  unfolding next_item
  next_item-append bytes rest h =
      rw (decode_usize_varint-encode_usize_varint (length bytes) (bytes ++ rest) h, next_item)
        (split_at-append (length bytes) bytes rest refl)

  compare_with_lengths-joined_with_lengths :
      (xs ys : List A) (counts : Ordering) (common : ℕ)
      → FitsAll Fits key.value xs
      → FitsAll Fits key.value ys
      → counts ≡ compare (length xs) (length ys)
      → common ≡ min (length xs) (length ys)
      → compare_with_lengths key counts common
          (joined_with_lengths key.value xs)
          (joined_with_lengths key.value ys)
        ≡ some (vec_cmp cmp xs ys)
  unfolding compare_with_lengths joined_with_lengths
  compare_with_lengths-joined_with_lengths [] [] counts common p q c m = rw (m, c) refl
  compare_with_lengths-joined_with_lengths [] (y ∷ ys) counts common p q c m =
      rw (m ∙ min-zero (length (y ∷ ys)), c ∙ compare.zero-suc (length ys)) refl
  compare_with_lengths-joined_with_lengths (x ∷ xs) [] counts common p q c m =
      rw (m ∙ zero-min (length (x ∷ xs)), c ∙ compare.suc-zero (length xs)) refl
  compare_with_lengths-joined_with_lengths (x ∷ xs) (y ∷ ys) counts common (px, sx, ps) (qy, sy, qs)
        c m =
      let rest =
        compare_with_lengths-joined_with_lengths xs ys counts (min (length xs) (length ys)) ps qs
          (c ∙ compare.suc-suc (length xs) (length ys)) refl in
      rw (m ∙ min-suc (length xs) (length ys)) (
        rw
          (
            next_item-append (key.value.as_bytes x) (joined_with_lengths key.value xs) sx,
            compare_with_lengths,
          )
          (rw (next_item-append (key.value.as_bytes y) (joined_with_lengths key.value ys) sy) (
            rw (law.agrees x y px qy)
              (ap (or_later (some (cmp x y))) rest ∙ or_later-some (cmp x y) (vec_cmp cmp xs ys)))))

  decoded_with_lengths :
      (xs : List A)
      → key.value.fixed_width ≡ none
      → length xs < 2 ^ 64
      → decode_usize_varint (vec_as_bytes key.value xs)
        ≡ some (length xs, joined_with_lengths key.value xs)
  unfolding vec_as_bytes
  decoded_with_lengths xs e few =
      rw (e, vec_as_bytes) (decode_usize_varint-encode_usize_varint (length xs) _ few)

  decoded_of_width :
      (width : ℕ) (xs : List A)
      → key.value.fixed_width ≡ some width
      → length xs < 2 ^ 64
      → decode_usize_varint (vec_as_bytes key.value xs) ≡ some (length xs, joined key.value xs)
  unfolding vec_as_bytes
  decoded_of_width width xs e few =
      rw (e, vec_as_bytes) (decode_usize_varint-encode_usize_varint (length xs) _ few)

  vec_compare-vec_as_bytes :
      (xs ys : List A)
      → FitsVec Fits key.value xs
      → FitsVec Fits key.value ys
      → vec_compare key (vec_as_bytes key.value xs) (vec_as_bytes key.value ys)
        ≡ some (vec_cmp cmp xs ys)
  unfolding vec_compare
  vec_compare-vec_as_bytes xs ys (few, fits) (few', fits') =
      elim (Option-cases key.value.fixed_width) [
        | inl e ↦
            rw (decoded_with_lengths xs e few, vec_compare)
              (rw (decoded_with_lengths ys e few')
                (rw e (compare_with_lengths-joined_with_lengths xs ys _ _ fits fits' refl refl)))
        | inr (width, e) ↦
            rw (decoded_of_width width xs e few, vec_compare)
              (rw (decoded_of_width width ys e few')
                (rw e (compare_of_width-joined width xs ys _ _ e fits fits' refl refl)))
      ]

  option_compare-option_as_bytes :
      (x y : Option A)
      → FitsOption Fits x
      → FitsOption Fits y
      → option_compare key
          ((option_value key.value).as_bytes x)
          ((option_value key.value).as_bytes y)
        ≡ some (option_cmp cmp x y)
  option_compare-option_as_bytes (some a) (some b) p q = law.agrees a b p q
  option_compare-option_as_bytes (some a) none p q = elim (Option-cases key.value.fixed_width) [
    | inl e ↦ rw e refl
    | inr (w, e) ↦ rw e refl
  ]
  option_compare-option_as_bytes none (some b) p q = elim (Option-cases key.value.fixed_width) [
    | inl e ↦ rw e refl
    | inr (w, e) ↦ rw e refl
  ]
  option_compare-option_as_bytes none none p q = elim (Option-cases key.value.fixed_width) [
    | inl e ↦ rw e refl
    | inr (w, e) ↦ rw e refl
  ]

  -- If the keys of a type survive their bytes and compare by their order, so do the vectors of them,
  -- in the order of dictionaries, if their lengths and those of their items' bytes are numbers of 64
  -- bits.
  pub vec_key-IsKey : IsKey (FitsVec Fits key.value) (vec_cmp cmp) (vec_key key)
  vec_key-IsKey = record {
    is_value = vec_value-IsValue Fits key.value law.is_value;
    agrees = vec_compare-vec_as_bytes;
  }

  -- If the keys of a type survive their bytes and compare by their order, so do the optional keys,
  -- with none before all others.
  pub option_key-IsKey : IsKey (FitsOption Fits) (option_cmp cmp) (option_key key)
  option_key-IsKey = record {
    is_value = option_value-IsValue Fits key.value law.is_value;
    agrees = option_compare-option_as_bytes;
  }
