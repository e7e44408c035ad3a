-- ===== src/Page/Leaf/Search.antt =====
-- The binary search of a leaf, `position` and `find_key` of crates/storage/src/page/leaf.rs. A panic
-- of the comparison is none.
use Prim.Native.Nat.{Ordering}
use native.Mathlib.Nat.{pow-suc}
use flux_db.Common.{
  ℕ, zero, suc, ◌+◌, ◌-◌, ◌/◌, ◌^◌, ◌<◌, ◌≤◌, ◌≡◌, ◌≢◌, ◌⊎◌, Bool, true, false, Option, none, some,
  ltb, arith, refl, if◌then◌else◌, ltb→lt, Bool-cases, inl, inr,
}
use flux_db.Values.Keys.{Key, IsKey}
use flux_db.Page.Leaf.{Accessor, key_bytes_at}

-- The loop of `position`, for at most so many rounds; `answer` compares the key of a slot with the
-- query.
unfoldable pub search : (ℕ → Option Ordering) → ℕ → ℕ → ℕ → Option (ℕ × Bool)
search answer zero lo hi = if ltb lo hi then none else some (lo, false)
search answer (suc rounds) lo hi = elim (ltb lo hi) [
  | false ↦ some (lo, false)
  | true ↦
      let mid = lo + (hi - lo) / 2 in
      elim (answer mid) [
        | none ↦ none
        | some Ordering.lt ↦ search answer rounds (mid + 1) hi
        | some Ordering.gt ↦ search answer rounds lo mid
        | some Ordering.eq ↦ some (mid, true)
      ]
]

module _ {ℓ} {A : Type ℓ} (key : Key A) (acc : Accessor) (query : A) where
  -- `K::compare(self.key_bytes_at(mid), query_bytes)`
  unfoldable pub compare_at : ℕ → Option Ordering
  compare_at mid = key.compare_bytes (key_bytes_at acc mid) (key.value.as_bytes query)

  -- The number of slots is a `u16`: sixteen rounds halve it to nothing.
  unfoldable pub position : Option (ℕ × Bool)
  unfolding search compare_at
  position = search compare_at 16 0 acc.num_pairs

  unfoldable pub find_key : Option (Option ℕ)
  unfolding position
  find_key = elim position [
    | none ↦ none
    | some (idx, true) ↦ some (some idx)
    | some (idx, false) ↦ some none
  ]

-- An index splits the slots at the query: the keys before it are less, and then it is the index of
-- a key that is equal, or every key from it on is greater.
abbrev pub Splits : (ℕ → Ordering) → ℕ → ℕ × Bool → Type 0
Splits answer n (i, true) = (i < n) × (answer i ≡ Ordering.eq)
Splits answer n (i, false) =
    (i ≤ n)
    × ((j : ℕ) → j < i → answer j ≡ Ordering.lt)
    × ((j : ℕ) → i ≤ j → j < n → answer j ≡ Ordering.gt)

-- The answers on sorted keys: first less, then equal, then greater.
pub record IsMonotone (answer : ℕ → Ordering) (n : ℕ) : Type 0 where
  pub less_before : (i j : ℕ) → i < j → j < n → answer j ≡ Ordering.lt → answer i ≡ Ordering.lt
  pub greater_after : (i j : ℕ) → i < j → j < n → answer i ≡ Ordering.gt → answer j ≡ Ordering.gt

Ordering-cases : (o : Ordering) → (o ≡ Ordering.lt) ⊎ (o ≡ Ordering.eq) ⊎ (o ≡ Ordering.gt)
Ordering-cases Ordering.lt = inl refl
Ordering-cases Ordering.eq = inr (inl refl)
Ordering-cases Ordering.gt = inr (inr refl)

module _ (answer : ℕ → Ordering) (n : ℕ) (mono : IsMonotone answer n) where
  less_upto :
      (mid : ℕ)
      → mid < n
      → answer mid ≡ Ordering.lt
      → (j : ℕ) → j < mid + 1
      → answer j ≡ Ordering.lt
  less_upto mid h e j l = elim (Bool-cases (ltb j mid)) [
    | inl b ↦ mono.less_before j mid (ground arith) h e
    | inr b ↦ let same : j ≡ mid = ground arith in rw same e
  ]

  greater_from :
      (mid : ℕ) → answer mid ≡ Ordering.gt → (j : ℕ) → mid ≤ j → j < n → answer j ≡ Ordering.gt
  greater_from mid e j l h = elim (Bool-cases (ltb mid j)) [
    | inl b ↦ mono.greater_after mid j (ground arith) h e
    | inr b ↦ let same : j ≡ mid = ground arith in rw same e
  ]

  search-Splits :
      (answers : ℕ → Option Ordering)
      → ((j : ℕ) → j < n → answers j ≡ some (answer j))
      → (rounds lo hi : ℕ) → hi - lo < 2 ^ rounds
      → lo ≤ hi
      → hi ≤ n
      → ((j : ℕ) → j < lo → answer j ≡ Ordering.lt)
      → ((j : ℕ) → hi ≤ j → j < n → answer j ≡ Ordering.gt)
      → (p : ℕ × Bool) × (search answers rounds lo hi ≡ some p) × Splits answer n p
  unfolding search
  search-Splits answers known zero lo hi small o fits below above =
      let empty : ltb lo hi ≡ false = ground arith in
      ((lo, false), rw (empty, search) refl, (omega arith, below, λ j a b. above j (omega arith) b))
  search-Splits answers known (suc rounds) lo hi small o fits below above =
      let mid = lo + (hi - lo) / 2 in
      elim (Bool-cases (ltb lo hi)) [
        | inr e ↦ (
          (lo, false),
          rw (e, search) refl,
          (omega arith, below, λ j a b. above j (ground arith) b),
        )
        | inl e ↦
            let l = ltb→lt lo hi e in
            let pow = pow-suc 2 rounds in
            elim (Ordering-cases (answer mid)) [
              | inl c ↦
                  let (p, found, s) =
                    search-Splits answers known rounds (mid + 1) hi (omega arith) (omega arith) fits
                      (less_upto mid (omega arith) c) above in
                  (p, rw (e, known mid (omega arith), c, search) found, s)
              | inr (inl c) ↦
                  ((mid, true), rw (e, known mid (omega arith), c, search) refl, (omega arith, c))
              | inr (inr c) ↦
                  let (p, found, s) =
                    search-Splits answers known rounds lo mid (omega arith) (omega arith)
                      (omega arith) below (greater_from mid c) in
                  (p, rw (e, known mid (omega arith), c, search) found, s)
            ]
      ]

-- A comparison is that of a linear order.
pub record IsOrder {ℓ} {A : Type ℓ} (cmp : A → A → Ordering) : Type ℓ where
  pub less : (a b c : A) → cmp a b ≢ Ordering.gt → cmp b c ≡ Ordering.lt → cmp a c ≡ Ordering.lt
  pub greater : (a b c : A) → cmp a b ≢ Ordering.gt → cmp a c ≡ Ordering.gt → cmp b c ≡ Ordering.gt

-- The slots hold the keys, in ascending order, where equal keys may follow each other.
pub record IsSorted {ℓ} {A : Type ℓ} (Fits : A → Type 0) (cmp : A → A → Ordering) (key : Key A)
    (acc : Accessor) (keys : ℕ → A) : Type ℓ where
  pub held : (i : ℕ) → i < acc.num_pairs → key_bytes_at acc i ≡ key.value.as_bytes (keys i)
  pub in_range : (i : ℕ) → i < acc.num_pairs → Fits (keys i)
  pub ascending : (i j : ℕ) → i < j → j < acc.num_pairs → cmp (keys i) (keys j) ≢ Ordering.gt

module _ {ℓ} {A : Type ℓ} {Fits : A → Type 0} {cmp : A → A → Ordering} {key : Key A}
    {acc : Accessor} (query : A) {keys : ℕ → A} where
  -- For a key type whose comparison of bytes is that of a linear order, on a leaf whose slots hold
  -- keys of the type in ascending order, `position` ends after at most sixteen rounds, finds the
  -- index of an equal key if it says so, and otherwise the index before which all keys are less and
  -- from which on all are greater.
  pub position-Splits :
      IsKey Fits cmp key
      → IsOrder cmp
      → Fits query
      → acc.num_pairs < 2 ^ 16
      → IsSorted Fits cmp key acc keys
      → (p : ℕ × Bool) × (position key acc query ≡ some p)
        × Splits (λ i. cmp (keys i) query) acc.num_pairs p
  unfolding position compare_at
  position-Splits is_key order q small sorted =
      search-Splits (λ i. cmp (keys i) query) acc.num_pairs
        (record {
          less_before = λ i j l h e. order.less _ _ _ (sorted.ascending i j l h) e;
          greater_after = λ i j l h e. order.greater _ _ _ (sorted.ascending i j l h) e;
        })
        (compare_at key acc query)
        (λ j h.
          rw (sorted.held j h, compare_at) (is_key.agrees (keys j) query (sorted.in_range j h) q))
        16 0 acc.num_pairs (omega arith) (omega arith) (omega arith) (λ j h. absurd (omega arith))
        (λ j h h'. absurd (omega arith))
