-- ===== src/Page/Leaf/Packing.antt =====
-- Stretches of a page that do not overlap take together no more than the room they lie in: the
-- records of a leaf of crates/storage/src/page/leaf.rs fit into the page that `compact` rebuilds.
use flux_db.Common.{
  ℕ, zero, suc, ◌+◌, ◌-◌, ◌<◌, ◌≤◌, ◌≡◌, inl, inr, refl, ◌&&◌, ltb, leb, if◌then◌else◌, arith,
  Bool-cases, ◌==◌, ==_iff,
}
use flux_db.Page.Bytes.{Apart}

-- The sum of `f` over the `n` numbers from `i` on.
abbrev pub sum : (ℕ → ℕ) → ℕ → ℕ → ℕ
sum f i zero = 0
sum f i (suc n) = f i + sum f (suc i) n

-- One for a byte inside a stretch.
abbrev covers : ℕ → ℕ → ℕ → ℕ
covers start size x = if leb start x && ltb x (start + size) then 1 else 0

sum_congr_add : (f g : ℕ → ℕ) (i n : ℕ) → sum (λ x. f x + g x) i n ≡ sum f i n + sum g i n
sum_congr_add f g i zero = refl
sum_congr_add f g i (suc n) = omega (arith, sum_congr_add f g (suc i) n)

sum_bounded : (f : ℕ → ℕ) (i n : ℕ) → ((x : ℕ) → f x ≤ 1) → sum f i n ≤ n
sum_bounded f i zero h = omega arith
sum_bounded f i (suc n) h = omega (arith, h i, sum_bounded f (suc i) n h)

-- What is counted of a stretch from `i` on, when it ends inside the range.
sum-covers :
    (start size i n : ℕ) → start + size ≤ i + n → sum (covers start size) i n ≡ size - (i - start)
sum-covers start size i zero b = omega arith
sum-covers start size i (suc n) b = ground (arith, sum-covers start size (suc i) n (omega arith))

-- No stretch of a family covers the byte.
sum_none : (f : ℕ → ℕ) (i n : ℕ) → ((j : ℕ) → i ≤ j → j < i + n → f j ≡ 0) → sum f i n ≡ 0
sum_none f i zero h = refl
sum_none f i (suc n) h = omega (
  arith,
  h i (omega arith) (omega arith),
  sum_none f (suc i) n (λ j a b. h j (omega arith) (omega arith)),
)

sum_zeros : (i n : ℕ) → sum (λ x. 0) i n ≡ 0
sum_zeros i n = sum_none (λ x. 0) i n (λ j a b. refl)

module _ (start size : ℕ → ℕ) where
  -- How many of the `m` stretches from `k` on cover a byte.
  abbrev coverage : ℕ → ℕ → ℕ → ℕ
  coverage k m x = sum (λ j. covers (start j) (size j) x) k m

  abbrev Separate : ℕ → ℕ → Type 0
  Separate k m = (i j : ℕ) → k ≤ i → i < j → j < k + m → Apart (start i) (size i) (start j) (size j)

  covers-Apart :
      (i j x : ℕ)
      → Apart (start i) (size i) (start j) (size j)
      → covers (start i) (size i) x ≡ 1
      → covers (start j) (size j) x ≡ 0
  covers-Apart i j x h e = ground arith

  coverage_bounded : (k m x : ℕ) → Separate k m → coverage k m x ≤ 1
  coverage_bounded k zero x h = omega arith
  coverage_bounded k (suc m) x h =
      let rest = coverage_bounded (suc k) m x (λ i j a l b. h i j (omega arith) l (omega arith)) in
      elim (Bool-cases (covers (start k) (size k) x == 1)) [
        | inl e ↦
            let here : covers (start k) (size k) x ≡ 1 = (==_iff _ _).0 e in
            omega (
              arith,
              here,
              sum_none (λ j. covers (start j) (size j) x) (suc k) m
                  (λ j a b.
                    covers-Apart k j x (h k j (omega arith) (omega arith) (omega arith)) here),
            )
        | inr e ↦ ground arith
      ]

  double_count :
      (k m lo n : ℕ)
      → ((j : ℕ) → k ≤ j → j < k + m → (lo ≤ start j) × (start j + size j ≤ lo + n))
      → sum (coverage k m) lo n ≡ sum size k m
  double_count k zero lo n h = sum_zeros lo n
  double_count k (suc m) lo n h =
      let (a, b) = h k (omega arith) (omega arith) in
      omega (
        arith,
        sum_congr_add (covers (start k) (size k)) (coverage (suc k) m) lo n,
        sum-covers (start k) (size k) lo n b,
        double_count (suc k) m lo n (λ j l u. h j (omega arith) (omega arith)),
      )

  pub sum-Separate :
      (m lo n : ℕ)
      → Separate 0 m
      → ((j : ℕ) → j < m → (lo ≤ start j) × (start j + size j ≤ lo + n))
      → sum size 0 m ≤ n
  sum-Separate m lo n apart inside = omega (
    arith,
    double_count 0 m lo n (λ j a b. inside j (omega arith)),
    sum_bounded (coverage 0 m) lo n (λ x. coverage_bounded 0 m x apart),
  )
