-- ===== src/Common/Collect.antt =====
-- The list of the values of a function at consecutive numbers, and how it changes when the function
-- gains, loses or changes a value.
use Prim.Native.Nat.{ℕ, zero, suc, ◌+◌, ◌≤◌, ◌<◌}
use mathlib.Core.Path.{◌≡◌, refl, sym, ap, ap₂}
use mathlib.Core.Logic.{◌≢◌}
use mathlib.Core.List.{List, [], ◌∷◌, ◌++◌}
use native.Mathlib.Numerals.{unary_clauses}
use native.Mathlib.Omega.{arith}
use flux_db.Common.Lists.{length, set, take, drop}

module _ {ℓ} {A : Type ℓ} where
  abbrev pub collect : (ℕ → A) → ℕ → ℕ → List A
  collect f i zero = []
  collect f i (suc n) = f i ∷ collect f (suc i) n

  pub length-collect : (f : ℕ → A) (i n : ℕ) → length (collect f i n) ≡ n
  length-collect f i zero = refl
  length-collect f i (suc n) = ap suc (length-collect f (suc i) n)

  pub collect-congr :
      (f g : ℕ → A) (i n : ℕ)
      → ((j : ℕ) → i ≤ j → j < i + n → f j ≡ g j)
      → collect f i n ≡ collect g i n
  collect-congr f g i zero h = refl
  collect-congr f g i (suc n) h =
      ap₂ ◌∷◌ (h i (omega arith) (omega arith))
        (collect-congr f g (suc i) n (λ j a b. h j (omega arith) (omega arith)))

  pub collect-suc :
      (f g : ℕ → A) (i n : ℕ)
      → ((j : ℕ) → i ≤ j → j < i + n → f (suc j) ≡ g j)
      → collect f (suc i) n ≡ collect g i n
  collect-suc f g i zero h = refl
  collect-suc f g i (suc n) h =
      ap₂ ◌∷◌ (h i (omega arith) (omega arith))
        (collect-suc f g (suc i) n (λ j a b. h j (omega arith) (omega arith)))

  pub collect_inserted :
      (f g : ℕ → A) (r : A) (i n pos : ℕ)
      → pos ≤ n
      → ((j : ℕ) → i ≤ j → j < i + pos → f j ≡ g j)
      → f (i + pos) ≡ r
      → ((j : ℕ) → i + pos ≤ j → j < i + n → f (suc j) ≡ g j)
      → collect f i (suc n) ≡ take pos (collect g i n) ++ r ∷ drop pos (collect g i n)
  collect_inserted f g r i n zero b before here later =
      ap₂ ◌∷◌ (simp unary_clauses at here)
        (collect-suc f g i n (λ j a b. later j (omega arith) (omega arith)))
  collect_inserted f g r i zero (suc pos) b before here later = absurd (omega arith)
  collect_inserted f g r i (suc n) (suc pos) b before here later =
      let same : suc i + pos ≡ i + suc pos = omega arith in
      ap₂ ◌∷◌ (before i (omega arith) (omega arith)) (
        collect_inserted f g r (suc i) n pos (omega arith)
          (λ j a b. before j (omega arith) (omega arith)) (rw same here)
          (λ j a b. later j (omega arith) (omega arith)))

  pub collect_removed :
      (f g : ℕ → A) (i n pos : ℕ)
      → pos ≤ n
      → ((j : ℕ) → i ≤ j → j < i + pos → f j ≡ g j)
      → ((j : ℕ) → i + pos ≤ j → j < i + n → f j ≡ g (suc j))
      → collect f i n ≡ take pos (collect g i (suc n)) ++ drop (suc pos) (collect g i (suc n))
  collect_removed f g i n zero b before later =
      sym (collect-suc g f i n (λ j a b. sym (later j (omega arith) (omega arith))))
  collect_removed f g i zero (suc pos) b before later = absurd (omega arith)
  collect_removed f g i (suc n) (suc pos) b before later =
      ap₂ ◌∷◌ (before i (omega arith) (omega arith)) (
        collect_removed f g (suc i) n pos (omega arith)
          (λ j a b. before j (omega arith) (omega arith))
          (λ j a b. later j (omega arith) (omega arith)))

  pub collect-set :
      (f g : ℕ → A) (r : A) (i n pos : ℕ)
      → f (i + pos) ≡ r
      → ((j : ℕ) → i ≤ j → j < i + n → j ≢ i + pos → f j ≡ g j)
      → collect f i n ≡ set (collect g i n) pos r
  collect-set f g r i zero pos here others = refl
  collect-set f g r i (suc n) zero here others =
      ap₂ ◌∷◌ (simp unary_clauses at here)
        (collect-congr f g (suc i) n (λ j a b. others j (omega arith) (omega arith) (omega arith)))
  collect-set f g r i (suc n) (suc pos) here others =
      let same : suc i + pos ≡ i + suc pos = omega arith in
      ap₂ ◌∷◌ (others i (omega arith) (omega arith) (omega arith)) (
        collect-set f g r (suc i) n pos (rw same here)
          (λ j a b c. others j (omega arith) (omega arith) (omega arith)))
