-- ===== src/Wal/Ring/CopyOut.antt =====
-- The loop of `copy_records` in crates/storage/src/wal.rs, on a ring that has the bytes of a record.
use Prim.Native.Nat.{min}
use mathlib.Core.Path.{ap₂}
use flux_db.Common.{
  ℕ, zero, suc, ◌+◌, ◌-◌, ◌%◌, ◌<◌, ◌≤◌, ◌≡◌, refl, Option, some, List, [], ◌∷◌, ◌++◌, length,
  get_or, take, drop, length-drop, arith, ◌∙◌, sym, ap, ◌==◌, false,
}
use flux_db.Page.Slices.{slice}
use flux_db.Page.Frames.{slice-SameBytes}
use flux_db.Page.FreeSpace.Scan.{get_or-drop}
use flux_db.Wal.Ring.{copy_out}
use flux_db.Wal.Ring.Content.{place, place_cases, mod-place, place-place}

module _ (bytes : List ℕ) where
  -- The ring has the bytes `xs` from a position on.
  abbrev pub Lies : ℕ → List ℕ → Type 0
  Lies cursor xs =
      (k : ℕ) → k < length xs → get_or bytes (place (length bytes) cursor k) 0 ≡ get_or xs k 0

  take-drop : (n : ℕ) (xs : List ℕ) → take n xs ++ drop n xs ≡ xs
  take-drop zero xs = refl
  take-drop (suc n) [] = refl
  take-drop (suc n) (x ∷ xs) = ap (λ ys. x ∷ ys) (take-drop n xs)

  pub place-zero : (cursor : ℕ) → cursor < length bytes → place (length bytes) cursor 0 ≡ cursor
  place-zero cursor c = let cases = place_cases (length bytes) cursor 0 in omega arith

  first_chunk :
      (cursor chunk : ℕ) (xs : List ℕ)
      → chunk ≤ length xs
      → cursor + chunk ≤ length bytes
      → Lies cursor xs
      → slice bytes cursor chunk ≡ take chunk xs
  first_chunk cursor chunk xs a b h =
      slice-SameBytes chunk bytes xs cursor 0 b (omega arith) (record {
        agree = λ k l.
            let cases = place_cases (length bytes) cursor k in
            let here : cursor + k ≡ place (length bytes) cursor k = omega arith in
            let there : k ≡ 0 + k = omega arith in
            ap (λ j. get_or bytes j 0) here ∙ h k (omega arith) ∙ ap (λ j. get_or xs j 0) there;
      })

  some_pair :
      {xs ys : List ℕ} {p q : ℕ}
      → xs ≡ ys
      → p ≡ q
      → ◌≡◌ {A = Option (List ℕ × ℕ)} (some (xs, p)) (some (ys, q))
  some_pair e f = ap₂ (λ zs p. some (zs, p)) e f

  copy_out_step :
      (rounds left cursor : ℕ) (rest : List ℕ) (cursor' : ℕ)
      → 0 < left
      → copy_out bytes rounds
          (left - min left (length bytes - cursor))
          ((cursor + min left (length bytes - cursor)) % length bytes)
        ≡ some (rest, cursor')
      → copy_out bytes (suc rounds) left cursor
        ≡ some (slice bytes cursor (min left (length bytes - cursor)) ++ rest, cursor')
  unfolding copy_out
  copy_out_step rounds left cursor rest cursor' pos h =
      let test : (left == 0) ≡ false = ground arith in rw (test, copy_out) (rw h refl)

  pub copy_out-Lies :
      (rounds cursor : ℕ) (xs : List ℕ)
      → cursor < length bytes
      → length xs ≤ length bytes
      → length xs ≤ rounds
      → Lies cursor xs
      → copy_out bytes rounds (length xs) cursor
        ≡ some (xs, place (length bytes) cursor (length xs))
  unfolding copy_out
  copy_out-Lies zero cursor [] c f r h = ap (λ p. some ([], p)) (sym (place-zero cursor c))
  copy_out-Lies (suc rounds) cursor [] c f r h = ap (λ p. some ([], p)) (sym (place-zero cursor c))
  copy_out-Lies zero cursor (x ∷ xs) c f r h = absurd (omega arith)
  copy_out-Lies (suc rounds) cursor (x ∷ xs) c f r h =
      let ys = x ∷ xs in
      let chunk = min (length ys) (length bytes - cursor) in
      let rest = drop chunk ys in
      let left = length-drop chunk ys in
      let cursor' = place (length bytes) cursor chunk in
      let inside = place_cases (length bytes) cursor chunk in
      let later =
        copy_out-Lies rounds cursor' rest (omega arith) (omega arith) (omega arith) (λ k l.
          let whole : get_or ys (chunk + k) 0 ≡ get_or rest k 0 = sym (get_or-drop chunk k ys) in
          ap (λ j. get_or bytes j 0) (place-place (length bytes) cursor chunk k c (omega arith))
          ∙ h (chunk + k) (omega arith)
          ∙ whole) in
      let step = mod-place (length bytes) cursor chunk c (omega arith) in
      let end : place (length bytes) cursor' (length rest)
          ≡ place (length bytes) cursor (length ys) =
        place-place (length bytes) cursor chunk (length rest) c (omega arith)
        ∙ ap (place (length bytes) cursor) (omega arith) in
      let same_chunk = first_chunk cursor chunk ys (omega arith) (omega arith) h in
      copy_out_step rounds (length ys) cursor rest (place (length bytes) cursor' (length rest))
        (omega arith) (ap₂ (copy_out bytes rounds) (sym left) step ∙ later)
      ∙ some_pair (ap (λ zs. zs ++ rest) same_chunk ∙ take-drop chunk ys) end
