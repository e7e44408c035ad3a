-- ===== src/Wal/Ring/Content.antt =====
-- What the circular buffer of crates/storage/src/wal.rs holds: a queue of records, whose bytes lie
-- one after the other in the ring from the read position on.
use native.Mathlib.Nat.{mod-eq_of_lt, mod-eq-sub-mod}
use flux_db.Common.{
  ℕ, zero, suc, ◌+◌, ◌-◌, ◌%◌, ◌<◌, ◌≤◌, ◌≡◌, ◌⊎◌, inl, inr, refl, List, [], ◌∷◌, ◌++◌, map,
  append_assoc, length, length-append, get_or, arith, ◌∙◌, sym, ap, ltb, if◌then◌else◌,
}
use flux_db.Wal.Ring.{WalBuffer, BufferedRecord, capacity, total_len}

-- The bytes of the records, one after the other.
abbrev pub flat : List (ℕ × List ℕ) → List ℕ
flat [] = []
flat ((lsn, bytes) ∷ rest) = bytes ++ flat rest

abbrev pub entry_of : ℕ × List ℕ → BufferedRecord
entry_of (lsn, bytes) = record { lsn = lsn; len = length bytes }

abbrev pub NoneEmpty : List (ℕ × List ℕ) → Type 0
NoneEmpty [] = Unit
NoneEmpty ((lsn, bytes) ∷ rest) = (0 < length bytes) × NoneEmpty rest

-- The place in the ring `k` bytes behind position `p`.
unfoldable pub place : ℕ → ℕ → ℕ → ℕ
place cap p k = if ltb (p + k) cap then p + k else p + k - cap

pub place_cases :
    (cap p k : ℕ)
    → ((p + k < cap) × (place cap p k ≡ p + k)) ⊎ ((cap ≤ p + k) × (place cap p k ≡ p + k - cap))
unfolding place
place_cases cap p k = ground arith

-- `%` by the capacity, of a number below twice the capacity.
pub mod-place : (cap p k : ℕ) → p < cap → k ≤ cap → (p + k) % cap ≡ place cap p k
mod-place cap p k h b = elim (place_cases cap p k) [
  | inl (l, e) ↦ mod-eq_of_lt l ∙ sym e
  | inr (l, e) ↦ mod-eq-sub-mod l ∙ mod-eq_of_lt (omega arith) ∙ sym e
]

pub place-place :
    (cap p a b : ℕ) → p < cap → a + b ≤ cap → place cap (place cap p a) b ≡ place cap p (a + b)
place-place cap p a b h c =
    let one = place_cases cap p a in
    let two = place_cases cap (place cap p a) b in
    let both = place_cases cap p (a + b) in omega arith

pub record Holds (buf : WalBuffer) (content : List (ℕ × List ℕ)) : Type 0 where
  pub read_inside : buf.read_pos < capacity buf
  pub entries_of : buf.records ≡ map entry_of content
  pub none_empty : NoneEmpty content
  pub fits : length (flat content) ≤ capacity buf
  pub write_at : buf.write_pos ≡ place (capacity buf) buf.read_pos (length (flat content))
  pub stored :
      (k : ℕ)
      → k < length (flat content)
      → get_or buf.bytes (place (capacity buf) buf.read_pos k) 0 ≡ get_or (flat content) k 0

pub get_or-append : (xs ys : List ℕ) (k : ℕ) → k < length xs → get_or (xs ++ ys) k 0 ≡ get_or xs k 0
get_or-append [] ys k h = absurd (omega arith)
get_or-append (x ∷ xs) ys zero h = refl
get_or-append (x ∷ xs) ys (suc k) h = get_or-append xs ys k (omega arith)

pub get_or-append_more :
    (xs ys : List ℕ) (k j : ℕ) → j ≡ length xs + k → get_or (xs ++ ys) j 0 ≡ get_or ys k 0
get_or-append_more [] ys k j h = let same : j ≡ k = omega arith in rw same refl
get_or-append_more (x ∷ xs) ys k zero h = absurd (omega arith)
get_or-append_more (x ∷ xs) ys k (suc j) h = get_or-append_more xs ys k j (omega arith)

pub flat-append : (xs ys : List (ℕ × List ℕ)) → flat (xs ++ ys) ≡ flat xs ++ flat ys
flat-append [] ys = refl
flat-append ((lsn, bytes) ∷ xs) ys =
    ap (λ zs. bytes ++ zs) (flat-append xs ys) ∙ sym (append_assoc bytes (flat xs) (flat ys))

pub total_len-flat :
    (content : List (ℕ × List ℕ)) → total_len (map entry_of content) ≡ length (flat content)
total_len-flat [] = refl
total_len-flat ((lsn, bytes) ∷ rest) =
    omega (arith, total_len-flat rest, length-append bytes (flat rest))

pub map-append :
    (xs ys : List (ℕ × List ℕ)) → map entry_of (xs ++ ys) ≡ map entry_of xs ++ map entry_of ys
map-append [] ys = refl
map-append (x ∷ xs) ys = ap (λ zs. entry_of x ∷ zs) (map-append xs ys)

pub NoneEmpty-append :
    (xs ys : List (ℕ × List ℕ)) → NoneEmpty xs → NoneEmpty ys → NoneEmpty (xs ++ ys)
NoneEmpty-append [] ys h g = g
NoneEmpty-append ((lsn, bytes) ∷ xs) ys (one, h) g = (one, NoneEmpty-append xs ys h g)
