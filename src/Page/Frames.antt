-- ===== src/Page/Frames.antt =====
-- Stretches of pages that agree, and what a copy within a page moves: `copy_within` of slices.
use mathlib.Core.Path.{ap₂}
use flux_db.Common.{
  ℕ, zero, suc, ◌+◌, ◌<◌, ◌≤◌, ◌≡◌, ◌⊎◌, inl, refl, List, [], ◌∷◌, length, get_or, set, drop, arith,
  ◌∙◌, sym, get_or-set_self, length-set, length-take, length-drop,
}
use flux_db.Page.Bytes.{Page, read_le}
use flux_db.Page.Slices.{copy_within, slice, slice-cons, write_bytes, get_or-write_bytes}

-- Two stretches of `n` bytes that agree.
pub record SameBytes (page : Page) (off : ℕ) (page' : Page) (off' n : ℕ) : Type 0 where
  pub agree : (k : ℕ) → k < n → get_or page (off + k) 0 ≡ get_or page' (off' + k) 0

pub same_at :
    {page page' : Page} {off off' n : ℕ}
    → SameBytes page off page' off' n
    → (k i i' : ℕ) → k < n
    → i ≡ off + k
    → i' ≡ off' + k
    → get_or page i 0 ≡ get_or page' i' 0
same_at h k i i' b e e' = rw (e, e') (h.agree k b)

-- A part of two stretches that agree.
pub SameBytes-sub :
    {page page' : Page} {off off' n : ℕ}
    → SameBytes page off page' off' n
    → (d m a a' : ℕ) → d + m ≤ n
    → a ≡ off + d
    → a' ≡ off' + d
    → SameBytes page a page' a' m
SameBytes-sub h d m a a' b e e' = record {
  agree = λ k c. same_at h (d + k) (a + k) (a' + k) (omega arith) (omega arith) (omega arith);
}

pub read_le-SameBytes :
    (n : ℕ) (page page' : Page) (off off' : ℕ)
    → SameBytes page off page' off' n
    → read_le n page off ≡ read_le n page' off'
unfolding read_le
read_le-SameBytes zero page page' off off' h = refl
read_le-SameBytes (suc n) page page' off off' h = omega (
  arith,
  same_at h 0 off off' (omega arith) (omega arith) (omega arith),
  read_le-SameBytes n page page' (off + 1) (off' + 1)
      (SameBytes-sub h 1 n (off + 1) (off' + 1) (omega arith) refl refl),
)

-- Slices inside both pages.
pub slice-SameBytes :
    (n : ℕ) (page page' : Page) (off off' : ℕ)
    → off + n ≤ length page
    → off' + n ≤ length page'
    → SameBytes page off page' off' n
    → slice page off n ≡ slice page' off' n
slice-SameBytes zero page page' off off' b b' h = refl
slice-SameBytes (suc n) page page' off off' b b' h =
    slice-cons page off n (omega arith)
    ∙ ap₂ ◌∷◌ (same_at h 0 off off' (omega arith) (omega arith) (omega arith)) (
        slice-SameBytes n page page' (suc off) (suc off') (omega arith) (omega arith)
          (SameBytes-sub h 1 n (suc off) (suc off') (omega arith) (omega arith) (omega arith)))
    ∙ sym (slice-cons page' off' n (omega arith))

-- What a copy puts at its destination.
pub get_or-slice :
    (page : Page) (off len k j : ℕ)
    → k < len
    → j ≡ off + k
    → off + len ≤ length page
    → get_or (slice page off len) k 0 ≡ get_or page j 0
get_or-slice [] off len k j h e b = absurd (omega arith)
get_or-slice (x ∷ page) off zero k j h e b = absurd (omega arith)
get_or-slice (x ∷ page) zero (suc len) zero zero h e b = refl
get_or-slice (x ∷ page) zero (suc len) zero (suc j) h e b = absurd (omega arith)
get_or-slice (x ∷ page) zero (suc len) (suc k) zero h e b = absurd (omega arith)
get_or-slice (x ∷ page) zero (suc len) (suc k) (suc j) h e b =
    get_or-slice page zero len k j (omega arith) (omega arith) (omega arith)
get_or-slice (x ∷ page) (suc off) (suc len) k zero h e b = absurd (omega arith)
get_or-slice (x ∷ page) (suc off) (suc len) k (suc j) h e b =
    get_or-slice page off (suc len) k j h (omega arith) (omega arith)

pub get_or-write_bytes_self :
    (bytes : List ℕ) (page : Page) (off k j : ℕ)
    → k < length bytes
    → j ≡ off + k
    → off + length bytes ≤ length page
    → get_or (write_bytes page off bytes) j 0 ≡ get_or bytes k 0
unfolding write_bytes
get_or-write_bytes_self [] page off k j h e b = absurd (omega arith)
get_or-write_bytes_self (x ∷ bytes) page off zero j h e b =
    let same : j ≡ off = omega arith in
    rw same (
      get_or-write_bytes bytes (set page off x) (off + 1) off (inl (omega arith))
      ∙ get_or-set_self page off x 0 (omega arith))
get_or-write_bytes_self (x ∷ bytes) page off (suc k) j h e b =
    get_or-write_bytes_self bytes (set page off x) (off + 1) k j (omega arith) (omega arith)
      (omega (arith, length-set page off x))

pub length-slice :
    (page : Page) (off len : ℕ) → off + len ≤ length page → length (slice page off len) ≡ len
length-slice page off len b = omega (arith, length-take len (drop off page), length-drop off page)

module _ (page : Page) (src len dest : ℕ) (b : src + len ≤ length page) where
  pub get_or-copy_within_self :
      (k to from : ℕ)
      → k < len
      → to ≡ dest + k
      → from ≡ src + k
      → dest + len ≤ length page
      → get_or (copy_within page src len dest) to 0 ≡ get_or page from 0
  get_or-copy_within_self k to from h e e' b' =
      let l = length-slice page src len b in
      get_or-write_bytes_self (slice page src len) page dest k to (omega (arith, l)) e
        (omega (arith, l))
      ∙ get_or-slice page src len k from h e' b

  pub get_or-copy_within :
      (j : ℕ)
      → (j < dest) ⊎ (dest + len ≤ j)
      → get_or (copy_within page src len dest) j 0 ≡ get_or page j 0
  get_or-copy_within j h =
      get_or-write_bytes (slice page src len) page dest j
        (omega (arith, length-slice page src len b))
