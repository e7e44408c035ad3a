-- ===== src/Page/Slices.antt =====
-- Slices of a page: `data[off..off + len]` and `copy_from_slice`.
use native.Mathlib.Numerals.{add-one}
use mathlib.Core.Path.{ap₂}
use flux_db.Common.{
  ℕ, zero, suc, ◌+◌, ◌<◌, ◌≤◌, ◌≡◌, ◌⊎◌, refl, List, [], ◌∷◌, get_or, set, length, length-set,
  get_or-set_self, get_or-set_ne, take, drop, arith, ◌∙◌, inl, replicate,
}
use flux_db.Page.Bytes.{Page, read_le, Apart}

-- `data[off..off + len]`
abbrev pub slice : Page → ℕ → ℕ → List ℕ
slice page off len = take len (drop off page)

-- `data[off..off + bytes.len()].copy_from_slice(bytes)`
unfoldable pub write_bytes : Page → ℕ → List ℕ → Page
write_bytes page off [] = page
write_bytes page off (b ∷ bytes) = write_bytes (set page off b) (off + 1) bytes

-- `copy_within(src..src + len, dest)`
abbrev pub copy_within : Page → ℕ → ℕ → ℕ → Page
copy_within page src len dest = write_bytes page dest (slice page src len)

-- `data.fill(0)`
abbrev pub fill_zero : Page → Page
fill_zero page = replicate (length page) 0

pub length-write_bytes :
    (bytes : List ℕ) (page : Page) (off : ℕ) → length (write_bytes page off bytes) ≡ length page
unfolding write_bytes
length-write_bytes [] page off = refl
length-write_bytes (b ∷ bytes) page off =
    length-write_bytes bytes (set page off b) (off + 1) ∙ length-set page off b

pub get_or-write_bytes :
    (bytes : List ℕ) (page : Page) (off j : ℕ)
    → (j < off) ⊎ (off + length bytes ≤ j)
    → get_or (write_bytes page off bytes) j 0 ≡ get_or page j 0
unfolding write_bytes
get_or-write_bytes [] page off j h = refl
get_or-write_bytes (b ∷ bytes) page off j h =
    get_or-write_bytes bytes (set page off b) (off + 1) j (omega arith)
    ∙ get_or-set_ne page off j b 0 (omega arith)

pub read_le-write_bytes_ne :
    (n : ℕ) (bytes : List ℕ) (page : Page) (off off' : ℕ)
    → Apart off n off' (length bytes)
    → read_le n (write_bytes page off' bytes) off ≡ read_le n page off
unfolding read_le
read_le-write_bytes_ne zero bytes page off off' h = refl
read_le-write_bytes_ne (suc n) bytes page off off' h = omega (
  arith,
  get_or-write_bytes bytes page off' off (omega arith),
  read_le-write_bytes_ne n bytes page (off + 1) off' (omega arith),
)

pub slice-cons :
    (page : Page) (off len : ℕ)
    → off < length page
    → slice page off (suc len) ≡ get_or page off 0 ∷ slice page (suc off) len
slice-cons [] off len h = absurd (omega arith)
slice-cons (b ∷ page) zero len h = refl
slice-cons (b ∷ page) (suc off) len h = slice-cons page off len (omega arith)

pub slice-write_bytes_self :
    (bytes : List ℕ) (page : Page) (off : ℕ)
    → off + length bytes ≤ length page
    → slice (write_bytes page off bytes) off (length bytes) ≡ bytes
unfolding write_bytes
slice-write_bytes_self [] page off h = refl
slice-write_bytes_self (b ∷ bytes) page off h =
    let page' = set page off b in
    let written = write_bytes page' (off + 1) bytes in
    slice-cons written off (length bytes)
      (omega (arith, length-write_bytes bytes page' (off + 1), length-set page off b))
    ∙ ap₂ ◌∷◌
        (get_or-write_bytes bytes page' (off + 1) off (inl (omega arith))
          ∙ get_or-set_self page off b 0 (omega arith))
        (rw (← add-one off)
          (slice-write_bytes_self bytes page' (off + 1) (omega (arith, length-set page off b))))
