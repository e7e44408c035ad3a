-- ===== src/Page/Bytes.antt =====
-- Little-endian fields of a page, crates/storage/src/page/mod.rs: `read_u8` to `write_u64`. A page is
-- a list of bytes. An access out of bounds is a panic in the source; here it reads 0 and writes
-- nothing, and the theorems ask for the field to lie inside the page.
use native.Mathlib.Nat.{pow-suc}
use flux_db.Common.{
  ℕ, zero, suc, ◌+◌, ◌*◌, ◌/◌, ◌%◌, ◌^◌, ◌<◌, ◌≤◌, ◌≡◌, ◌⊎◌, inl, refl, List, [], ◌∷◌, get_or, set,
  length, length-set, get_or-set_self, get_or-set_ne, take, drop, arith, ◌∙◌,
}

abbrev pub Page : Type 0
Page = List ℕ

-- `from_le_bytes` of the `n` bytes at `off`
unfoldable pub read_le : ℕ → Page → ℕ → ℕ
read_le zero page off = 0
read_le (suc n) page off = get_or page off 0 + 256 * read_le n page (off + 1)

-- `copy_from_slice` of the `n` bytes of `to_le_bytes` to `off`
unfoldable pub write_le : ℕ → Page → ℕ → ℕ → Page
write_le zero page off val = page
write_le (suc n) page off val = write_le n (set page off (val % 256)) (off + 1) (val / 256)

abbrev pub read_u8 : Page → ℕ → ℕ
read_u8 page off = get_or page off 0

abbrev pub read_u16 : Page → ℕ → ℕ
read_u16 page off = read_le 2 page off

abbrev pub read_u32 : Page → ℕ → ℕ
read_u32 page off = read_le 4 page off

abbrev pub read_u64 : Page → ℕ → ℕ
read_u64 page off = read_le 8 page off

abbrev pub write_u8 : Page → ℕ → ℕ → Page
write_u8 page off val = set page off val

abbrev pub write_u16 : Page → ℕ → ℕ → Page
write_u16 page off val = write_le 2 page off val

abbrev pub write_u32 : Page → ℕ → ℕ → Page
write_u32 page off val = write_le 4 page off val

abbrev pub write_u64 : Page → ℕ → ℕ → Page
write_u64 page off val = write_le 8 page off val

pub length-write_le :
    (n : ℕ) (page : Page) (off val : ℕ) → length (write_le n page off val) ≡ length page
unfolding write_le
length-write_le zero page off val = refl
length-write_le (suc n) page off val =
    length-write_le n (set page off (val % 256)) (off + 1) (val / 256)
    ∙ length-set page off (val % 256)

-- A write leaves the bytes outside its field.
pub get_or-write_le :
    (n : ℕ) (page : Page) (off val j : ℕ)
    → (j < off) ⊎ (off + n ≤ j)
    → get_or (write_le n page off val) j 0 ≡ get_or page j 0
unfolding write_le
get_or-write_le zero page off val j h = refl
get_or-write_le (suc n) page off val j h =
    get_or-write_le n (set page off (val % 256)) (off + 1) (val / 256) j (omega arith)
    ∙ get_or-set_ne page off j (val % 256) 0 (omega arith)

read_le-congr :
    (n : ℕ) (page page' : Page) (off : ℕ)
    → ((j : ℕ) → off ≤ j → j < off + n → get_or page j 0 ≡ get_or page' j 0)
    → read_le n page off ≡ read_le n page' off
unfolding read_le
read_le-congr zero page page' off h = refl
read_le-congr (suc n) page page' off h = omega (
  arith,
  h off (omega arith) (omega arith),
  read_le-congr n page page' (off + 1) (λ j a b. h j (omega arith) (omega arith)),
)

-- Two fields that do not overlap.
abbrev pub Apart : ℕ → ℕ → ℕ → ℕ → Type 0
Apart off n off' n' = (off + n ≤ off') ⊎ (off' + n' ≤ off)

-- A field reads as before after a write to another field.
pub read_le-write_le_ne :
    (n m : ℕ) (page : Page) (off off' val : ℕ)
    → Apart off n off' m
    → read_le n (write_le m page off' val) off ≡ read_le n page off
read_le-write_le_ne n m page off off' val h =
    read_le-congr n (write_le m page off' val) page off
      (λ j a b. get_or-write_le m page off' val j (omega arith))

pub read_le-set_ne :
    (n : ℕ) (page : Page) (off j v : ℕ)
    → Apart off n j 1
    → read_le n (set page j v) off ≡ read_le n page off
read_le-set_ne n page off j v h =
    read_le-congr n (set page j v) page off (λ i a b. get_or-set_ne page j i v 0 (omega arith))

-- A field inside the page reads back what was written.
pub read_le-write_le_self :
    (n : ℕ) (page : Page) (off val : ℕ)
    → off + n ≤ length page
    → val < 256 ^ n
    → read_le n (write_le n page off val) off ≡ val
unfolding read_le write_le
read_le-write_le_self zero page off val h b = omega arith
read_le-write_le_self (suc n) page off val h b =
    let page' = set page off (val % 256) in
    omega (
      arith,
      get_or-write_le n page' (off + 1) (val / 256) off (inl (omega arith)),
      get_or-set_self page off (val % 256) 0 (omega arith),
      read_le-write_le_self n page' (off + 1) (val / 256)
          (omega (arith, length-set page off (val % 256))) (omega (arith, pow-suc 256 n)),
    )

-- A slice that a write does not reach.
take-set : (k : ℕ) (page : Page) (off v : ℕ) → k ≤ off → take k (set page off v) ≡ take k page
take-set zero page off v h = refl
take-set (suc k) [] off v h = refl
take-set (suc k) (b ∷ page) zero v h = absurd (omega arith)
take-set (suc k) (b ∷ page) (suc off) v h = rw (take-set k page off v (omega arith))

drop-set : (k : ℕ) (page : Page) (off v : ℕ) → off < k → drop k (set page off v) ≡ drop k page
drop-set zero page off v h = absurd (omega arith)
drop-set (suc k) [] off v h = refl
drop-set (suc k) (b ∷ page) zero v h = refl
drop-set (suc k) (b ∷ page) (suc off) v h = drop-set k page off v (omega arith)

pub take-write_le :
    (n k : ℕ) (page : Page) (off val : ℕ) → k ≤ off → take k (write_le n page off val) ≡ take k page
unfolding write_le
take-write_le zero k page off val h = refl
take-write_le (suc n) k page off val h =
    take-write_le n k (set page off (val % 256)) (off + 1) (val / 256) (omega arith)
    ∙ take-set k page off (val % 256) h

pub drop-write_le :
    (n k : ℕ) (page : Page) (off val : ℕ)
    → off + n ≤ k
    → drop k (write_le n page off val) ≡ drop k page
unfolding write_le
drop-write_le zero k page off val h = refl
drop-write_le (suc n) k page off val h =
    drop-write_le n k (set page off (val % 256)) (off + 1) (val / 256) (omega arith)
    ∙ drop-set k page off (val % 256) (omega arith)
