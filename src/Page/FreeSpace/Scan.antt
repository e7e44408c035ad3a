-- ===== src/Page/FreeSpace/Scan.antt =====
-- What `scan_free` finds, bit by bit.
use Prim.Native.Nat.{bit_and}
use native.Mathlib.Nat.{zero-add, suc-add}
use flux_db.Common.{
  ℕ, zero, suc, ◌+◌, ◌-◌, ◌*◌, ◌/◌, ◌%◌, ◌^◌, ◌<◌, ◌≡◌, Bool, true, false, not, ◌&&◌, List, [], ◌∷◌,
  map, leb, ltb, ◌==◌, if◌then◌else◌, get_or, set, drop, contains, contains-append, arith, refl,
  Bool-cases, inl, inr,
}
use flux_db.Page.Bytes.{Page}
use flux_db.Page.Tables.{holds_from, holds_below, holds_below-at}
use flux_db.Page.FreeSpace.{bitmap_start, trailing_zeros, scan_byte, scan_from, scan_free}

-- Every element of the page is a byte.
abbrev pub IsBytes : Page → Type 0
IsBytes [] = Unit
IsBytes (b ∷ page) = (b < 256) × IsBytes page

pub get_or-lt : (page : Page) (i : ℕ) → IsBytes page → get_or page i 0 < 256
get_or-lt [] i h = omega arith
get_or-lt (b ∷ page) zero h = h.0
get_or-lt (b ∷ page) (suc i) h = get_or-lt page i h.1

pub set-IsBytes : (page : Page) (i v : ℕ) → v < 256 → IsBytes page → IsBytes (set page i v)
set-IsBytes [] i v h b = tt
set-IsBytes (a ∷ page) zero v h b = (h, b.1)
set-IsBytes (a ∷ page) (suc i) v h b = (b.0, set-IsBytes page i v h b.1)

drop-IsBytes : (n : ℕ) (page : Page) → IsBytes page → IsBytes (drop n page)
drop-IsBytes zero page h = h
drop-IsBytes (suc n) [] h = tt
drop-IsBytes (suc n) (b ∷ page) h = drop-IsBytes n page h.1

pub get_or-drop : (n i : ℕ) (page : Page) → get_or (drop n page) i 0 ≡ get_or page (n + i) 0
get_or-drop zero i page = rw zero-add
get_or-drop (suc n) i [] = refl
get_or-drop (suc n) i (b ∷ page) = rw suc-add (get_or-drop n i page)

-- Bit `k` of a byte.
abbrev pub bit : ℕ → ℕ → Bool
bit k b = (b / 2 ^ k) % 2 == 1

abbrev below_eight : List ℕ → Bool
below_eight [] = true
below_eight (x ∷ xs) = ltb x 8 && below_eight xs

abbrev bits_agree : ℕ → ℕ → Bool
bits_agree b k = if contains (scan_byte 8 0 b) k then bit k b else not (bit k b)

abbrev byte_law : ℕ → Bool
byte_law b = below_eight (scan_byte 8 0 b) && holds_below 8 (bits_agree b)

scan_table : holds_below 256 byte_law ≡ true
unfolding holds_from scan_byte trailing_zeros
scan_table = refl

scan_byte-shift : (r i b : ℕ) → scan_byte r i b ≡ map (λ x. i * 8 + x) (scan_byte r 0 b)
unfolding scan_byte
scan_byte-shift zero i b = refl
scan_byte-shift (suc r) i b = elim (Bool-cases (b == 0)) [
  | inl e ↦ rw e
  | inr e ↦ rw e (ground (arith, scan_byte-shift r i (bit_and b (b - 1))))
]

contains-shift :
    (i q : ℕ) (xs : List ℕ)
    → below_eight xs ≡ true
    → contains (map (λ x. i * 8 + x) xs) q ≡ (q / 8 == i && contains xs (q % 8))
contains-shift i q [] h = ground arith
contains-shift i q (x ∷ xs) h = ground (arith, contains-shift i q xs)

contains-scan_byte :
    (i b q : ℕ) → b < 256 → contains (scan_byte 8 i b) q ≡ (q / 8 == i && bit (q % 8) b)
contains-scan_byte i b q h = rw (scan_byte-shift 8 i b) (
    ground (
      arith,
      contains-shift i q (scan_byte 8 0 b),
      holds_below-at 256 byte_law b scan_table h,
      holds_below-at 8 (bits_agree b) (q % 8),
    ))

pub bit-zero : (k : ℕ) → bit k 0 ≡ false
bit-zero k = ground arith

get_or-first : (b d : ℕ) (bytes : Page) → d ≡ 0 → get_or (b ∷ bytes) d 0 ≡ b
get_or-first b d bytes h = rw h

get_or-cons : (b d e : ℕ) (bytes : Page) → d ≡ e + 1 → get_or (b ∷ bytes) d 0 ≡ get_or bytes e 0
get_or-cons b zero e bytes h = absurd (omega arith)
get_or-cons b (suc d) e bytes h = let same : d ≡ e = omega arith in rw same

-- The scan finds `q` exactly if the bit of `q` is set in the bytes scanned.
contains-scan_from :
    (i : ℕ) (bytes : Page) (q : ℕ)
    → IsBytes bytes
    → contains (scan_from i bytes) q ≡ (leb i (q / 8) && bit (q % 8) (get_or bytes (q / 8 - i) 0))
unfolding scan_from
contains-scan_from i [] q h = ground (arith, bit-zero (q % 8))
contains-scan_from i (b ∷ bytes) q h = ground (
  arith,
  contains-scan_byte i b q h.0,
  contains-scan_from (suc i) bytes q h.1,
  contains-append (scan_byte 8 i b) (scan_from (suc i) bytes) q,
  get_or-first b (q / 8 - i) bytes,
  get_or-cons b (q / 8 - i) (q / 8 - suc i) bytes,
)

pub contains-scan_free :
    (page : Page) (q : ℕ)
    → IsBytes page
    → contains (scan_free page) q ≡ bit (q % 8) (get_or page (bitmap_start + q / 8) 0)
unfolding scan_free
contains-scan_free page q h = ground (
  arith,
  contains-scan_from 0 (drop bitmap_start page) q (drop-IsBytes bitmap_start page h),
  get_or-drop bitmap_start (q / 8) page,
)
