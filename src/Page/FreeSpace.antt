-- ===== src/Page/FreeSpace.antt =====
-- The free-space bitmap page, crates/storage/src/page/free_space.rs.
pub mod Scan
pub mod Bitmap
use Prim.Native.Nat.{bit_and, bit_or}
use flux_db.Common.{
  ℕ, zero, suc, ◌+◌, ◌-◌, ◌*◌, ◌/◌, ◌%◌, ◌^◌, Bool, true, false, List, [], ◌∷◌, ◌++◌, leb, ◌==◌,
  if◌then◌else◌, get_or, set, drop,
}
use flux_db.Page.Bytes.{Page, write_u8, write_u64}
use flux_db.Page.Header.{free_space, off_page_type, off_page_id, page_size, not_u8}

abbrev pub bitmap_start : ℕ
bitmap_start = 32

abbrev pub capacity : ℕ
capacity = (page_size - bitmap_start) * 8

unfoldable pub init : Page → ℕ → Page
init page page_id = write_u64 (write_u8 page off_page_type free_space) off_page_id page_id

abbrev pub locate : ℕ → ℕ × ℕ
locate pid = (bitmap_start + pid / 8, pid % 8)

-- The page, and whether the bitmap covers `pid`. `1 << bit` is `2 ^ bit`.
unfoldable pub set_free : Page → ℕ → Page × Bool
set_free page pid =
    if leb capacity pid
    then (page, false)
    else (let (byte, bit) = locate pid in
        (set page byte (bit_or (get_or page byte 0) (2 ^ bit)), true))

unfoldable pub clear_free : Page → ℕ → Page
clear_free page pid =
    if leb capacity pid
    then page
    else (let (byte, bit) = locate pid in
        set page byte (bit_and (get_or page byte 0) (not_u8 (2 ^ bit))))

-- `u8::trailing_zeros` of a byte that is not 0, over the bits left to look at
unfoldable pub trailing_zeros : ℕ → ℕ → ℕ
trailing_zeros zero bits = 0
trailing_zeros (suc n) bits = if bits % 2 == 0 then 1 + trailing_zeros n (bits / 2) else 0

-- The inner loop of `scan_free` on one byte: a byte has at most eight rounds.
unfoldable pub scan_byte : ℕ → ℕ → ℕ → List ℕ
scan_byte zero index bits = []
scan_byte (suc rounds) index bits =
    let rest = scan_byte rounds index (bit_and bits (bits - 1)) in
    if bits == 0 then [] else (index * 8 + trailing_zeros 8 bits) ∷ rest

-- The outer loop: `index` is `byte - BITMAP_START`.
unfoldable pub scan_from : ℕ → Page → List ℕ
scan_from index [] = []
scan_from index (b ∷ bytes) = scan_byte 8 index b ++ scan_from (suc index) bytes

unfoldable pub scan_free : Page → List ℕ
scan_free page = scan_from 0 (drop bitmap_start page)
