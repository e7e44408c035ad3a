-- ===== src/Page/Tests.antt =====
-- The laws of the pages at concrete pages.
use flux_db.Common.{
  ℕ, zero, suc, ◌+◌, ◌<◌, ◌%◌, ◌^◌, ◌≡◌, some, List, [], ◌∷◌, length, replicate, length-replicate,
  arith,
}
use flux_db.Page.Bytes.{Page}
use flux_db.Page.Header.{page_size}
use flux_db.Page.FreeSpace.Scan.{IsBytes}
use flux_db.Page.Overflow
use flux_db.Page.Overflow.{
  OverflowDescriptor, from_bytes, to_bytes, unwrap_or_zero, new_page, set_next_page_id, set_chunk,
  open_page, page_id, lsn, next_page_id, payload,
}
use flux_db.Page.Overflow.Laws.{overflow_page_roundtrip}

-- A page of zeros.
abbrev zeros : Page
zeros = replicate page_size 0

length-zeros : length zeros ≡ page_size
length-zeros = length-replicate {A = ℕ} page_size 0

-- A leaf with both flags set.
abbrev flagged : Page
flagged = 1 ∷ 3 ∷ replicate 4094 0

length-flagged : length flagged ≡ page_size
length-flagged = omega (arith, length-replicate {A = ℕ} 4094 0)

IsBytes-replicate : (n : ℕ) → IsBytes (replicate n 0)
IsBytes-replicate zero = tt
IsBytes-replicate (suc n) = (omega arith, IsBytes-replicate n)

-- A stand-in for the CRC: a sum of 32 bits.
abbrev sum_crc : List ℕ → ℕ
sum_crc [] = 0
sum_crc (b ∷ bs) = (b + sum_crc bs) % 2 ^ 32

sum_crc-lt : (bs : List ℕ) → sum_crc bs < 2 ^ 32
sum_crc-lt [] = omega arith
sum_crc-lt (b ∷ bs) = omega arith

overflow_page_roundtrip_example :
    (p : Page) × (set_chunk (set_next_page_id (new_page 7 zeros) (some 8)) (1 ∷ 2 ∷ 3 ∷ [])
      ≡ Overflow.ok p)
    × (open_page (Overflow.set_lsn p 40) ≡ Overflow.ok (Overflow.set_lsn p 40))
    × (page_id (Overflow.set_lsn p 40) ≡ 7)
    × (lsn (Overflow.set_lsn p 40) ≡ 40)
    × (next_page_id (Overflow.set_lsn p 40) ≡ some 8)
    × (payload (Overflow.set_lsn p 40) ≡ 1 ∷ 2 ∷ 3 ∷ [])
overflow_page_roundtrip_example =
    overflow_page_roundtrip zeros 7 (some 8) (1 ∷ 2 ∷ 3 ∷ []) 40 length-zeros (omega arith)
      (omega arith) (omega arith) (omega arith) (λ e. ground (arith))
