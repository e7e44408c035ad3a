-- ===== src/Page/FreeSpace/Bitmap.antt =====
-- The free-space bitmap as a set of page ids.
use Prim.Native.Nat.{bit_and, bit_or}
use flux_db.Common.{
  ℕ, ◌+◌, ◌/◌, ◌%◌, ◌^◌, ◌<◌, ◌≡◌, Bool, true, false, not, ◌&&◌, ◌||◌, leb, ltb, ◌==◌,
  if◌then◌else◌, get_or, set, length, contains, arith, refl, get_or-set_self, get_or-set_ne,
  Bool-cases, inl, inr,
}
use flux_db.Page.Bytes.{Page}
use flux_db.Page.Header.{page_size, not_u8}
use flux_db.Page.Tables.{holds_from, holds_below, holds_below-at}
use flux_db.Page.FreeSpace.{bitmap_start, capacity, set_free, clear_free, scan_free}
use flux_db.Page.FreeSpace.Scan.{IsBytes, bit, contains-scan_free, set-IsBytes, get_or-lt}

abbrev same : Bool → Bool → Bool
same true b = b
same false b = not b

abbrev bit_law : ℕ → ℕ → ℕ → Bool
bit_law b i k =
    same (bit k (bit_or b (2 ^ i))) (k == i || bit k b)
    && same (bit k (bit_and b (not_u8 (2 ^ i)))) (not (k == i) && bit k b)

abbrev byte_law : ℕ → Bool
byte_law b = holds_below 8 (λ i.
    (ltb (bit_or b (2 ^ i)) 256 && ltb (bit_and b (not_u8 (2 ^ i))) 256)
    && holds_below 8 (bit_law b i))

bit_table : holds_below 256 byte_law ≡ true
unfolding holds_from
bit_table = refl

-- Setting or clearing one bit of a byte changes the reading of that bit alone.
pub bit_at :
    (b i k : ℕ)
    → b < 256
    → i < 8
    → k < 8
    → (bit k (bit_or b (2 ^ i)) ≡ (k == i || bit k b))
      × (bit k (bit_and b (not_u8 (2 ^ i))) ≡ (not (k == i) && bit k b))
      × (bit_or b (2 ^ i) < 256)
      × (bit_and b (not_u8 (2 ^ i)) < 256)
bit_at b i k h p q =
    let row =
      holds_below-at 8
        (λ i.
          (ltb (bit_or b (2 ^ i)) 256 && ltb (bit_and b (not_u8 (2 ^ i))) 256)
          && holds_below 8 (bit_law b i))
        i (holds_below-at 256 byte_law b bit_table h) p in
    ground (arith, holds_below-at 8 (bit_law b i) k)

module _ (page : Page) (pid q : ℕ) (full : length page ≡ page_size) (bytes : IsBytes page) where
  scan_free-set :
      (v : ℕ)
      → v < 256
      → pid < capacity
      → contains (scan_free (set page (bitmap_start + pid / 8) v)) q
        ≡ (if q / 8 == pid / 8 then bit (q % 8) v else contains (scan_free page) q)
  scan_free-set v h p = elim (Bool-cases (q / 8 == pid / 8)) [
    | inl e ↦
        let same_byte : q / 8 ≡ pid / 8 = ground arith in
        rw (
          e,
          contains-scan_free (set page (bitmap_start + pid / 8) v) q (set-IsBytes page _ v h bytes),
          same_byte,
          get_or-set_self page (bitmap_start + pid / 8) v 0 (omega arith),
        )
    | inr e ↦
        let other : (bitmap_start + pid / 8 ≡ bitmap_start + q / 8) → ⊥ = λ w. ground arith in
        rw (
          e,
          contains-scan_free (set page (bitmap_start + pid / 8) v) q (set-IsBytes page _ v h bytes),
          contains-scan_free page q bytes,
          get_or-set_ne page (bitmap_start + pid / 8) (bitmap_start + q / 8) v 0 other,
        )
  ]

  abbrev old : ℕ
  old = get_or page (bitmap_start + pid / 8) 0

  same_byte : q / 8 ≡ pid / 8 → get_or page (bitmap_start + q / 8) 0 ≡ old
  same_byte e = rw e

  -- On a full page of bytes, after `set_free pid` the bitmap holds what it held and `pid`, if it covers
  -- `pid`.
  pub scan_free-set_free : contains (scan_free (set_free page pid).0) q ≡ (
      if leb capacity pid
      then contains (scan_free page) q
      else (q == pid || contains (scan_free page) q))
  unfolding set_free
  scan_free-set_free = elim (Bool-cases (leb capacity pid)) [
    | inl e ↦ rw (e, set_free)
    | inr e ↦
        rw (e, set_free)
          (ground (
            arith,
            bit_at old (pid % 8) (q % 8) (get_or-lt page (bitmap_start + pid / 8) bytes),
            scan_free-set (bit_or old (2 ^ (pid % 8))),
            contains-scan_free page q bytes,
            same_byte,
          ))
  ]

  -- On a full page of bytes, after `clear_free pid` the bitmap holds what it held but `pid`, if it
  -- covers `pid`.
  pub scan_free-clear_free : contains (scan_free (clear_free page pid)) q ≡ (
      if leb capacity pid
      then contains (scan_free page) q
      else (not (q == pid) && contains (scan_free page) q))
  unfolding clear_free
  scan_free-clear_free = elim (Bool-cases (leb capacity pid)) [
    | inl e ↦ rw (e, clear_free)
    | inr e ↦
        rw (e, clear_free)
          (ground (
            arith,
            bit_at old (pid % 8) (q % 8) (get_or-lt page (bitmap_start + pid / 8) bytes),
            scan_free-set (bit_and old (not_u8 (2 ^ (pid % 8)))),
            contains-scan_free page q bytes,
            same_byte,
          ))
  ]
