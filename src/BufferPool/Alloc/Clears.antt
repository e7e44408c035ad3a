-- ===== src/BufferPool/Alloc/Clears.antt =====
-- The bitmap page under the claims of `new_page`, crates/storage/src/buffer_pool/manager.rs.
use Prim.Native.Nat.{bit_and, bit_or}
use flux_db.Common.{
  ℕ, zero, suc, ◌+◌, ◌/◌, ◌%◌, ◌^◌, ◌<◌, ◌≤◌, ◌≡◌, ◌≢◌, Bool, true, false, not, ◌&&◌, Option, some,
  [], ◌∷◌, leb, ◌==◌, contains, length, arith, refl, sym, ap, ◌∙◌, inl, inr, get_or, Bool-cases,
  length-set, set, if_cases, leb→le,
}
use flux_db.BufferPool.Errors.{Result, ok, err}
use flux_db.BufferPool.Manager.{claim_recycled}
use flux_db.BufferPool.Alloc.{left_or}
use flux_db.Page.Bytes.{Page, write_le, length-write_le, get_or-write_le}
use flux_db.Page.Header
use flux_db.Page.Header.{page_size, set_lsn, not_u8}
use flux_db.Page.FreeSpace.{bitmap_start, capacity, set_free, clear_free, scan_free}
use flux_db.Page.FreeSpace.Scan.{IsBytes, bit, contains-scan_free, set-IsBytes, get_or-lt, bit-zero}
use flux_db.Page.FreeSpace.Bitmap.{bit_at, scan_free-clear_free}

-- A bitmap page.
pub record IsBitmap (page : Page) : Type 0 where
  pub whole : length page ≡ page_size
  pub bytes : IsBytes page

get_or_beyond : (page : Page) (i : ℕ) → length page ≤ i → get_or page i 0 ≡ 0
get_or_beyond [] i h = refl
get_or_beyond (b ∷ page) zero h = absurd (omega arith)
get_or_beyond (b ∷ page) (suc i) h = get_or_beyond page i (omega arith)

write_le-IsBytes :
    (n : ℕ) (page : Page) (off v : ℕ) → IsBytes page → IsBytes (write_le n page off v)
unfolding write_le
write_le-IsBytes zero page off v h = h
write_le-IsBytes (suc n) page off v h =
    write_le-IsBytes n (set page off (v % 256)) (off + 1) (v / 256)
      (set-IsBytes page off (v % 256) (omega arith) h)

pub set_lsn-IsBitmap : (page : Page) (lsn : ℕ) → IsBitmap page → IsBitmap (set_lsn page lsn)
unfolding set_lsn
set_lsn-IsBitmap page lsn b = record {
  whole = length-write_le 8 page 16 lsn ∙ b.whole;
  bytes = write_le-IsBytes 8 page 16 lsn b.bytes;
}

pub scan_free-set_lsn :
    (page : Page) (lsn p : ℕ)
    → IsBitmap page
    → contains (scan_free (set_lsn page lsn)) p ≡ contains (scan_free page) p
unfolding set_lsn
scan_free-set_lsn page lsn p b =
    contains-scan_free (set_lsn page lsn) p (write_le-IsBytes 8 page 16 lsn b.bytes)
    ∙ ap (bit (p % 8)) (get_or-write_le 8 page 16 lsn (bitmap_start + p / 8) (inr (omega arith)))
    ∙ sym (contains-scan_free page p b.bytes)

set-IsBitmap : (page : Page) (i v : ℕ) → v < 256 → IsBitmap page → IsBitmap (set page i v)
set-IsBitmap page i v h b = record {
  whole = length-set page i v ∙ b.whole;
  bytes = set-IsBytes page i v h b.bytes;
}

pub set_free-IsBitmap : (page : Page) (pid : ℕ) → IsBitmap page → IsBitmap (set_free page pid).0
unfolding set_free
set_free-IsBitmap page pid b =
    let at = bitmap_start + pid / 8 in
    let old = get_or page at 0 in
    let (_, _, small, _) =
      bit_at old (pid % 8) 0 (get_or-lt page at b.bytes) (omega arith) (omega arith) in
    if_cases (λ (r : Page × Bool). IsBitmap r.0) (leb capacity pid) (page, false)
      (set page at (bit_or old (2 ^ (pid % 8))), true) (λ _. b)
      (λ _. set-IsBitmap page at _ small b)

clear_free-IsBitmap : (page : Page) (pid : ℕ) → IsBitmap page → IsBitmap (clear_free page pid)
unfolding clear_free
clear_free-IsBitmap page pid b =
    let at = bitmap_start + pid / 8 in
    let old = get_or page at 0 in
    let (_, _, _, small) =
      bit_at old (pid % 8) 0 (get_or-lt page at b.bytes) (omega arith) (omega arith) in
    if_cases IsBitmap (leb capacity pid) page (set page at (bit_and old (not_u8 (2 ^ (pid % 8)))))
      (λ _. b) (λ _. set-IsBitmap page at _ small b)

-- After a claim the bitmap does not have the id, and of the others those that it had.
scan_free-cleared :
    (page : Page) (pid p : ℕ)
    → IsBitmap page
    → contains (scan_free (clear_free page pid)) p ≡ (not (p == pid) && contains (scan_free page) p)
scan_free-cleared page pid p b = elim (Bool-cases (leb capacity pid)) [
  | inl e ↦
      scan_free-clear_free page pid p b.whole b.bytes
      ∙ rw e (elim (Bool-cases (p == pid)) [
        | inl same ↦
            let at : p ≡ pid = ground arith in
            let out : 4096 ≤ bitmap_start + p / 8 =
              let far : capacity ≤ pid = leb→le capacity pid e in omega (arith, at) in
            rw same (
              contains-scan_free page p b.bytes
              ∙ ap (bit (p % 8))
                  (get_or_beyond page (bitmap_start + p / 8) (omega (arith, b.whole, out)))
              ∙ bit-zero (p % 8))
        | inr other ↦ rw other refl
      ])
  | inr e ↦ scan_free-clear_free page pid p b.whole b.bytes ∙ rw e refl
]

-- What a claim leaves of the bitmap.
abbrev pub Cleared : Page → ℕ → ℕ → Option Page × Result (Unit {0}) → Type 0
Cleared page pid p r =
    IsBitmap (left_or r.0 page)
    × (contains (scan_free (left_or r.0 page)) p ≡ (not (p == pid) && contains (scan_free page) p))

pub claim_recycled-Cleared :
    (page : Page) (log : Page → Result ℕ) (pid p : ℕ)
    → IsBitmap page
    → Cleared page pid p (claim_recycled (ok page) log pid)
unfolding claim_recycled
claim_recycled-Cleared page log pid p b = go (log (clear_free page pid))
  where
    cleared : IsBitmap (clear_free page pid)
    cleared = clear_free-IsBitmap page pid b

    go :
        (r : Result ℕ)
        → Cleared page pid p (elim r [
          | err e ↦ (some (clear_free page pid), err e)
          | ok lsn ↦ (some (Header.set_lsn (clear_free page pid) lsn), ok tt)
        ])
    go (err e) = (cleared, scan_free-cleared page pid p b)
    go (ok lsn) = (
      set_lsn-IsBitmap (clear_free page pid) lsn cleared,
      scan_free-set_lsn (clear_free page pid) lsn p cleared ∙ scan_free-cleared page pid p b,
    )

-- The bitmap of a claim has the id no more, and had the others before.
pub left_out :
    (page : Page) (pid p : ℕ) (r : Option Page × Result (Unit {0}))
    → Cleared page pid p r
    → contains (scan_free (left_or r.0 page)) p ≡ true
    → (p ≢ pid) × (contains (scan_free page) p ≡ true)
left_out page pid p r (_, e) h = ground (arith, e, h)
