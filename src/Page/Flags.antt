-- ===== src/Page/Flags.antt =====
-- The laws of the two flag bits of a page header.
use Prim.Native.Nat.{bit_and, bit_or}
use flux_db.Common.{
  ℕ, ◌<◌, ◌≤◌, ◌≡◌, Bool, true, false, not, ◌&&◌, ◌==◌, refl, length, get_or-set_self, arith,
}
use flux_db.Page.Bytes.{Page, read_u8}
use flux_db.Page.Tables.{holds_from, holds_below, holds_below-at}
use flux_db.Page.Header.{
  off_flags, is_incomplete_split, is_half_dead, set_incomplete_split, set_half_dead,
  clear_incomplete_split, clear_half_dead, flag_incomplete_split, flag_half_dead,
}

abbrev same : Bool → Bool → Bool
same true b = b
same false b = not b

abbrev low : ℕ → Bool
low f = not (bit_and f flag_incomplete_split == 0)

abbrev high : ℕ → Bool
high f = not (bit_and f flag_half_dead == 0)

abbrev flags_law : ℕ → Bool
flags_law f =
    (low (bit_or f 1) && same (high (bit_or f 1)) (high f))
    && ((high (bit_or f 2) && same (low (bit_or f 2)) (low f))
        && ((not (low (bit_and f 254)) && same (high (bit_and f 254)) (high f))
            && (not (high (bit_and f 253)) && same (low (bit_and f 253)) (low f))))

flags_table : holds_below 256 flags_law ≡ true
unfolding holds_from
flags_table = refl

flags_at : (f : ℕ) → f < 256 → flags_law f ≡ true
flags_at f h = holds_below-at 256 flags_law f flags_table h

-- On a page whose flag byte is a byte, setting or clearing one flag does just that, and leaves the
-- other flag as it was.
pub flags_independent :
    (page : Page)
    → 2 ≤ length page
    → read_u8 page off_flags < 256
    → ((is_incomplete_split (set_incomplete_split page) ≡ true)
        × (is_half_dead (set_incomplete_split page) ≡ is_half_dead page))
      × ((is_half_dead (set_half_dead page) ≡ true)
          × (is_incomplete_split (set_half_dead page) ≡ is_incomplete_split page))
      × ((is_incomplete_split (clear_incomplete_split page) ≡ false)
          × (is_half_dead (clear_incomplete_split page) ≡ is_half_dead page))
      × ((is_half_dead (clear_half_dead page) ≡ false)
          × (is_incomplete_split (clear_half_dead page) ≡ is_incomplete_split page))
unfolding is_incomplete_split is_half_dead set_incomplete_split set_half_dead clear_incomplete_split
    clear_half_dead
flags_independent page h b =
    let f = read_u8 page off_flags in
    ground (
      arith,
      flags_at f b,
      get_or-set_self page 1 (bit_or f 1) 0 h,
      get_or-set_self page 1 (bit_or f 2) 0 h,
      get_or-set_self page 1 (bit_and f 254) 0 h,
      get_or-set_self page 1 (bit_and f 253) 0 h,
    )
