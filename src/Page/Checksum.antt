-- ===== src/Page/Checksum.antt =====
-- The laws of checksums.
use flux_db.Common.{
  ℕ, ◌+◌, ◌<◌, ◌≤◌, ◌^◌, ◌≡◌, inl, inr, some, List, length, arith, Option-cases, sym, ◌∙◌, ==_refl,
}
use flux_db.Page.Bytes.{
  Page, read_u8, read_u32, write_u32, read_le-write_le_self, get_or-write_le, take-write_le,
  drop-write_le,
}
use flux_db.Page.Header.{
  off_page_type, page_size, checksum_offset, compute_checksum, stamp_checksum, verify_checksum, ok,
}

pub checksum_offset_range :
    (t : ℕ) {off : ℕ} → checksum_offset t ≡ some off → (24 ≤ off) × (off ≤ 56)
unfolding checksum_offset
checksum_offset_range t e = ground arith

module _ (crc32 : List ℕ → ℕ) where
  -- The checksum does not depend on what its own field holds.
  compute_checksum-write_u32 :
      (page : Page) (off v : ℕ)
      → compute_checksum crc32 (write_u32 page off v) off ≡ compute_checksum crc32 page off
  unfolding compute_checksum
  compute_checksum-write_u32 page off v = rw (
    take-write_le 4 off page off v (omega arith),
    drop-write_le 4 (off + 4) page off v (omega arith),
  )

  stamp_checksum_at :
      (page : Page) (off : ℕ)
      → checksum_offset (read_u8 page off_page_type) ≡ some off
      → stamp_checksum crc32 page ≡ write_u32 page off (compute_checksum crc32 page off)
  unfolding stamp_checksum
  stamp_checksum_at page off e = rw (e, stamp_checksum)

  verify_checksum_at :
      (page : Page) (off : ℕ)
      → checksum_offset (read_u8 page off_page_type) ≡ some off
      → read_u32 page off ≡ compute_checksum crc32 page off
      → verify_checksum crc32 page ≡ ok
  unfolding verify_checksum
  verify_checksum_at page off e h = rw (e, verify_checksum) (rw (h, ==_refl))

  module _ (small : (text : List ℕ) → crc32 text < 2 ^ 32) where
    stamped-verifies :
        (page : Page) (off : ℕ)
        → length page ≡ page_size
        → checksum_offset (read_u8 page off_page_type) ≡ some off
        → verify_checksum crc32 (stamp_checksum crc32 page) ≡ ok
    unfolding compute_checksum
    stamped-verifies page off h e =
        let crc = compute_checksum crc32 page off in
        let (lo, hi) = checksum_offset_range (read_u8 page off_page_type) e in
        rw (stamp_checksum_at page off e) (
          verify_checksum_at (write_u32 page off crc) off
            (rw (get_or-write_le 4 page off crc off_page_type (inl (omega arith))) e)
            (read_le-write_le_self 4 page off crc (omega arith) (small _)
              ∙ sym (compute_checksum-write_u32 page off crc)))

    -- If the CRC is a 32-bit number, a page of full size verifies after `stamp_checksum`, whatever
    -- its type.
    pub verify_checksum-stamp_checksum :
        (page : Page)
        → length page ≡ page_size
        → verify_checksum crc32 (stamp_checksum crc32 page) ≡ ok
    unfolding stamp_checksum verify_checksum
    verify_checksum-stamp_checksum page h =
        elim (Option-cases (checksum_offset (read_u8 page off_page_type))) [
          | inl e ↦ rw (e, stamp_checksum) (rw (e, verify_checksum))
          | inr (off, e) ↦ stamped-verifies page off h e
        ]
