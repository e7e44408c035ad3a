-- ===== src/BufferPool/Write.antt =====
-- `write_frame_to_disk` of crates/storage/src/buffer_pool/shard.rs: what it asks of the log and of
-- the disk, in order. The answers of the two are parameters.
use flux_db.Common.{
  ℕ, ◌^◌, ◌<◌, ◌≡◌, Option, none, some, List, [], ◌∷◌, length, arith, refl, sym, inl, inr,
  Option-cases,
}
use flux_db.BufferPool.Errors.{BufferPoolError, Result, ok, err}
use flux_db.Page.Bytes.{Page, read_u8, read_le-write_le_ne}
use flux_db.Page.Header
use flux_db.Page.Header.{
  page_lsn, page_size, off_lsn, off_page_type, stamp_checksum, verify_checksum, checksum_offset,
  compute_checksum,
}
use flux_db.Page.Checksum.{checksum_offset_range, verify_checksum-stamp_checksum}

-- What reaches the log and the disk.
pub data Effect : Type 0 where
  flush_up_to : ℕ → Effect
  write_page : ℕ → Page → Effect

module _ (crc32 : List ℕ → ℕ) (wal : ℕ → Option BufferPoolError)
    (disk : ℕ → Page → Option BufferPoolError) where
  -- The last step of `write_frame_to_disk`, with the copy of the page.
  abbrev pub write_copy : ℕ → Page → Result (Unit {0})
  write_copy page_id buf = elim (disk page_id buf) [ none ↦ ok tt | some e ↦ err e ]

  -- `page` is what the frame holds while it is locked for reading.
  unfoldable pub write_frame_to_disk : ℕ → Page → List Effect × Result (Unit {0})
  write_frame_to_disk page_id page =
      let lsn = page_lsn page in
      let buf = stamp_checksum crc32 page in
      elim (wal lsn) [
        | some e ↦ (flush_up_to lsn ∷ [], err e)
        | none ↦ (flush_up_to lsn ∷ write_page page_id buf ∷ [], write_copy page_id buf)
      ]

  -- What the effects of a write may be: the log is asked first, for all that the page carries, and
  -- then, if it is durable, the page is written, whole, with the same LSN and a checksum that holds.
  abbrev pub IsOrdered : ℕ → Page → List Effect → Type 0
  IsOrdered page_id page (flush_up_to lsn ∷ []) =
      (lsn ≡ page_lsn page) × ((e : BufferPoolError) × (wal lsn ≡ some e))
  IsOrdered page_id page (flush_up_to lsn ∷ write_page p buf ∷ []) =
      (lsn ≡ page_lsn buf)
      × (lsn ≡ page_lsn page)
      × (wal lsn ≡ none)
      × (p ≡ page_id)
      × (verify_checksum crc32 buf ≡ Header.ok)
  IsOrdered page_id page _ = ⊥

  page_lsn-stamp_checksum : (page : Page) → page_lsn (stamp_checksum crc32 page) ≡ page_lsn page
  unfolding page_lsn stamp_checksum
  page_lsn-stamp_checksum page =
      elim (Option-cases (checksum_offset (read_u8 page off_page_type))) [
        | inl e ↦ rw (e, stamp_checksum) refl
        | inr (off, e) ↦
            let (lo, hi) = checksum_offset_range (read_u8 page off_page_type) e in
            rw (e, stamp_checksum)
              (read_le-write_le_ne 8 4 page off_lsn off (compute_checksum crc32 page off)
                (inl (omega arith)))
      ]

  module _ (small : (text : List ℕ) → crc32 text < 2 ^ 32) where
    -- With a CRC of 32 bits, a frame that holds a page of full size is written only after the log is
    -- durable up to the page's LSN, and what is written carries that LSN and verifies. If the log
    -- fails, nothing is written.
    pub write_frame_to_disk-IsOrdered :
        (page_id : ℕ) (page : Page)
        → length page ≡ page_size
        → IsOrdered page_id page (write_frame_to_disk page_id page).0
    unfolding write_frame_to_disk
    write_frame_to_disk-IsOrdered page_id page full = elim (Option-cases (wal (page_lsn page))) [
      | inl e ↦
          rw (e, write_frame_to_disk)
            (
              sym (page_lsn-stamp_checksum page),
              refl,
              e,
              refl,
              verify_checksum-stamp_checksum crc32 small page full,
            )
      | inr (x, e) ↦ rw (e, write_frame_to_disk) (refl, (x, e))
    ]
