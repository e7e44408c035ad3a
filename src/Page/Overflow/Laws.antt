-- ===== src/Page/Overflow/Laws.antt =====
-- The laws of overflow pages and descriptors.
use flux_db.Common.{
  ℕ, ◌<◌, ◌≤◌, ◌%◌, ◌^◌, ◌≡◌, ◌≢◌, Option, some, List, length, length-set, length-replicate,
  get_or-set_self, arith, inl, inr, ◌∙◌, ap, replicate, take,
}
use flux_db.Page.Bytes.{
  Page, read_u8, read_u16, read_u64, write_u8, write_u16, write_u64, length-write_le,
  read_le-write_le_self, read_le-write_le_ne, get_or-write_le, drop-write_le,
}
use flux_db.Page.Slices.{
  slice, write_bytes, fill_zero, length-write_bytes, get_or-write_bytes, read_le-write_bytes_ne,
  slice-write_bytes_self,
}
use flux_db.Page.Header.{overflow, off_page_type, off_page_id, off_lsn, page_size}
use flux_db.Page.Overflow.{
  OverflowDescriptor, to_bytes, from_bytes, new_page, set_next_page_id, set_chunk, open_page,
  page_id, lsn, set_lsn, next_page_id, payload, ok, unwrap_or_zero, overflow_payload_size,
  overflow_header_size, off_overflow_next_page_id, off_overflow_chunk_len,
}

-- A descriptor of a 64-bit page id and a 32-bit size survives its twelve bytes.
pub from_bytes-to_bytes :
    (desc : OverflowDescriptor)
    → desc.first_page_id < 2 ^ 64
    → desc.total_size < 2 ^ 32
    → from_bytes (to_bytes desc) ≡ some desc
unfolding from_bytes to_bytes
from_bytes-to_bytes desc p q =
    let buf : Page = replicate 12 0 in
    let half = write_u64 buf 0 desc.first_page_id in
    let l = length-write_le 8 buf 0 desc.first_page_id in
    ground (
      arith,
      l,
      length-write_le 4 half 8 desc.total_size,
      read_le-write_le_ne 8 4 half 0 8 desc.total_size (inl (omega arith)),
      read_le-write_le_self 8 buf 0 desc.first_page_id (omega arith) p,
      read_le-write_le_self 4 half 8 desc.total_size (omega (arith, l)) q,
    )

-- The pages that the builder makes, step by step.
module _ (page : Page) (id : ℕ) (next : Option ℕ) (chunk : List ℕ) where
  abbrev typed : Page
  typed = write_u8 (fill_zero page) off_page_type overflow

  abbrev named : Page
  named = write_u64 typed off_page_id id

  abbrev linked : Page
  linked = write_u64 named off_overflow_next_page_id (unwrap_or_zero next)

  abbrev sized : Page
  sized = write_u16 linked off_overflow_chunk_len (length chunk % 2 ^ 16)

  abbrev filled : Page
  filled = write_bytes sized overflow_header_size chunk

  abbrev stamped : ℕ → Page
  stamped l = write_u64 filled off_lsn l

  module _ (full : length page ≡ page_size) (fits : length chunk ≤ overflow_payload_size) where
    length-named : length named ≡ page_size
    length-named = omega (
      arith,
      length-replicate {0} {A = ℕ} (length page) 0,
      length-set (fill_zero page) off_page_type overflow,
      length-write_le 8 typed off_page_id id,
    )

    length-sized : length sized ≡ page_size
    length-sized = omega (
      arith,
      length-named,
      length-write_le 8 named off_overflow_next_page_id (unwrap_or_zero next),
      length-write_le 2 linked off_overflow_chunk_len (length chunk % 2 ^ 16),
    )

    type_kept : (l : ℕ) → read_u8 (stamped l) off_page_type ≡ overflow
    type_kept l =
        get_or-write_le 8 filled off_lsn l 0 (inl (omega arith))
        ∙ get_or-write_bytes chunk sized overflow_header_size 0 (inl (omega arith))
        ∙ get_or-write_le 2 linked off_overflow_chunk_len (length chunk % 2 ^ 16) 0
            (inl (omega arith))
        ∙ get_or-write_le 8 named off_overflow_next_page_id (unwrap_or_zero next) 0
            (inl (omega arith))
        ∙ get_or-write_le 8 typed off_page_id id 0 (inl (omega arith))
        ∙ get_or-set_self (fill_zero page) off_page_type overflow 0
            (omega (arith, length-replicate {0} {A = ℕ} (length page) 0))

    id_kept : (l : ℕ) → id < 2 ^ 64 → read_u64 (stamped l) off_page_id ≡ id
    id_kept l h =
        read_le-write_le_ne 8 8 filled off_page_id off_lsn l (inl (omega arith))
        ∙ read_le-write_bytes_ne 8 chunk sized off_page_id overflow_header_size (inl (omega arith))
        ∙ read_le-write_le_ne 8 2 linked off_page_id off_overflow_chunk_len (length chunk % 2 ^ 16)
            (inl (omega arith))
        ∙ read_le-write_le_ne 8 8 named off_page_id off_overflow_next_page_id (unwrap_or_zero next)
            (inl (omega arith))
        ∙ read_le-write_le_self 8 typed off_page_id id
            (omega (arith, length-named, length-write_le 8 typed off_page_id id)) h

    next_kept :
        (l : ℕ)
        → unwrap_or_zero next < 2 ^ 64
        → read_u64 (stamped l) off_overflow_next_page_id ≡ unwrap_or_zero next
    next_kept l h =
        read_le-write_le_ne 8 8 filled off_overflow_next_page_id off_lsn l (inr (omega arith))
        ∙ read_le-write_bytes_ne 8 chunk sized off_overflow_next_page_id overflow_header_size
            (inl (omega arith))
        ∙ read_le-write_le_ne 8 2 linked off_overflow_next_page_id off_overflow_chunk_len
            (length chunk % 2 ^ 16) (inl (omega arith))
        ∙ read_le-write_le_self 8 named off_overflow_next_page_id (unwrap_or_zero next)
            (omega (arith, length-named)) h

    len_kept : (l : ℕ) → read_u16 (stamped l) off_overflow_chunk_len ≡ length chunk
    len_kept l =
        read_le-write_le_ne 2 8 filled off_overflow_chunk_len off_lsn l (inr (omega arith))
        ∙ read_le-write_bytes_ne 2 chunk sized off_overflow_chunk_len overflow_header_size
            (inl (omega arith))
        ∙ read_le-write_le_self 2 linked off_overflow_chunk_len (length chunk % 2 ^ 16)
            (omega (
              arith,
              length-sized,
              length-write_le 2 linked off_overflow_chunk_len (length chunk % 2 ^ 16),
            ))
            (omega arith)
        ∙ omega arith

    chunk_kept : (l : ℕ) → slice (stamped l) overflow_header_size (length chunk) ≡ chunk
    chunk_kept l =
        ap (take (length chunk))
          (drop-write_le 8 overflow_header_size filled off_lsn l (omega arith))
        ∙ slice-write_bytes_self chunk sized overflow_header_size (omega (arith, length-sized))

-- The builder fills a page of full size with a chunk that fits. The page, once an LSN is stamped on
-- it, opens as an overflow page and reads back its id, its LSN, its successor and its chunk, if the
-- numbers have 64 bits and the successor is not page 0.
pub overflow_page_roundtrip :
    (page : Page) (id : ℕ) (next : Option ℕ) (chunk : List ℕ) (l : ℕ)
    → length page ≡ page_size
    → length chunk ≤ overflow_payload_size
    → id < 2 ^ 64
    → l < 2 ^ 64
    → unwrap_or_zero next < 2 ^ 64
    → next ≢ some 0
    → (p : Page) × (set_chunk (set_next_page_id (new_page id page) next) chunk ≡ ok p)
      × (open_page (set_lsn p l) ≡ ok (set_lsn p l))
      × (page_id (set_lsn p l) ≡ id)
      × (lsn (set_lsn p l) ≡ l)
      × (next_page_id (set_lsn p l) ≡ next)
      × (payload (set_lsn p l) ≡ chunk)
unfolding set_chunk set_next_page_id new_page open_page page_id lsn set_lsn next_page_id payload
overflow_page_roundtrip page id next chunk l full fits small small' small'' proper =
    let written = filled page id next chunk in
    (
      written,
      ground arith,
      ground (arith, type_kept page id next chunk full fits l),
      id_kept page id next chunk full fits l small,
      read_le-write_le_self 8 written off_lsn l
          (omega (
            arith,
            length-write_bytes chunk (sized page id next chunk) overflow_header_size,
            length-sized page id next chunk full fits,
          ))
          small',
      ground (arith, next_kept page id next chunk full fits l small''),
      rw (len_kept page id next chunk full fits l) (chunk_kept page id next chunk full fits l),
    )
