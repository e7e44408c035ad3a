-- ===== src/Page/Overflow.antt =====
-- Overflow pages and descriptors, crates/storage/src/page/overflow.rs.
pub mod Laws
use flux_db.Common.{
  ℕ, ◌%◌, ◌^◌, Option, none, some, List, ltb, ◌==◌, if◌then◌else◌, length, replicate,
}
use flux_db.Page.Bytes.{
  Page, read_u8, read_u16, read_u32, read_u64, write_u8, write_u16, write_u32, write_u64,
}
use flux_db.Page.Slices.{slice, write_bytes, fill_zero}
use flux_db.Page.Header.{overflow, off_page_type, off_page_id, off_lsn}

abbrev pub off_overflow_next_page_id : ℕ
off_overflow_next_page_id = 24

abbrev pub off_overflow_chunk_len : ℕ
off_overflow_chunk_len = 32

abbrev pub overflow_payload_size : ℕ
overflow_payload_size = 4048

abbrev pub overflow_header_size : ℕ
overflow_header_size = 48

abbrev pub overflow_descriptor_size : ℕ
overflow_descriptor_size = 12

-- `PageError` of crates/common/src/error.rs
pub data PageError : Type 0 where
  insufficient_space : ℕ → ℕ → PageError
  unexpected_page_type : ℕ → ℕ → PageError

pub data Result {ℓ} (A : Type ℓ) : Type ℓ where
  ok : A → Result A
  err : PageError → Result A

pub record OverflowDescriptor : Type 0 where
  pub first_page_id : ℕ
  pub total_size : ℕ

unfoldable pub to_bytes : OverflowDescriptor → List ℕ
to_bytes desc =
    let buf : Page = replicate overflow_descriptor_size 0 in
    write_u32 (write_u64 buf 0 desc.first_page_id) 8 desc.total_size

unfoldable pub from_bytes : List ℕ → Option OverflowDescriptor
from_bytes bytes =
    if ltb (length bytes) overflow_descriptor_size
    then none
    else some (record { first_page_id = read_u64 bytes 0; total_size = read_u32 bytes 8 })

-- `Option<PageId>` as stored: 0 stands for none.
abbrev pub unwrap_or_zero : Option ℕ → ℕ
unwrap_or_zero none = 0
unwrap_or_zero (some pid) = pid

-- `OverflowPageBuilder::new`
unfoldable pub new_page : ℕ → Page → Page
new_page page_id page =
    write_u64 (write_u8 (fill_zero page) off_page_type overflow) off_page_id page_id

unfoldable pub set_next_page_id : Page → Option ℕ → Page
set_next_page_id page next = write_u64 page off_overflow_next_page_id (unwrap_or_zero next)

-- `chunk.len() as u16` keeps the low 16 bits.
unfoldable pub set_chunk : Page → List ℕ → Result Page
set_chunk page chunk =
    if ltb overflow_payload_size (length chunk)
    then err (insufficient_space (length chunk) overflow_payload_size)
    else ok (
        write_bytes (write_u16 page off_overflow_chunk_len (length chunk % 2 ^ 16))
          overflow_header_size chunk)

-- `OverflowPageAccessor::new` and `OverflowPageMutator::new`: the page, if it is an overflow page.
unfoldable pub open_page : Page → Result Page
open_page page =
    let found = read_u8 page off_page_type in
    if found == overflow then ok page else err (unexpected_page_type overflow found)

unfoldable pub page_id : Page → ℕ
page_id page = read_u64 page off_page_id

unfoldable pub lsn : Page → ℕ
lsn page = read_u64 page off_lsn

unfoldable pub set_lsn : Page → ℕ → Page
set_lsn page lsn = write_u64 page off_lsn lsn

unfoldable pub next_page_id : Page → Option ℕ
next_page_id page =
    let v = read_u64 page off_overflow_next_page_id in if v == 0 then none else some v

unfoldable pub chunk_len : Page → ℕ
chunk_len page = read_u16 page off_overflow_chunk_len

unfoldable pub payload : Page → List ℕ
unfolding chunk_len
payload page = slice page overflow_header_size (chunk_len page)
