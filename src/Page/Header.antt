-- ===== src/Page/Header.antt =====
-- The shared page header, crates/storage/src/page/mod.rs: type markers, flags, LSN and checksum.
use Prim.Native.Nat.{bit_and, bit_or}
use flux_db.Common.{
  ℕ, ◌+◌, ◌-◌, Bool, not, Option, none, some, List, ◌++◌, ◌==◌, take, drop, replicate,
  if◌then◌else◌,
}
use flux_db.Page.Bytes.{Page, read_u8, read_u32, read_u64, write_u8, write_u32, write_u64}

abbrev pub leaf : ℕ
leaf = 1

abbrev pub internal : ℕ
internal = 2

abbrev pub meta : ℕ
meta = 3

abbrev pub overflow : ℕ
overflow = 4

abbrev pub free_space : ℕ
free_space = 5

abbrev pub page_size : ℕ
page_size = 4096

abbrev pub off_page_type : ℕ
off_page_type = 0

abbrev pub off_flags : ℕ
off_flags = 1

abbrev pub off_page_id : ℕ
off_page_id = 8

abbrev pub off_lsn : ℕ
off_lsn = 16

abbrev pub flag_incomplete_split : ℕ
flag_incomplete_split = 0b0000_0001

abbrev pub flag_half_dead : ℕ
flag_half_dead = 0b0000_0010

-- `!x` on a byte
abbrev pub not_u8 : ℕ → ℕ
not_u8 x = 255 - x

unfoldable pub set_lsn : Page → ℕ → Page
set_lsn page lsn = write_u64 page off_lsn lsn

unfoldable pub page_lsn : Page → ℕ
page_lsn page = read_u64 page off_lsn

unfoldable pub is_incomplete_split : Page → Bool
is_incomplete_split page = not (bit_and (read_u8 page off_flags) flag_incomplete_split == 0)

unfoldable pub is_half_dead : Page → Bool
is_half_dead page = not (bit_and (read_u8 page off_flags) flag_half_dead == 0)

unfoldable pub set_incomplete_split : Page → Page
set_incomplete_split page =
    write_u8 page off_flags (bit_or (read_u8 page off_flags) flag_incomplete_split)

unfoldable pub set_half_dead : Page → Page
set_half_dead page = write_u8 page off_flags (bit_or (read_u8 page off_flags) flag_half_dead)

unfoldable pub clear_incomplete_split : Page → Page
clear_incomplete_split page =
    write_u8 page off_flags (bit_and (read_u8 page off_flags) (not_u8 flag_incomplete_split))

unfoldable pub clear_half_dead : Page → Page
clear_half_dead page =
    write_u8 page off_flags (bit_and (read_u8 page off_flags) (not_u8 flag_half_dead))

abbrev pub checksum_len : ℕ
checksum_len = 4

unfoldable pub checksum_offset : ℕ → Option ℕ
checksum_offset page_type =
    if page_type == leaf
    then some 44
    else if page_type == internal
    then some 32
    else if page_type == meta
    then some 56
    else if page_type == overflow
    then some 44
    else if page_type == free_space
    then some 24
    else none

-- `Ok(())`, or `Err((expected, actual))`
pub data Verdict : Type 0 where
  ok : Verdict
  err : ℕ → ℕ → Verdict

-- The CRC32 of the crate crc32fast is a parameter; it is fed the whole page as one text.
module _ (crc32 : List ℕ → ℕ) where
  unfoldable pub compute_checksum : Page → ℕ → ℕ
  compute_checksum page off =
      crc32 (take off page ++ (replicate checksum_len 0 ++ drop (off + checksum_len) page))

  unfoldable pub stamp_checksum : Page → Page
  stamp_checksum page = elim (checksum_offset (read_u8 page off_page_type)) [
    | none ↦ page
    | some off ↦ write_u32 page off (compute_checksum page off)
  ]

  unfoldable pub verify_checksum : Page → Verdict
  verify_checksum page = elim (checksum_offset (read_u8 page off_page_type)) [
    | none ↦ ok
    | some off ↦
        let stored = read_u32 page off in
        let actual = compute_checksum page off in if stored == actual then ok else err stored actual
  ]
