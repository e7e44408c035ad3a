-- ===== src/Page/Meta.antt =====
-- The metadata page, crates/storage/src/page/meta.rs.
use flux_db.Common.{
  ℕ, ◌<◌, ◌≤◌, ◌^◌, ◌≡◌, not, ◌||◌, Option, none, some, ◌==◌, if◌then◌else◌, length, arith, ◌∙◌,
  inl, inr, get_or-set_self, length-set, ap,
}
use flux_db.Page.Bytes.{
  Page, read_u8, read_u32, read_u64, write_u8, write_u32, write_u64, read_le-write_le_self,
  read_le-write_le_ne, get_or-write_le, length-write_le, Apart,
}
use flux_db.Page.Header.{meta, off_page_type, off_lsn, page_size}

-- "FLUX", little-endian
abbrev pub magic : ℕ
magic = 0x58554c46

abbrev pub format_version : ℕ
format_version = 1

abbrev pub off_magic : ℕ
off_magic = 4

abbrev pub off_version : ℕ
off_version = 24

abbrev pub off_root : ℕ
off_root = 32

abbrev pub off_free_space : ℕ
off_free_space = 48

unfoldable pub init : Page → ℕ → Page
init page root_page_id =
    let typed = write_u8 page off_page_type meta in
    let marked = write_u32 typed off_magic magic in
    let versioned = write_u32 marked off_version format_version in
    write_u64 versioned off_root root_page_id

unfoldable pub set_root : Page → ℕ → Page
set_root page root_page_id = write_u64 page off_root root_page_id

unfoldable pub set_lsn : Page → ℕ → Page
set_lsn page lsn = write_u64 page off_lsn lsn

unfoldable pub read_root : Page → Option ℕ
read_root page =
    if not (read_u8 page off_page_type == meta)
      || (not (read_u32 page off_magic == magic)
          || not (read_u32 page off_version == format_version))
    then none
    else some (read_u64 page off_root)

unfoldable pub set_free_space : Page → ℕ → Page
set_free_space page pid = write_u64 page off_free_space pid

unfoldable pub read_free_space : Page → ℕ
read_free_space page = read_u64 page off_free_space

-- The marks that make a page a superblock of this format.
record IsMeta (page : Page) : Type 0 where
  typed : read_u8 page off_page_type ≡ meta
  marked : read_u32 page off_magic ≡ magic
  versioned : read_u32 page off_version ≡ format_version

read_root_lem : (page : Page) → IsMeta page → read_root page ≡ some (read_u64 page off_root)
unfolding read_root
read_root_lem page h = ground (arith, h.typed, h.marked, h.versioned)

-- A field of eight bytes that holds no mark.
abbrev Outside : ℕ → Type 0
Outside off = (1 ≤ off) × Apart off_magic 4 off 8 × Apart off_version 4 off 8

-- A write beside the marks keeps them.
IsMeta-write_u64 :
    (page : Page) (off v : ℕ) → IsMeta page → Outside off → IsMeta (write_u64 page off v)
IsMeta-write_u64 page off v h p = record {
  typed = get_or-write_le 8 page off v 0 (inl (omega arith)) ∙ h.typed;
  marked = read_le-write_le_ne 4 8 page off_magic off v p.1 ∙ h.marked;
  versioned = read_le-write_le_ne 4 8 page off_version off v p.2 ∙ h.versioned;
}

init-IsMeta : (page : Page) (root : ℕ) → length page ≡ page_size → IsMeta (init page root)
unfolding init
init-IsMeta page root full =
    let typed = write_u8 page off_page_type meta in
    let marked = write_u32 typed off_magic magic in
    let l₁ = length-set page off_page_type meta in
    let l₂ = length-write_le 4 typed off_magic magic in
    IsMeta-write_u64 (write_u32 marked off_version format_version) off_root root
      (record {
        typed =
            get_or-write_le 4 marked off_version format_version 0 (inl (omega arith))
            ∙ get_or-write_le 4 typed off_magic magic 0 (inl (omega arith))
            ∙ get_or-set_self page off_page_type meta 0 (omega arith);
        marked =
            read_le-write_le_ne 4 4 marked off_magic off_version format_version (inl (omega arith))
            ∙ read_le-write_le_self 4 typed off_magic magic (omega arith) (omega arith);
        versioned =
            read_le-write_le_self 4 marked off_version format_version (omega arith) (omega arith);
      })
      (omega arith, inl (omega arith), inl (omega arith))

length-init : (page : Page) (root : ℕ) → length (init page root) ≡ length page
unfolding init
length-init page root =
    let typed = write_u8 page off_page_type meta in
    let marked = write_u32 typed off_magic magic in
    omega (
      arith,
      length-set page off_page_type meta,
      length-write_le 4 typed off_magic magic,
      length-write_le 4 marked off_version format_version,
      length-write_le 8 (write_u32 marked off_version format_version) off_root root,
    )

root-init :
    (page : Page) (root : ℕ)
    → length page ≡ page_size
    → root < 2 ^ 64
    → read_u64 (init page root) off_root ≡ root
unfolding init
root-init page root full small =
    let typed = write_u8 page off_page_type meta in
    let marked = write_u32 typed off_magic magic in
    let versioned = write_u32 marked off_version format_version in
    read_le-write_le_self 8 versioned off_root root
      (omega (
        arith,
        length-set page off_page_type meta,
        length-write_le 4 typed off_magic magic,
        length-write_le 4 marked off_version format_version,
      ))
      small

module _ (page : Page) (root : ℕ) (full : length page ≡ page_size) (small : root < 2 ^ 64) where
  module _ (other lsn pid : ℕ) where
    -- A fresh superblock, on a page of full size and with a root of 64 bits, reads back its root, and so it does after `set_root`, and it keeps the
    -- root when the LSN or the free-space pointer is stamped.
    pub read_root_roundtrip :
        (read_root (init page root) ≡ some root)
        × (read_root (set_root (init page other) root) ≡ some root)
        × (read_root (set_lsn (init page root) lsn) ≡ some root)
        × (read_root (set_free_space (init page root) pid) ≡ some root)
    unfolding set_root set_lsn set_free_space
    read_root_roundtrip =
        let fresh = init page root in
        let marks = init-IsMeta page root full in
        let marks' = init-IsMeta page other full in
        (
          read_root_lem fresh marks ∙ ap some (root-init page root full small),
          read_root_lem (write_u64 (init page other) off_root root) (
                IsMeta-write_u64 (init page other) off_root root marks'
                  (omega arith, inl (omega arith), inl (omega arith)))
              ∙ ap some (
                  read_le-write_le_self 8 (init page other) off_root root
                    (omega (arith, length-init page other)) small),
          root_kept off_lsn lsn (inr (omega arith)) (
              IsMeta-write_u64 fresh off_lsn lsn marks
                (omega arith, inl (omega arith), inr (omega arith))),
          root_kept off_free_space pid (inl (omega arith)) (
              IsMeta-write_u64 fresh off_free_space pid marks
                (omega arith, inl (omega arith), inl (omega arith))),
        )
      where
        root_kept :
            (off v : ℕ)
            → Apart off_root 8 off 8
            → IsMeta (write_u64 (init page root) off v)
            → read_root (write_u64 (init page root) off v) ≡ some root
        root_kept off v apart marks =
            read_root_lem (write_u64 (init page root) off v) marks
            ∙ ap some (
                read_le-write_le_ne 8 8 (init page root) off_root off v apart
                ∙ root-init page root full small)
