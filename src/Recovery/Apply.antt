-- ===== src/Recovery/Apply.antt =====
-- `apply_data` and `redo_record` of crates/storage/src/recovery/mod.rs. A panic is none.
use flux_db.Common.{
  ℕ, zero, suc, ◌+◌, Option, none, some, List, [], ◌∷◌, length, leb, ◌==◌, if◌then◌else◌,
}
use flux_db.Values.Keys.{Key}
use flux_db.Page.Bytes.{Page, read_le}
use flux_db.Page.Slices.{slice}
use flux_db.Page.Header.{page_lsn, set_lsn, set_half_dead, clear_incomplete_split}
use flux_db.Page.Meta.{set_root}
use flux_db.Page.Overflow.{Result, ok, err}
use flux_db.Page.Leaf.Mutate.{
  open_mutator, insert_raw, set_xmin, set_xmax, set_rightlink, set_prev_page,
}
use flux_db.Page.Internal.{open_internal}
use flux_db.Page.Internal.Mutate.{insert_key_and_right_child, remove_key_at, left, right}
use flux_db.Wal.Record.{
  WalRecordType, Block, insert, set_x_max, insert_down_link, mark_half_dead, unlink_page, new_root,
}
use flux_db.Wal.Reader.{WalRecord}
use flux_db.Wal.Payloads.{
  unlink_role_left, unlink_role_right, unlink_role_parent, unlink_keep_right,
}

infixl 5 ◌>>=◌
abbrev pub ◌>>=◌ {ℓ κ} : {A : Type ℓ} {B : Type κ} → Option A → (A → Option B) → Option B
none >>= f = none
some a >>= f = f a

-- `from_le_bytes(d[off..off + n])`
abbrev pub field : ℕ → ℕ → List ℕ → Option ℕ
field n off d = if leb (off + n) (length d) then some (read_le n d off) else none

-- `&d[off..off + len]`
abbrev pub part : ℕ → ℕ → List ℕ → Option (List ℕ)
part off len d = if leb (off + len) (length d) then some (slice d off len) else none

abbrev pub with_xmin : Result Page → ℕ → ℕ → Result Page
with_xmin (ok page) slot xmin = ok (set_xmin page slot xmin)
with_xmin (err e) slot xmin = err e

unfoldable pub apply_insert : List ℕ → Page → Option (Result Page)
unfolding open_mutator insert_raw set_xmin
apply_insert d page = do
  slot ← field 2 0 d
  key_len ← field 2 2 d
  val_len ← field 2 4 d
  rec_type ← field 1 6 d
  xmin ← field 8 7 d
  key ← part 15 key_len d
  val ← part (15 + key_len) val_len d
  m ← open_mutator page
  some (with_xmin (insert_raw m slot key val rec_type) slot xmin)

unfoldable pub apply_set_xmax : List ℕ → Page → Option (Result Page)
unfolding open_mutator set_xmax
apply_set_xmax d page = do
  slot ← field 2 0 d
  xmax ← field 8 2 d
  m ← open_mutator page
  some (ok (set_xmax m slot xmax))

-- `(link != 0).then_some(link)`
abbrev pub then_some : ℕ → Option ℕ
then_some link = if link == 0 then none else some link

unfoldable pub apply_unlink : List ℕ → Page → Option (Result Page)
unfolding open_mutator open_internal remove_key_at
apply_unlink d page = do
  role ← field 1 0 d
  if role == unlink_role_left
      then (do
        new_rightlink ← field 8 1 d
        m ← open_mutator page
        some (ok (set_rightlink m (then_some new_rightlink))))
      else if role == unlink_role_right
      then (do
        new_prev ← field 8 1 d
        m ← open_mutator page
        some (ok (set_prev_page m (then_some new_prev))))
      else if role == unlink_role_parent
      then (do
        remove_index ← field 2 1 d
        keep ← field 1 3 d
        m ← open_internal page
        page' ← remove_key_at m remove_index (if keep == unlink_keep_right then right else left)
        some (ok page'))
      else none

unfoldable pub apply_root : List ℕ → Page → Option (Result Page)
unfolding set_root
apply_root d page = do root_page_id ← field 8 0 d; some (ok (set_root page root_page_id))

module _ {ℓ} {K : Type ℓ} (key : Key K) where
  unfoldable pub apply_downlink : List ℕ → Page → Option (Result Page)
  unfolding open_internal insert_key_and_right_child
  apply_downlink d page = do
    at_index ← field 2 0 d
    sep_len ← field 2 2 d
    right_child ← field 8 4 d
    sep_key ← part 12 sep_len d
    m ← open_internal page
    k ← key.value.from_bytes sep_key
    insert_key_and_right_child m at_index (key.value.as_bytes k) right_child

  unfoldable pub apply_data : WalRecordType → ℕ → Option (List ℕ) → Page → Option (Result Page)
  unfolding apply_insert apply_set_xmax apply_downlink apply_unlink apply_root set_half_dead
      clear_incomplete_split
  apply_data insert zero data_of page = data_of >>= λ d. apply_insert d page
  apply_data set_x_max zero data_of page = data_of >>= λ d. apply_set_xmax d page
  apply_data insert_down_link zero data_of page = data_of >>= λ d. apply_downlink d page
  apply_data mark_half_dead zero data_of page = some (ok (set_half_dead page))
  apply_data unlink_page block_idx data_of page = data_of >>= λ d. apply_unlink d page
  apply_data insert_down_link (suc zero) data_of page = some (ok (clear_incomplete_split page))
  apply_data new_root (suc zero) data_of page = data_of >>= λ d. apply_root d page
  apply_data new_root (suc (suc zero)) data_of page = some (ok (clear_incomplete_split page))
  apply_data _ _ data_of page = some (ok page)

  -- The pool as the bytes of every page; `ensure_page` succeeds.
  abbrev pub Pages : Type 0
  Pages = ℕ → Page

  abbrev pub put : Pages → ℕ → Page → Pages
  put pages page_id page = λ p. if p == page_id then page else pages p

  -- The page that a block stands for, of the page as it is.
  unfoldable pub redone : WalRecord → ℕ → Block → Page → Option (Result Page)
  unfolding apply_data
  redone rec i block page = elim block.fpi [
    | some image ↦ some (ok image)
    | none ↦ apply_data rec.entry_type i block.data_bytes page
  ]

  unfoldable pub redo_block : WalRecord → ℕ → Block → Pages → Option (Result Pages)
  unfolding redone page_lsn set_lsn
  redo_block rec i block pages =
      let page = pages block.page_id in
      if leb rec.lsn (page_lsn page) then some (ok pages) else elim (redone rec i block page) [
        | none ↦ none
        | some (err e) ↦ some (err e)
        | some (ok page') ↦ some (ok (put pages block.page_id (set_lsn page' rec.lsn)))
      ]

  unfoldable pub redo_blocks : WalRecord → ℕ → List Block → Pages → Option (Result Pages)
  unfolding redo_block
  redo_blocks rec i [] pages = some (ok pages)
  redo_blocks rec i (block ∷ rest) pages = elim (redo_block rec i block pages) [
    | none ↦ none
    | some (err e) ↦ some (err e)
    | some (ok pages') ↦ redo_blocks rec (suc i) rest pages'
  ]

  unfoldable pub redo_record : WalRecord → Pages → Option (Result Pages)
  unfolding redo_blocks
  redo_record rec pages = redo_blocks rec 0 rec.blocks pages
