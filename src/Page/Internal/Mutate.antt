-- ===== src/Page/Internal/Mutate.antt =====
-- The mutator and the builder of crates/storage/src/page/internal.rs.
use flux_db.Common.{
  ℕ, suc, ◌+◌, ◌-◌, ◌%◌, ◌^◌, Option, none, some, List, [], ◌∷◌, ◌++◌, length, take, drop, ltb, leb,
  if◌then◌else◌,
}
use flux_db.Page.Bytes.{Page, write_u8, write_u16, write_u32, write_u64}
use flux_db.Page.Slices.{write_bytes, fill_zero}
use flux_db.Page.Header.{internal, off_page_type, off_page_id, off_lsn, page_size}
use flux_db.Page.Overflow.{Result, ok, err, insufficient_space, unwrap_or_zero}
use flux_db.Page.Internal.{
  off_int_num_keys, off_int_high_key_len, off_int_rightlink, int_child_offset, int_key_end_offset,
  int_key_data_base, num_keys, can_fit, free_bytes, first_parts, snapshot,
}

unfoldable pub set_lsn : Page → ℕ → Page
set_lsn page lsn = write_u64 page off_lsn lsn

unfoldable pub set_rightlink : Page → Option ℕ → Page
set_rightlink page right = write_u64 page off_int_rightlink (unwrap_or_zero right)

-- A key of no bytes is written as nothing.
unfoldable pub set_high_key : Page → List ℕ → Page
set_high_key page key_bytes =
    let len = length key_bytes in
    write_bytes (write_u16 page off_int_high_key_len (len % 2 ^ 16)) (page_size - len) key_bytes

unfoldable pub set_child_at : Page → ℕ → ℕ → Page
set_child_at page i page_id = write_u64 page (int_child_offset i) page_id

unfoldable pub write_children : Page → ℕ → List ℕ → Page
write_children page i [] = page
write_children page i (child ∷ rest) =
    write_children (write_u64 page (int_child_offset i) child) (suc i) rest

unfoldable pub write_key_ends : ℕ → Page → ℕ → ℕ → List (List ℕ) → Page
write_key_ends n page i cumulative [] = page
write_key_ends n page i cumulative (key ∷ rest) =
    let sum = cumulative + length key in
    write_key_ends n (write_u32 page (int_key_end_offset n i) (sum % 2 ^ 32)) (suc i) sum rest

unfoldable pub write_keys : Page → ℕ → List (List ℕ) → Page
write_keys page off [] = page
write_keys page off (key ∷ rest) = write_keys (write_bytes page off key) (off + length key) rest

unfoldable pub rewrite : Page → List ℕ → List (List ℕ) → Page
unfolding write_children write_key_ends write_keys
rewrite page children keys =
    let new_n = length keys in
    let counted = write_u16 page off_int_num_keys (new_n % 2 ^ 16) in
    let with_children = write_children counted 0 children in
    write_keys (write_key_ends new_n with_children 0 0 keys) (int_key_data_base new_n) keys

-- `Vec::insert` and `Vec::remove`; a position out of range, a panic, is none.
abbrev pub insert_at {ℓ} : {A : Type ℓ} → ℕ → A → List A → Option (List A)
insert_at i x xs = if leb i (length xs) then some (take i xs ++ x ∷ drop i xs) else none

abbrev pub remove_at {ℓ} : {A : Type ℓ} → ℕ → List A → Option (List A)
remove_at i xs = if ltb i (length xs) then some (take i xs ++ drop (suc i) xs) else none

-- Where both edits succeed.
abbrev pub rewrite_edited : Page → Option (List ℕ) → Option (List (List ℕ)) → Option Page
rewrite_edited page none keys = none
rewrite_edited page (some children) none = none
rewrite_edited page (some children) (some keys) = some (rewrite page children keys)

unfoldable pub insert_key_and_right_child : Page → ℕ → List ℕ → ℕ → Option (Result Page)
unfolding rewrite
insert_key_and_right_child page index key_bytes right_child =
    let (children, keys) = snapshot page in
    if can_fit page (length key_bytes)
    then elim (rewrite_edited page (insert_at (index + 1) right_child children)
        (insert_at index key_bytes keys)) [ none ↦ none | some page' ↦ some (ok page') ]
    else some (err (insufficient_space (8 + 4 + length key_bytes) (free_bytes page)))

pub data ChildSide : Type 0 where
  left : ChildSide
  right : ChildSide

unfoldable pub remove_key_at : Page → ℕ → ChildSide → Option Page
unfolding rewrite
remove_key_at page index keep =
    let (children, keys) = snapshot page in
    let dropped : ℕ = elim keep [ left ↦ index + 1 | right ↦ index ] in
    rewrite_edited page (remove_at dropped children) (remove_at index keys)

unfoldable pub update_separator_at : Page → ℕ → List ℕ → Option Page
unfolding rewrite
update_separator_at page index new_key =
    let (children, keys) = snapshot page in
    rewrite_edited page (some children) (
      if ltb index (length keys)
      then some (take index keys ++ new_key ∷ drop (suc index) keys)
      else none)

unfoldable pub prepend_separator : Page → List ℕ → ℕ → Page
unfolding rewrite
prepend_separator page new_key new_leftmost_child =
    let (children, keys) = snapshot page in
    rewrite page (new_leftmost_child ∷ children) (new_key ∷ keys)

unfoldable pub truncate_to : Page → ℕ → Page
unfolding rewrite
truncate_to page num =
    let (children, keys) = first_parts page num in
    if leb (num_keys page) num then page else rewrite page children keys

pub record Builder : Type 0 where
  pub page : Page
  pub keys : List (List ℕ)
  pub children : List ℕ

unfoldable pub new_internal : ℕ → Page → Builder
new_internal page_id page = record {
  page = write_u64 (write_u8 (fill_zero page) off_page_type internal) off_page_id page_id;
  keys = [];
  children = [];
}

-- A second first child is a panic, and so is a key before the first child.
unfoldable pub push_first_child : Builder → ℕ → Option Builder
push_first_child b child = elim b.children [
  | [] ↦ some (record b { children = child ∷ [] })
  | _ ∷ _ ↦ none
]

unfoldable pub push_key_and_right_child : Builder → List ℕ → ℕ → Option Builder
push_key_and_right_child b key_bytes right_child = elim b.children [
  | [] ↦ none
  | _ ∷ _ ↦
      some (record b { keys = b.keys ++ key_bytes ∷ []; children = b.children ++ right_child ∷ [] })
]

-- The same writes as those of `rewrite`.
unfoldable pub finish : Builder → Page
unfolding rewrite
finish b = rewrite b.page b.children b.keys
