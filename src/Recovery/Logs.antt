-- ===== src/Recovery/Logs.antt =====
-- What the log_ methods of crates/storage/src/wal.rs log for a page that their callers change.
use flux_db.Common.{ℕ, ◌^◌, ◌<◌, Bool, true, false, Option, some, List, length}
use flux_db.Values.Keys.{Key}
use flux_db.Values.Scalars.{to_le_bytes}
use flux_db.Page.Bytes.{Page}
use flux_db.Page.Overflow.{Result, ok, unwrap_or_zero}
use flux_db.Page.Meta.{set_root}
use flux_db.Page.Leaf.Mutate.{open_mutator, insert_raw, set_xmax, set_rightlink, set_prev_page}
use flux_db.Page.Internal.{open_internal}
use flux_db.Page.Internal.Mutate.{insert_key_and_right_child, remove_key_at, ChildSide, left, right}
use flux_db.Wal.Record.{WalRecordType, insert, set_x_max, insert_down_link, unlink_page, new_root}
use flux_db.Wal.Payloads.{
  insert_payload, set_xmax_payload, downlink_payload, left_payload, right_payload, parent_payload,
}
use flux_db.Recovery.Apply.{◌>>=◌, with_xmin, then_some}

abbrev pub side : Bool → ChildSide
side true = right
side false = left

-- A payload that a method logs for a page, and what the method's caller does to the page.
pub data Logged {ℓ} {K : Type ℓ} (key : Key K) (Fits : K → Type 0)
    : WalRecordType → ℕ → Option (List ℕ) → (Page → Option (Result Page)) → Type ℓ where
  inserted :
      (slot : ℕ) (key_bytes value : List ℕ) (rec_type xmin : ℕ)
      → slot < 2 ^ 16
      → length key_bytes < 2 ^ 16
      → length value < 2 ^ 16
      → xmin < 2 ^ 64
      → Logged key Fits insert 0 (some (insert_payload slot key_bytes value rec_type xmin)) (λ page.
        open_mutator page >>= λ m.
        some (with_xmin (insert_raw m slot key_bytes value rec_type) slot xmin))
  deleted :
      (slot xmax : ℕ)
      → slot < 2 ^ 16
      → xmax < 2 ^ 64
      → Logged key Fits set_x_max 0
          (some (set_xmax_payload slot xmax))
          (λ page. open_mutator page >>= λ m. some (ok (set_xmax m slot xmax)))
  linked :
      (at_index : ℕ) (sep : K) (right_child : ℕ)
      → at_index < 2 ^ 16
      → Fits sep
      → length (key.value.as_bytes sep) < 2 ^ 16
      → right_child < 2 ^ 64
      → Logged key Fits insert_down_link 0
          (some (downlink_payload at_index (key.value.as_bytes sep) right_child))
          (λ page. open_internal page >>= λ m.
            insert_key_and_right_child m at_index (key.value.as_bytes sep) right_child)
  left_unlinked :
      (i : ℕ) (right_sibling : Option ℕ)
      → unwrap_or_zero right_sibling < 2 ^ 64
      → Logged key Fits unlink_page i (some (left_payload right_sibling)) (λ page.
        open_mutator page >>= λ m.
        some (ok (set_rightlink m (then_some (unwrap_or_zero right_sibling)))))
  right_unlinked :
      (i : ℕ) (left_sibling : Option ℕ)
      → unwrap_or_zero left_sibling < 2 ^ 64
      → Logged key Fits unlink_page i (some (right_payload left_sibling)) (λ page.
        open_mutator page >>= λ m.
        some (ok (set_prev_page m (then_some (unwrap_or_zero left_sibling)))))
  parent_unlinked :
      (i remove_index : ℕ) (keep_right : Bool)
      → remove_index < 2 ^ 16
      → Logged key Fits unlink_page i (some (parent_payload remove_index keep_right)) (λ page.
        open_internal page >>= λ m.
        remove_key_at m remove_index (side keep_right) >>= λ page'. some (ok page'))
  rooted :
      (root_page_id : ℕ)
      → root_page_id < 2 ^ 64
      → Logged key Fits new_root 1
          (some (to_le_bytes 8 root_page_id))
          (λ page. some (ok (set_root page root_page_id)))
