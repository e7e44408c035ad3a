-- ===== src/Recovery/Replays.antt =====
-- `apply_data` of crates/storage/src/recovery/mod.rs on what the `log_` methods of
-- crates/storage/src/wal.rs write.
use native.Mathlib.Nat.{mod-eq_of_lt}
use Prim.Native.Nat.{Ordering}
use flux_db.Common.{
  ℕ, ◌+◌, ◌%◌, ◌^◌, ◌<◌, ◌≡◌, refl, Bool, true, false, Option, some, List, [], ◌∷◌, ◌++◌, length,
  length-append, arith, ◌∙◌, ap, take,
}
use flux_db.Values.Keys.{Key, IsKey}
use flux_db.Values.Scalars.{to_le_bytes}
use flux_db.Page.Bytes.{Page, read_le, write_le}
use flux_db.Page.Overflow.{Result, ok, unwrap_or_zero}
use flux_db.Page.Meta.{set_root}
use flux_db.Page.Leaf.Mutate.{open_mutator, insert_raw, set_xmax, set_rightlink, set_prev_page}
use flux_db.Page.Internal.{open_internal}
use flux_db.Page.Internal.Mutate.{insert_key_and_right_child, remove_key_at}
use flux_db.Wal.Record.{WalRecordType}
use flux_db.Wal.Reader.Laws.{read_le-to_le_bytes, take-append, drop-append}
use flux_db.Wal.Payloads.{insert_payload, set_xmax_payload, downlink_payload, parent_payload}
use flux_db.Recovery.Apply.{
  ◌>>=◌, with_xmin, then_some, apply_insert, apply_set_xmax, apply_downlink, apply_unlink,
  apply_root, apply_data,
}
use flux_db.Recovery.Fields.{
  field-known, part-known, take-all, drop-drop, >>=-congr, delete_fields, link_fields,
  parent_fields, root_field,
}
use flux_db.Recovery.Logs.{
  inserted, deleted, linked, left_unlinked, right_unlinked, parent_unlinked, rooted, side, Logged,
}

replay_insert :
    (slot : ℕ) (key_bytes value : List ℕ) (rec_type xmin : ℕ)
    → slot < 2 ^ 16
    → length key_bytes < 2 ^ 16
    → length value < 2 ^ 16
    → xmin < 2 ^ 64
    → (page : Page)
    → apply_insert (insert_payload slot key_bytes value rec_type xmin) page ≡ (
        open_mutator page >>= λ m.
        some (with_xmin (insert_raw m slot key_bytes value rec_type) slot xmin))
unfolding apply_insert write_le read_le
replay_insert slot key_bytes value rec_type xmin s k v x page =
    let d = insert_payload slot key_bytes value rec_type xmin in
    let both = length-append key_bytes value in
    let long : length d ≡ 15 + length key_bytes + length value = omega arith in
    let kl : length key_bytes % 2 ^ 16 ≡ length key_bytes = mod-eq_of_lt k in
    let vl : length value % 2 ^ 16 ≡ length value = mod-eq_of_lt v in
    let f1 = field-known 2 0 d slot (omega arith) (read_le-to_le_bytes 2 slot (omega arith)) in
    let f2 =
      field-known 2 2 d (length key_bytes) (omega arith)
        (read_le-to_le_bytes 2 (length key_bytes % 2 ^ 16) (omega arith) ∙ kl) in
    let f3 =
      field-known 2 4 d (length value) (omega arith)
        (read_le-to_le_bytes 2 (length value % 2 ^ 16) (omega arith) ∙ vl) in
    let f4 = field-known 1 6 d rec_type (omega arith) (omega arith) in
    let f5 = field-known 8 7 d xmin (omega arith) (read_le-to_le_bytes 8 xmin (omega arith)) in
    let p1 =
      part-known 15 (length key_bytes) d key_bytes (omega arith)
        (take-append (length key_bytes) key_bytes value refl) in
    let p2 = part-known (15 + length key_bytes) (length value) d value (omega arith) (
      ap (take (length value)) (
        drop-drop 15 (length key_bytes) (15 + length key_bytes) d refl
        ∙ drop-append (length key_bytes) key_bytes value refl)
      ∙ take-all value) in
    rw (f1, apply_insert) (rw f2 (rw f3 (rw f4 (rw f5 (rw p1 (rw p2 refl))))))

replay_downlink {ℓ} :
    {K : Type ℓ} {Fits : K → Type 0} {cmp : K → K → Ordering} (key : Key K)
    → IsKey Fits cmp key
    → (at_index : ℕ) (sep : K) (right_child : ℕ) → at_index < 2 ^ 16
    → Fits sep
    → length (key.value.as_bytes sep) < 2 ^ 16
    → right_child < 2 ^ 64
    → (page : Page)
    → apply_downlink key (downlink_payload at_index (key.value.as_bytes sep) right_child) page ≡ (
        open_internal page >>= λ m.
        insert_key_and_right_child m at_index (key.value.as_bytes sep) right_child)
unfolding apply_downlink write_le read_le
replay_downlink key is_key at_index sep right_child a f l r page =
    let sep_key = key.value.as_bytes sep in
    let d = downlink_payload at_index sep_key right_child in
    let long : length d ≡ 12 + length sep_key = omega arith in
    let sl : length sep_key % 2 ^ 16 ≡ length sep_key = mod-eq_of_lt l in
    let f1 =
      field-known 2 0 d at_index (omega arith) (read_le-to_le_bytes 2 at_index (omega arith)) in
    let f2 =
      field-known 2 2 d (length sep_key) (omega arith)
        (read_le-to_le_bytes 2 (length sep_key % 2 ^ 16) (omega arith) ∙ sl) in
    let f3 =
      field-known 8 4 d right_child (omega arith)
        (read_le-to_le_bytes 8 right_child (omega arith)) in
    let p1 = part-known 12 (length sep_key) d sep_key (omega arith) (take-all sep_key) in
    rw (f1, apply_downlink)
      (rw f2 (
        rw f3 (
          rw p1 (>>=-congr (open_internal page) (λ m. rw (is_key.is_value.roundtrip sep f) refl)))))

replay_delete :
    (slot xmax : ℕ)
    → slot < 2 ^ 16
    → xmax < 2 ^ 64
    → (page : Page)
    → apply_set_xmax (set_xmax_payload slot xmax) page
      ≡ (open_mutator page >>= λ m. some (ok (set_xmax m slot xmax)))
unfolding apply_set_xmax
replay_delete slot xmax s x page =
    let (f1, f2) = delete_fields slot xmax s x in rw (f1, apply_set_xmax) (rw f2 refl)

replay_left :
    (link : ℕ)
    → link < 2 ^ 64
    → (page : Page)
    → apply_unlink (0 ∷ [] ++ to_le_bytes 8 link) page
      ≡ (open_mutator page >>= λ m. some (ok (set_rightlink m (then_some link))))
unfolding apply_unlink
replay_left link b page = let (f1, f2) = link_fields 0 link b in rw (f1, apply_unlink) (rw f2 refl)

replay_right :
    (link : ℕ)
    → link < 2 ^ 64
    → (page : Page)
    → apply_unlink (1 ∷ [] ++ to_le_bytes 8 link) page
      ≡ (open_mutator page >>= λ m. some (ok (set_prev_page m (then_some link))))
unfolding apply_unlink
replay_right link b page = let (f1, f2) = link_fields 1 link b in rw (f1, apply_unlink) (rw f2 refl)

replay_parent :
    (remove_index : ℕ) (keep_right : Bool)
    → remove_index < 2 ^ 16
    → (page : Page)
    → apply_unlink (parent_payload remove_index keep_right) page ≡ (
        open_internal page >>= λ m.
        remove_key_at m remove_index (side keep_right) >>= λ page'. some (ok page'))
unfolding apply_unlink
replay_parent remove_index true b page =
    let (f1, f2, f3) = parent_fields remove_index 1 b in rw (f1, apply_unlink) (rw (f2, f3) refl)
replay_parent remove_index false b page =
    let (f1, f2, f3) = parent_fields remove_index 0 b in rw (f1, apply_unlink) (rw (f2, f3) refl)

replay_root :
    (root : ℕ)
    → root < 2 ^ 64
    → (page : Page) → apply_root (to_le_bytes 8 root) page ≡ some (ok (set_root page root))
unfolding apply_root
replay_root root b page = rw (root_field root b, apply_root) refl

-- Of a lawful key type, replaying the data that was logged for a page does to a page what the logging operation did, as
-- long as the logged numbers keep to their widths: the insertion with its creator, the deletion, the downlink with its
-- separator, the new links of the two siblings of an unlinked leaf and the removal in its parent, and the new root;
-- with the same errors.
pub apply_data-Logged {ℓ} :
    {K : Type ℓ} {Fits : K → Type 0} {cmp : K → K → Ordering} (key : Key K)
    → IsKey Fits cmp key
    → (t : WalRecordType) (i : ℕ) (payload : Option (List ℕ)) (op : Page → Option (Result Page))
    → Logged key Fits t i payload op
    → (page : Page) → apply_data key t i payload page ≡ op page
unfolding apply_data
apply_data-Logged key is_key _ _ _ _ (inserted slot key_bytes value rec_type xmin s k v x) page =
    replay_insert slot key_bytes value rec_type xmin s k v x page
apply_data-Logged key is_key _ _ _ _ (deleted slot xmax s x) page = replay_delete slot xmax s x page
apply_data-Logged key is_key _ _ _ _ (linked at_index sep right_child a f l r) page =
    replay_downlink key is_key at_index sep right_child a f l r page
apply_data-Logged key is_key _ _ _ _ (left_unlinked i right_sibling b) page =
    replay_left (unwrap_or_zero right_sibling) b page
apply_data-Logged key is_key _ _ _ _ (right_unlinked i left_sibling b) page =
    replay_right (unwrap_or_zero left_sibling) b page
apply_data-Logged key is_key _ _ _ _ (parent_unlinked i remove_index keep_right b) page =
    replay_parent remove_index keep_right b page
apply_data-Logged key is_key _ _ _ _ (rooted root_page_id b) page = replay_root root_page_id b page
