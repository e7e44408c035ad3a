-- ===== src/Page/Leaf/Tests.antt =====
-- The laws of leaf pages at concrete pages.
use Prim.Native.Nat.{Ordering, compare}
use flux_db.Common.{
  ℕ, zero, suc, ◌-◌, ◌^◌, ◌<◌, ◌≤◌, ◌≡◌, ◌≢◌, ◌⊎◌, refl, true, false, some, [], ◌∷◌, ◌++◌,
  replicate, length-replicate, take, drop, get_or, arith, Bool, ltb, ◌&&◌, contains_key, get,
  insert, keys, values, retain,
}
use flux_db.Mvcc.State.{TransactionManager, TransactionStatus}
use flux_db.Mvcc.Manager.{read_snapshot, global_xmin, oldest_active, is_active}
use flux_db.Mvcc.Invariant.{IsValid}
use flux_db.Mvcc.Steps.{Reach}
use flux_db.Values.Keys.{le_key}
use flux_db.Values.Keys.Laws.{le_key-IsKey}
use flux_db.Page.Bytes.{Page, write_le, read_le}
use flux_db.Page.Slices.{write_bytes}
use flux_db.Page.FreeSpace.Scan.{IsBytes}
use flux_db.Page.Header.{page_size}
use flux_db.Page.Overflow.{ok, err, insufficient_space}
use flux_db.Page.Leaf.{
  accessor, key_bytes_at, can_fit_direct, slot_base, high_key_len, free_start, free_end,
}
use flux_db.Page.Leaf.Mutate.{
  LeafRecord, insert_raw, remove, write_record, write_slot, write_counts,
}
use flux_db.Page.Leaf.Records.{IsStorable}
use flux_db.Page.Leaf.Valid.{pairs, entry, entries, IsLeaf}
use flux_db.Page.Leaf.Insert.{inserted, recorded, shifted, slotted}
use flux_db.Page.Leaf.Insert.Refine.{Inserts, inserted-Inserts, insert_raw-Inserts}
use flux_db.Page.Leaf.Remove.Refine.{remove-drop}
use flux_db.Page.Leaf.Search.{position, Splits, IsOrder, IsSorted, position-Splits}
use flux_db.Page.Leaf.Build.{Builder, new_leaf}
use flux_db.Page.Leaf.Build.Start.{Blank-IsLeaf, new_leaf-Blank}
use flux_db.Page.Leaf.Build.Push.{IsBuilt}
use flux_db.Page.Leaf.Compact.{compact, encode_again}
use flux_db.Page.Leaf.Compact.Gather.{dead_number, dead_chains, survivors, AllEncode}
use flux_db.Page.Leaf.Compact.Rebuild.{SameMetadata}
use flux_db.Page.Leaf.Compact.Keeps.{compact-survivors}
use flux_db.Page.Leaf.Compact.Readers.{visible, compact-visible}

program : Unit {0}
unfolding new_leaf inserted slotted shifted recorded write_record write_slot write_counts
    write_bytes write_le read_le entry encode_again get contains_key read_snapshot global_xmin
    insert oldest_active keys values retain is_active
program = tt

abbrev zeros : Page
zeros = replicate page_size 0

abbrev empty_leaf : Page
empty_leaf = (new_leaf 7 zeros).data_bytes

empty-IsLeaf : IsLeaf empty_leaf
empty-IsLeaf =
    Blank-IsLeaf (new_leaf-Blank 7 zeros (length-replicate {A = ℕ} page_size 0) (omega arith))
      (omega arith)

abbrev dead : LeafRecord
dead = record { key = 5 ∷ []; val = 65 ∷ []; rec_type = 0; xmin = 3; xmax = 0 }

abbrev live : LeafRecord
live = record { key = 9 ∷ []; val = []; rec_type = 0; xmin = 1; xmax = 0 }

dead-IsStorable : IsStorable dead
dead-IsStorable = record {
  key_small = omega arith;
  val_small = omega arith;
  xmin_small = omega arith;
  xmax_small = omega arith;
}

live-IsStorable : IsStorable live
live-IsStorable = record {
  key_small = omega arith;
  val_small = omega arith;
  xmin_small = omega arith;
  xmax_small = omega arith;
}

abbrev one : Page
one = inserted empty_leaf 0 dead

one-IsLeaf : IsLeaf one
unfolding program
one-IsLeaf =
    (inserted-Inserts empty_leaf 0 dead empty-IsLeaf (omega arith) (omega arith)
      dead-IsStorable).valid

abbrev two : Page
two = inserted one 1 live

two-IsLeaf : IsLeaf two
unfolding program
two-IsLeaf =
    (inserted-Inserts one 1 live one-IsLeaf (omega arith) (omega arith) live-IsStorable).valid

entries-two : entries two ≡ dead ∷ live ∷ []
unfolding program
entries-two = refl

abbrev all_bytes : Page → Bool
all_bytes [] = true
all_bytes (b ∷ page) = ltb b 256 && all_bytes page

IsBytes-all_bytes : (page : Page) → all_bytes page ≡ true → IsBytes page
IsBytes-all_bytes [] h = tt
IsBytes-all_bytes (b ∷ page) h = (ground arith, IsBytes-all_bytes page (ground arith))

two-IsBytes : IsBytes two
unfolding program
two-IsBytes = IsBytes-all_bytes two refl

-- Transaction 1 committed and 3 was aborted.
abbrev settled_tm : TransactionManager
settled_tm = record {
  next_txn_id = 4;
  clog = (3, TransactionStatus.aborted) ∷ (1, TransactionStatus.committed) ∷ [];
  vacuum_horizon = 0;
  dead_versions = 1;
  active_txns = [];
  readers = [];
  next_reader_token = 0;
  waiters = [];
  settled = [];
  next_entry = 1;
}

settled_tm-IsValid : IsValid settled_tm
unfolding get contains_key is_active
settled_tm-IsValid = record {
  next_pos = omega arith;
  active_ids = λ t h. ground arith;
  active_xmins = λ t e h. ground arith;
  reader_xmins = λ k x h. ground arith;
  reader_tokens = λ k x h. ground arith;
  clog_ids = λ t s h. ground arith;
  maps = (tt, tt, (refl, (refl, tt)));
}

pairs-two_le : 1 ≤ pairs two
unfolding program
pairs-two_le = omega arith

pairs-two_lt : 1 < pairs two
unfolding program
pairs-two_lt = omega arith

insert_raw-Inserts_example :
    ((can_fit_direct (accessor two) 1 2 ≡ true)
      × (page' : Page) × (insert_raw two 1 (7 ∷ []) (1 ∷ 2 ∷ []) 0 ≡ ok page')
      × Inserts two 1
          (record { key = 7 ∷ []; val = 1 ∷ 2 ∷ []; rec_type = 0; xmin = 0; xmax = 0 })
          page')
    ⊎ ((can_fit_direct (accessor two) 1 2 ≡ false)
        × (insert_raw two 1 (7 ∷ []) (1 ∷ 2 ∷ []) 0
            ≡ err (insufficient_space 32 (free_end two - free_start two))))
insert_raw-Inserts_example =
    insert_raw-Inserts two 1 (7 ∷ []) (1 ∷ 2 ∷ []) 0 two-IsLeaf pairs-two_le

remove-drop_example :
    (page' : Page) × (remove two 0 ≡ some page')
    × IsLeaf page'
    × (entries page' ≡ take 0 (entries two) ++ drop 1 (entries two))
    × (free_end page' ≡ free_end two)
    × ((off : ℕ)
        → (off < 2) ⊎ (6 ≤ off)
        → off < slot_base (high_key_len two)
        → get_or page' off 0 ≡ get_or two off 0)
remove-drop_example = remove-drop two 0 two-IsLeaf pairs-two_le

two-AllEncode : AllEncode (le_key 1) (entries two)
unfolding program
two-AllEncode = (refl, (refl, tt))

compact-survivors_example :
    (page' : Page) × (compact (le_key 1) 4 settled_tm 7 two
      ≡ some
          (page', dead_number 4 settled_tm (entries two), dead_chains 4 settled_tm (entries two)))
    × IsLeaf page'
    × (entries page' ≡ survivors 4 settled_tm (entries two))
    × SameMetadata two page'
compact-survivors_example =
    compact-survivors (le_key 1) 4 settled_tm 7 two two-IsLeaf two-IsBytes (omega arith)
      two-AllEncode

compact-visible_example :
    (page' : Page) × (compact (le_key 1) 4 (read_snapshot settled_tm).0 7 two
      ≡ some (
        page',
        dead_number 4 (read_snapshot settled_tm).0 (entries two),
        dead_chains 4 (read_snapshot settled_tm).0 (entries two),
      ))
    × IsLeaf page'
    × (visible (read_snapshot settled_tm).1 (read_snapshot settled_tm).0 (entries page')
        ≡ visible (read_snapshot settled_tm).1 (read_snapshot settled_tm).0 (entries two))
unfolding program
compact-visible_example =
    compact-visible (le_key 1) settled_tm (read_snapshot settled_tm).0 4 7 two settled_tm-IsValid
      (omega arith) Reach.here refl (omega arith) two-IsLeaf two-IsBytes (omega arith) two-AllEncode

abbrev builder : Builder
builder = new_leaf 7 zeros

builder-IsBuilt : IsBuilt builder
unfolding program
builder-IsBuilt = record { valid = empty-IsLeaf; end_known = refl; hkl_known = refl }

compare-IsOrder : IsOrder compare
compare-IsOrder = record { less = λ a b c h e. ground arith; greater = λ a b c h e. ground arith }

abbrev two_keys : ℕ → ℕ
two_keys i = get_or (5 ∷ 9 ∷ []) i 9

pairs-two : pairs two ≡ 2
unfolding program
pairs-two = refl

first_key : key_bytes_at (accessor two) 0 ≡ (le_key 1).value.as_bytes 5
unfolding program
first_key = refl

second_key : key_bytes_at (accessor two) 1 ≡ (le_key 1).value.as_bytes 9
unfolding program
second_key = refl

held_two : (i : ℕ) → i < 2 → key_bytes_at (accessor two) i ≡ (le_key 1).value.as_bytes (two_keys i)
held_two zero h = first_key
held_two (suc zero) h = second_key
held_two (suc (suc i)) h = absurd (omega arith)

range_two : (i : ℕ) → two_keys i < 256
range_two zero = omega arith
range_two (suc zero) = omega arith
range_two (suc (suc i)) = omega arith

ascending_two : (i j : ℕ) → i < j → j < 2 → compare (two_keys i) (two_keys j) ≢ Ordering.gt
ascending_two i zero h b = absurd (omega arith)
ascending_two zero (suc zero) h b = ground arith
ascending_two (suc i) (suc zero) h b = absurd (omega arith)
ascending_two i (suc (suc j)) h b = absurd (omega arith)

two-IsSorted : IsSorted (λ a. a < 256 ^ 1) compare (le_key 1) (accessor two) two_keys
two-IsSorted = record {
  held = λ i h. held_two i (rw pairs-two at h);
  in_range = λ i h. range_two i;
  ascending = λ i j h b. ascending_two i j h (rw pairs-two at b);
}

position-Splits_example :
    (p : ℕ × Bool) × (position (le_key 1) (accessor two) 7 ≡ some p)
    × Splits (λ i. compare (two_keys i) 7) (accessor two).num_pairs p
position-Splits_example =
    position-Splits 7 (le_key-IsKey 1) compare-IsOrder (omega arith) (omega (arith, pairs-two))
      two-IsSorted
