-- ===== src/Wal/Checkpoint/Roundtrip.antt =====
-- `CheckpointData::from_bytes` of crates/storage/src/wal.rs on what `log_checkpoint` writes.
use native.Mathlib.Nat.{mod-eq_of_lt}
use flux_db.Common.{
  ℕ, zero, suc, ◌+◌, ◌-◌, ◌*◌, ◌/◌, ◌%◌, ◌^◌, ◌<◌, ◌≤◌, ◌≡◌, refl, List, [], ◌∷◌, ◌++◌,
  append_assoc, append-nil, length, length-append, drop, arith, ◌∙◌, sym, ap, ltb, false,
}
use flux_db.Page.Bytes.{read_le}
use flux_db.Values.Scalars.{to_le_bytes, length-to_le_bytes}
use flux_db.Wal.Error.{ok}
use flux_db.Wal.Ring.Content.{get_or-append}
use flux_db.Wal.Reader.Laws.{read_le-to_le_bytes, drop-append}
use flux_db.Wal.Checkpoint.{
  CheckpointData, ids_bytes, checkpoint_bytes, read_ids, read_counted, read_arrays, from_bytes,
}

read_le-append :
    (n : ℕ) (xs ys : List ℕ) (off : ℕ)
    → off + n ≤ length xs
    → read_le n (xs ++ ys) off ≡ read_le n xs off
unfolding read_le
read_le-append zero xs ys off h = refl
read_le-append (suc n) xs ys off h =
    omega
      (arith, get_or-append xs ys off (omega arith), read_le-append n xs ys (off + 1) (omega arith))

field-front : (n v : ℕ) (ys : List ℕ) → v < 256 ^ n → read_le n (to_le_bytes n v ++ ys) 0 ≡ v
field-front n v ys h =
    read_le-append n (to_le_bytes n v) ys 0 (omega (arith, length-to_le_bytes n v))
    ∙ read_le-to_le_bytes n v h

field-behind : (n v : ℕ) (ys : List ℕ) → drop n (to_le_bytes n v ++ ys) ≡ ys
field-behind n v ys = drop-append n (to_le_bytes n v) ys (length-to_le_bytes n v)

length-field : (n v : ℕ) (ys : List ℕ) → length (to_le_bytes n v ++ ys) ≡ n + length ys
length-field n v ys = omega (arith, length-append (to_le_bytes n v) ys, length-to_le_bytes n v)

abbrev pub AllIds : List ℕ → Type 0
AllIds [] = Unit
AllIds (id ∷ rest) = (id < 2 ^ 64) × AllIds rest

length-ids_bytes : (ids : List ℕ) → length (ids_bytes ids) ≡ 8 * length ids
length-ids_bytes [] = refl
length-ids_bytes (id ∷ rest) =
    omega (arith, length-field 8 id (ids_bytes rest), length-ids_bytes rest)

read_ids-ids_bytes :
    (ids rest : List ℕ)
    → AllIds ids
    → read_ids (length ids) (ids_bytes ids ++ rest) ≡ ok (ids, rest)
unfolding read_ids
read_ids-ids_bytes [] rest h = refl
read_ids-ids_bytes (id ∷ ids) rest (one, h) =
    let tail = ids_bytes ids ++ rest in
    let enough : ltb (length (to_le_bytes 8 id ++ tail)) 8 ≡ false =
      ground (arith, length-field 8 id tail) in
    let split = append_assoc (to_le_bytes 8 id) (ids_bytes ids) rest in
    rw (split, read_ids)
      (rw (enough, field-behind 8 id tail)
        (rw (read_ids-ids_bytes ids rest h) (
          ap (λ v. ok (v ∷ ids, rest))
            (ap (λ q. read_le 8 q 0) split ∙ field-front 8 id tail (omega (arith, one))))))

read_counted-ids_bytes :
    (reserved : ℕ) (ids rest : List ℕ)
    → AllIds ids
    → length ids < 2 ^ 32
    → reserved ≤ length rest
    → read_counted reserved (to_le_bytes 4 (length ids % 2 ^ 32) ++ (ids_bytes ids ++ rest))
      ≡ ok (ids, rest)
unfolding read_counted
read_counted-ids_bytes reserved ids rest h few room =
    let whole : length ids % 2 ^ 32 ≡ length ids = mod-eq_of_lt few in
    let tail = ids_bytes ids ++ rest in
    let long = length-append (ids_bytes ids) rest in
    let ids_long = length-ids_bytes ids in
    let enough : ltb (length (to_le_bytes 4 (length ids) ++ tail)) 4 ≡ false =
      ground (arith, length-field 4 (length ids) tail) in
    let inside : ltb ((length tail - reserved) / 8) (length ids) ≡ false = ground arith in
    rw (whole, read_counted)
      (rw
        (
          enough,
          field-behind 4 (length ids) tail,
          field-front 4 (length ids) tail (omega (arith, few)),
        )
        (rw inside (read_ids-ids_bytes ids rest h)))

read_arrays-ids_bytes :
    (active aborted : List ℕ)
    → AllIds active
    → AllIds aborted
    → length active < 2 ^ 32
    → length aborted < 2 ^ 32
    → read_arrays (
        to_le_bytes 4 (length active % 2 ^ 32)
        ++ (ids_bytes active ++ (to_le_bytes 4 (length aborted % 2 ^ 32) ++ ids_bytes aborted)))
      ≡ ok (active, aborted)
unfolding read_arrays
read_arrays-ids_bytes active aborted h g few few' =
    let second = to_le_bytes 4 (length aborted % 2 ^ 32) ++ ids_bytes aborted in
    let room = length-field 4 (length aborted % 2 ^ 32) (ids_bytes aborted) in
    let last : read_counted 0 second ≡ ok (aborted, []) =
      ap (λ q. read_counted 0 (to_le_bytes 4 (length aborted % 2 ^ 32) ++ q))
        (sym (append-nil (ids_bytes aborted)))
      ∙ read_counted-ids_bytes 0 aborted [] g few' (omega arith) in
    rw (read_counted-ids_bytes 4 active second h few (omega arith), read_arrays) (rw last refl)

-- What a checkpoint must keep to: 64 bits for each number, 32 for the counts.
pub record CheckpointFits (c : CheckpointData) : Type 0 where
  pub redo_bound : c.redo_point < 2 ^ 64
  pub txn_bound : c.next_txn_id < 2 ^ 64
  pub horizon_bound : c.vacuum_horizon < 2 ^ 64
  pub root_bound : c.root_pid < 2 ^ 64
  pub page_bound : c.next_page_id < 2 ^ 64
  pub active_ids : AllIds c.active_txns
  pub aborted_ids : AllIds c.pinned_aborted
  pub active_count : length c.active_txns < 2 ^ 32
  pub aborted_count : length c.pinned_aborted < 2 ^ 32

abbrev arrays_bytes : CheckpointData → List ℕ
arrays_bytes c =
    to_le_bytes 4 (length c.active_txns % 2 ^ 32)
    ++ (ids_bytes c.active_txns
        ++ (to_le_bytes 4 (length c.pinned_aborted % 2 ^ 32) ++ ids_bytes c.pinned_aborted))

module _ (c : CheckpointData) (fits : CheckpointFits c) where
  abbrev from_page : List ℕ
  from_page = to_le_bytes 8 c.next_page_id ++ arrays_bytes c

  abbrev from_root : List ℕ
  from_root = to_le_bytes 8 c.root_pid ++ from_page

  abbrev from_horizon : List ℕ
  from_horizon = to_le_bytes 8 c.vacuum_horizon ++ from_root

  abbrev from_txn : List ℕ
  from_txn = to_le_bytes 8 c.next_txn_id ++ from_horizon

  long_enough : ltb (length (to_le_bytes 8 c.redo_point ++ from_txn)) 48 ≡ false
  long_enough =
      let second = to_le_bytes 4 (length c.pinned_aborted % 2 ^ 32) ++ ids_bytes c.pinned_aborted in
      ground (
        arith,
        length-field 8 c.redo_point from_txn,
        length-field 8 c.next_txn_id from_horizon,
        length-field 8 c.vacuum_horizon from_root,
        length-field 8 c.root_pid from_page,
        length-field 8 c.next_page_id (arrays_bytes c),
        length-field 4 (length c.active_txns % 2 ^ 32) (ids_bytes c.active_txns ++ second),
        length-append (ids_bytes c.active_txns) second,
        length-field 4 (length c.pinned_aborted % 2 ^ 32) (ids_bytes c.pinned_aborted),
      )

  fields_read : from_bytes (to_le_bytes 8 c.redo_point ++ from_txn) ≡ ok c
  unfolding from_bytes
  fields_read =
      rw (long_enough, from_bytes)
        (rw
          (
            field-behind 8 c.redo_point from_txn,
            field-behind 8 c.next_txn_id from_horizon,
            field-behind 8 c.vacuum_horizon from_root,
            field-behind 8 c.root_pid from_page,
            field-behind 8 c.next_page_id (arrays_bytes c),
          )
          (rw
            (read_arrays-ids_bytes c.active_txns c.pinned_aborted fits.active_ids fits.aborted_ids
              fits.active_count fits.aborted_count)
            (rw
              (
                field-behind 8 c.redo_point from_txn,
                field-behind 8 c.next_txn_id from_horizon,
                field-behind 8 c.vacuum_horizon from_root,
                field-behind 8 c.root_pid from_page,
              )
              (rw
                (
                  field-front 8 c.redo_point from_txn (omega (arith, fits.redo_bound)),
                  field-front 8 c.next_txn_id from_horizon (omega (arith, fits.txn_bound)),
                  field-front 8 c.vacuum_horizon from_root (omega (arith, fits.horizon_bound)),
                  field-front 8 c.root_pid from_page (omega (arith, fits.root_bound)),
                  field-front 8 c.next_page_id (arrays_bytes c) (omega (arith, fits.page_bound)),
                )
                refl))))

-- What log_checkpoint writes for a checkpoint whose numbers keep to 64 bits and whose counts keep to
-- 32, from_bytes reads back as that checkpoint.
pub from_bytes-checkpoint_bytes :
    (c : CheckpointData) → CheckpointFits c → from_bytes (checkpoint_bytes c) ≡ ok c
from_bytes-checkpoint_bytes c fits =
    let r = to_le_bytes 8 c.redo_point in
    let n = to_le_bytes 8 c.next_txn_id in
    let v = to_le_bytes 8 c.vacuum_horizon in
    let p = to_le_bytes 8 c.root_pid in
    let q = to_le_bytes 8 c.next_page_id in
    let k = to_le_bytes 4 (length c.active_txns % 2 ^ 32) in
    let a = ids_bytes c.active_txns in
    let m = to_le_bytes 4 (length c.pinned_aborted % 2 ^ 32) in
    let b = ids_bytes c.pinned_aborted in
    let arrays = k ++ (a ++ (m ++ b)) in
    let split : checkpoint_bytes c ≡ r ++ (n ++ (v ++ (p ++ (q ++ arrays)))) =
      append_assoc (r ++ n ++ v ++ p ++ q ++ k ++ a) m b
      ∙ append_assoc (r ++ n ++ v ++ p ++ q ++ k) a (m ++ b)
      ∙ append_assoc (r ++ n ++ v ++ p ++ q) k (a ++ (m ++ b))
      ∙ append_assoc (r ++ n ++ v ++ p) q arrays
      ∙ append_assoc (r ++ n ++ v) p (q ++ arrays)
      ∙ append_assoc (r ++ n) v (p ++ (q ++ arrays))
      ∙ append_assoc r n (v ++ (p ++ (q ++ arrays))) in
    ap from_bytes split ∙ fields_read c fits

pub checkpoint_bytes_pos : (c : CheckpointData) → 0 < length (checkpoint_bytes c)
checkpoint_bytes_pos c =
    let fields =
      to_le_bytes 8 c.redo_point
      ++ to_le_bytes 8 c.next_txn_id
      ++ to_le_bytes 8 c.vacuum_horizon
      ++ to_le_bytes 8 c.root_pid
      ++ to_le_bytes 8 c.next_page_id
      ++ to_le_bytes 4 (length c.active_txns % 2 ^ 32)
      ++ ids_bytes c.active_txns in
    let count = to_le_bytes 4 (length c.pinned_aborted % 2 ^ 32) in
    omega (
      arith,
      length-append (fields ++ count) (ids_bytes c.pinned_aborted),
      length-append fields count,
      length-to_le_bytes 4 (length c.pinned_aborted % 2 ^ 32),
    )
