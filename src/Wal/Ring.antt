-- ===== src/Wal/Ring.antt =====
-- `WalBuffer` of crates/storage/src/wal.rs, the bounded circular buffer of serialized records.
pub mod Content
pub mod CopyOut
pub mod Queue
pub mod Drain
pub mod Refine
use Prim.Native.Nat.{min}
use flux_db.Common.{
  ℕ, zero, suc, ◌+◌, ◌-◌, ◌%◌, Bool, true, false, Option, none, some, List, [], ◌∷◌, ◌++◌, length,
  take, drop, replicate, ltb, ◌==◌, if◌then◌else◌,
}
use flux_db.Page.Slices.{slice, write_bytes}
use flux_db.Wal.Error.{Result, ok, err, record_too_large, buffer_full}

pub record BufferedRecord : Type 0 where
  pub lsn : ℕ
  pub len : ℕ

pub record WalBuffer : Type 0 where
  pub bytes : List ℕ
  pub read_pos : ℕ
  pub write_pos : ℕ
  pub records : List BufferedRecord

abbrev pub with_capacity : ℕ → WalBuffer
with_capacity n = record { bytes = replicate n 0; read_pos = 0; write_pos = 0; records = [] }

abbrev pub is_empty : List BufferedRecord → Bool
is_empty [] = true
is_empty (r ∷ rest) = false

-- The last record of the queue.
abbrev pub last_lsn : List BufferedRecord → Option ℕ
last_lsn [] = none
last_lsn (r ∷ rest) = elim (last_lsn rest) [ none ↦ some r.lsn | some l ↦ some l ]

abbrev pub total_len : List BufferedRecord → ℕ
total_len [] = 0
total_len (r ∷ rest) = r.len + total_len rest

abbrev pub capacity : WalBuffer → ℕ
capacity buf = length buf.bytes

unfoldable pub used_space : WalBuffer → ℕ
used_space buf =
    if is_empty buf.records
    then 0
    else if buf.write_pos == buf.read_pos
    then capacity buf
    else if ltb buf.read_pos buf.write_pos
    then buf.write_pos - buf.read_pos
    else (capacity buf - buf.read_pos) + buf.write_pos

unfoldable pub free_space : WalBuffer → ℕ
unfolding used_space
free_space buf = capacity buf - used_space buf

-- A second part of no bytes is written as nothing.
unfoldable pub copy_into_ring : WalBuffer → List ℕ → WalBuffer
copy_into_ring buf rec =
    let first = min (length rec) (capacity buf - buf.write_pos) in
    let head_written = write_bytes buf.bytes buf.write_pos (take first rec) in
    record buf {
      bytes = write_bytes head_written 0 (drop first rec);
      write_pos = (buf.write_pos + length rec) % capacity buf;
    }

unfoldable pub push_record : WalBuffer → ℕ → List ℕ → Result WalBuffer
unfolding free_space copy_into_ring
push_record buf lsn rec =
    if ltb (capacity buf) (length rec)
    then err (record_too_large lsn (length rec) (capacity buf))
    else if ltb (free_space buf) (length rec)
    then err (buffer_full (length rec) (free_space buf))
    else (let copied = copy_into_ring buf rec in
        ok (record copied {
          records = buf.records ++ (record { lsn = lsn; len = length rec }) ∷ [];
        }))

unfoldable pub buffered_prefix_len : WalBuffer → Option (ℕ × ℕ)
buffered_prefix_len buf = elim (last_lsn buf.records) [
  | none ↦ none
  | some lsn ↦ some (total_len buf.records, lsn)
]

-- The loop that copies one record out, and the cursor after it. Every round takes a byte at least:
-- the rounds are bounded by the bytes.
unfoldable pub copy_out : List ℕ → ℕ → ℕ → ℕ → Option (List ℕ × ℕ)
copy_out bytes zero bytes_left cursor = if bytes_left == 0 then some ([], cursor) else none
copy_out bytes (suc rounds) bytes_left cursor = elim (bytes_left == 0) [
  | true ↦ some ([], cursor)
  | false ↦
      let chunk = min bytes_left (length bytes - cursor) in
      elim (copy_out bytes rounds (bytes_left - chunk) ((cursor + chunk) % length bytes)) [
        | none ↦ none
        | some (rest, cursor') ↦ some (slice bytes cursor chunk ++ rest, cursor')
      ]
]

unfoldable pub copy_from : List ℕ → ℕ → List BufferedRecord → Option (List (ℕ × List ℕ))
unfolding copy_out
copy_from bytes cursor [] = some []
copy_from bytes cursor (r ∷ rest) = elim (copy_out bytes r.len r.len cursor) [
  | none ↦ none
  | some (one, cursor') ↦ elim (copy_from bytes cursor' rest) [
    | none ↦ none
    | some more ↦ some ((r.lsn, one) ∷ more)
  ]
]

unfoldable pub copy_records : WalBuffer → Option (List (ℕ × List ℕ))
unfolding copy_from
copy_records buf = copy_from buf.bytes buf.read_pos buf.records

-- The loop that pops records; no record left, or one that reaches past the prefix, is a panic.
unfoldable pub pop_prefix : ℕ → List BufferedRecord → Option (List BufferedRecord)
pop_prefix remaining [] = if remaining == 0 then some [] else none
pop_prefix remaining (r ∷ rest) =
    let more = pop_prefix (remaining - r.len) rest in
    if remaining == 0 then some (r ∷ rest) else if ltb remaining r.len then none else more

unfoldable pub consume_prefix : WalBuffer → ℕ → Option WalBuffer
unfolding pop_prefix
consume_prefix buf bytes_to_consume = elim (pop_prefix bytes_to_consume buf.records) [
  | none ↦ none
  | some rest ↦
      if is_empty rest
      then some (record buf { read_pos = 0; write_pos = 0; records = rest })
      else some (record buf {
        read_pos = (buf.read_pos + bytes_to_consume) % capacity buf;
        records = rest;
      })
]
