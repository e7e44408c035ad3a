-- ===== src/Wal/Reader/Roundtrip.antt =====
-- `next_record` of crates/storage/src/wal.rs gives back what `append` of the same file wrote.
use native.Mathlib.Nat.{mod-eq_of_lt}
use flux_db.Common.{
  ℕ, ◌%◌, ◌^◌, ◌<◌, ◌≡◌, refl, Option, some, List, [], ◌∷◌, ◌++◌, append_assoc, length,
  length-append, arith, ◌∙◌, ap, ◌==◌, true, sym,
}
use flux_db.Page.Bytes.{read_le}
use flux_db.Values.Scalars.{to_le_bytes}
use flux_db.Wal.Error.{Result, ok}
use flux_db.Wal.Record.{
  WalRecordType, as_u8, Block, bytes_of, all_block_bytes, record_size, body, stamped,
  length-stamped,
}
use flux_db.Wal.Reader.{WalRecord, read_checked, read_typed, read_record, next_record}
use flux_db.Wal.Reader.Laws.{DataFits, read_front, read_field, sized_bytes, read_le-to_le_bytes}
use flux_db.Wal.Reader.Blocks.{try_from-as_u8, AllFit, blocks_front}

-- What a record must keep to: its fields within their widths, each block with a page image exactly if
-- its flags say so, and no part that is there and empty.
pub record RecordFits (lsn txn_id : ℕ) (blocks : List Block) (main_data : Option (List ℕ))
    : Type 0 where
  pub lsn_bound : lsn < 2 ^ 64
  pub txn_bound : txn_id < 2 ^ 64
  pub size_bound : record_size blocks main_data < 2 ^ 32
  pub block_count : length blocks < 2 ^ 8
  pub blocks_fit : AllFit blocks
  pub main_fits : DataFits main_data

module _ (crc32 : List ℕ → ℕ) (crc32_bound : (bytes : List ℕ) → crc32 bytes < 2 ^ 32) where
  read_checked-checksum :
      (rec : WalRecord) (hashed numbered rest : List ℕ)
      → hashed ≡ numbered
      → read_checked crc32 rec hashed (to_le_bytes 4 (crc32 numbered) ++ rest) ≡ ok (rec, rest)
  unfolding read_checked
  read_checked-checksum rec hashed numbered rest same =
      let bound = crc32_bound numbered in
      let written = read_le-to_le_bytes 4 (crc32 numbered) (omega arith) in
      let equal : (crc32 hashed == read_le 4 (to_le_bytes 4 (crc32 numbered)) 0) ≡ true =
        ground (arith, written, ap crc32 same) in
      read_field 4 (crc32 numbered) _ _ (rw equal refl)

  module _ (lsn txn_id : ℕ) (blocks : List Block) (main_data : Option (List ℕ)) (rest : List ℕ)
      (fits : RecordFits lsn txn_id blocks main_data) where
    read_typed-parts :
        (lsn_buf rec_len_buf type_buf numbered : List ℕ) (entry_type : WalRecordType)
        → numbered
          ≡ lsn_buf
            ++ (rec_len_buf
                ++ type_buf
                ++ (length blocks % 2 ^ 8) ∷ []
                ++ to_le_bytes 8 txn_id
                ++ to_le_bytes 2 (length (bytes_of main_data) % 2 ^ 16))
            ++ all_block_bytes blocks
            ++ bytes_of main_data
        → read_typed crc32 lsn_buf rec_len_buf type_buf entry_type (
            (length blocks % 2 ^ 8) ∷ []
            ++ (to_le_bytes 8 txn_id
                ++ (to_le_bytes 2 (length (bytes_of main_data) % 2 ^ 16)
                    ++ (all_block_bytes blocks
                        ++ (bytes_of main_data ++ (to_le_bytes 4 (crc32 numbered) ++ rest))))))
          ≡ ok (
            record {
              lsn = read_le 8 lsn_buf 0;
              rec_len = read_le 4 rec_len_buf 0;
              entry_type = entry_type;
              txn_id = txn_id;
              blocks = blocks;
              main_data = main_data;
            },
            rest,
          )
    unfolding read_typed
    read_typed-parts lsn_buf rec_len_buf type_buf numbered entry_type same =
        let few : length blocks % 2 ^ 8 ≡ length blocks = mod-eq_of_lt fits.block_count in
        let txn = read_le-to_le_bytes 8 txn_id (omega (arith, fits.txn_bound)) in
        let with_txn : ℕ → WalRecord = λ n. record {
          lsn = read_le 8 lsn_buf 0;
          rec_len = read_le 4 rec_len_buf 0;
          entry_type = entry_type;
          txn_id = n;
          blocks = blocks;
          main_data = main_data;
        } in
        read_front 1 ((length blocks % 2 ^ 8) ∷ []) _ _ refl (
          read_field 8 txn_id _ _ (
            read_field 2 (length (bytes_of main_data) % 2 ^ 16) _ _ (
              blocks_front (length blocks % 2 ^ 8) blocks _ _ _ few fits.blocks_fit (
                sized_bytes main_data _ _ fits.main_fits (
                  read_checked-checksum (with_txn (read_le 8 (to_le_bytes 8 txn_id) 0)) _ numbered
                    rest (sym same)
                  ∙ ap (λ n. ok (with_txn n, rest)) txn)))))

    abbrev size : ℕ
    size = record_size blocks main_data % 2 ^ 32

    -- The parts of a record one after the other.
    abbrev parts : WalRecordType → List ℕ
    parts entry_type =
        to_le_bytes 4 size
        ++ as_u8 entry_type ∷ []
        ++ (length blocks % 2 ^ 8) ∷ []
        ++ to_le_bytes 8 txn_id
        ++ to_le_bytes 2 (length (bytes_of main_data) % 2 ^ 16)

    split :
        (entry_type : WalRecordType) (tail : List ℕ)
        → body entry_type txn_id blocks main_data ++ tail
          ≡ to_le_bytes 4 size
            ++ (as_u8 entry_type ∷ []
                ++ ((length blocks % 2 ^ 8) ∷ []
                    ++ (to_le_bytes 8 txn_id
                        ++ (to_le_bytes 2 (length (bytes_of main_data) % 2 ^ 16)
                            ++ (all_block_bytes blocks ++ (bytes_of main_data ++ tail))))))
    split entry_type tail =
        let a = to_le_bytes 4 size in
        let b = as_u8 entry_type ∷ [] in
        let c = (length blocks % 2 ^ 8) ∷ [] in
        let d = to_le_bytes 8 txn_id in
        let e = to_le_bytes 2 (length (bytes_of main_data) % 2 ^ 16) in
        let f = all_block_bytes blocks in
        let g = bytes_of main_data ++ tail in
        append_assoc (a ++ b ++ c ++ d ++ e ++ f) (bytes_of main_data) tail
        ∙ append_assoc (a ++ b ++ c ++ d ++ e) f g
        ∙ append_assoc (a ++ b ++ c ++ d) e (f ++ g)
        ∙ append_assoc (a ++ b ++ c) d (e ++ (f ++ g))
        ∙ append_assoc (a ++ b) c (d ++ (e ++ (f ++ g)))
        ∙ append_assoc a b (c ++ (d ++ (e ++ (f ++ g))))

    abbrev pub written : WalRecordType → WalRecord
    written entry_type = record {
      lsn = lsn;
      rec_len = record_size blocks main_data;
      entry_type = entry_type;
      txn_id = txn_id;
      blocks = blocks;
      main_data = main_data;
    }

    read_record-stamped :
        (entry_type : WalRecordType)
        → read_record crc32 (stamped crc32 lsn (body entry_type txn_id blocks main_data) ++ rest)
          ≡ ok (written entry_type, rest)
    unfolding read_record stamped
    read_record-stamped entry_type =
        let bytes = body entry_type txn_id blocks main_data in
        let lsn_buf = to_le_bytes 8 lsn in
        let checksum = to_le_bytes 4 (crc32 (lsn_buf ++ bytes)) in
        let whole : lsn_buf ++ bytes ++ checksum ++ rest
            ≡ lsn_buf
              ++ (to_le_bytes 4 size
                  ++ (as_u8 entry_type ∷ []
                      ++ ((length blocks % 2 ^ 8) ∷ []
                          ++ (to_le_bytes 8 txn_id
                              ++ (to_le_bytes 2 (length (bytes_of main_data) % 2 ^ 16)
                                  ++ (all_block_bytes blocks
                                      ++ (bytes_of main_data ++ (checksum ++ rest)))))))) =
          append_assoc (lsn_buf ++ bytes) checksum rest
          ∙ append_assoc lsn_buf bytes (checksum ++ rest)
          ∙ ap (λ q. lsn_buf ++ q) (split entry_type (checksum ++ rest)) in
        let hashed =
          sym
            (append_assoc lsn_buf (parts entry_type ++ all_block_bytes blocks) (bytes_of main_data))
          ∙ ap (λ q. q ++ bytes_of main_data)
              (sym (append_assoc lsn_buf (parts entry_type) (all_block_bytes blocks))) in
        let full : size ≡ record_size blocks main_data = mod-eq_of_lt fits.size_bound in
        let with_fields : ℕ → ℕ → Result (WalRecord × List ℕ) =
          λ n l. ok ((record (written entry_type) { lsn = n; rec_len = l }), rest) in
        ap (λ q. read_record crc32 q) whole
        ∙ read_field 8 lsn _ _ (
            read_field 4 size _ _ (
              read_front 1 (as_u8 entry_type ∷ []) _ _ refl (
                rw (try_from-as_u8 entry_type) (
                  read_typed-parts lsn_buf (to_le_bytes 4 size) (as_u8 entry_type ∷ [])
                    (lsn_buf ++ bytes) entry_type hashed
                  ∙ ap (λ n. with_fields n (read_le 4 (to_le_bytes 4 size) 0))
                      (read_le-to_le_bytes 8 lsn (omega (arith, fits.lsn_bound)))
                  ∙ ap (λ l. with_fields lsn l)
                      (read_le-to_le_bytes 4 size (omega (arith, full, fits.size_bound)) ∙ full)))))

    starts_full :
        (bytes : List ℕ)
        → 0 < length bytes
        → next_record crc32 bytes ≡ some (read_record crc32 bytes)
    unfolding next_record
    starts_full [] h = absurd (omega arith)
    starts_full (b ∷ bytes) h = refl

    -- Of the bytes that append writes for a record that keeps to its widths, whose blocks' flags say
    -- whether there is an image, and of which no part is there and empty, whatever follows them,
    -- next_record gives back that record, with its length, its type, its blocks and its main data,
    -- and leaves what follows.
    pub next_record-stamped :
        (entry_type : WalRecordType)
        → next_record crc32 (stamped crc32 lsn (body entry_type txn_id blocks main_data) ++ rest)
          ≡ some (ok (written entry_type, rest))
    next_record-stamped entry_type =
        let bytes = body entry_type txn_id blocks main_data in
        let record_bytes = stamped crc32 lsn bytes in
        let some_bytes : 0 < length (record_bytes ++ rest) =
          omega (arith, length-append record_bytes rest, length-stamped crc32 lsn bytes) in
        starts_full (record_bytes ++ rest) some_bytes ∙ ap some (read_record-stamped entry_type)
