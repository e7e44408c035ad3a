-- ===== src/Wal/Reader/Laws.antt =====
-- Reading back, by `next_record` of crates/storage/src/wal.rs, what `append` of the same file writes.
use native.Mathlib.Nat.{mod-eq_of_lt}
use flux_db.Common.{
  ℕ, zero, suc, ◌%◌, ◌^◌, ◌<◌, ◌≡◌, refl, Option, none, some, List, [], ◌∷◌, ◌++◌, append_assoc,
  length, length-append, replicate, length-replicate, take, drop, arith, ◌∙◌, ap, ltb, ◌==◌, true,
  false,
}
use flux_db.Page.Bytes.{read_le, read_le-write_le_self}
use flux_db.Values.Scalars.{to_le_bytes, length-to_le_bytes}
use flux_db.Wal.Error.{Result}
use flux_db.Wal.Record.{Block, bytes_of, block_bytes}
use flux_db.Wal.Reader.{read_exact, read_part, image_part, sized_part, read_block}

pub take-append : (n : ℕ) (xs ys : List ℕ) → length xs ≡ n → take n (xs ++ ys) ≡ xs
take-append zero [] ys h = refl
take-append (suc n) [] ys h = absurd (omega arith)
take-append zero (x ∷ xs) ys h = absurd (omega arith)
take-append (suc n) (x ∷ xs) ys h = ap (λ zs. x ∷ zs) (take-append n xs ys (omega arith))

pub drop-append : (n : ℕ) (xs ys : List ℕ) → length xs ≡ n → drop n (xs ++ ys) ≡ ys
drop-append zero [] ys h = refl
drop-append (suc n) [] ys h = absurd (omega arith)
drop-append zero (x ∷ xs) ys h = absurd (omega arith)
drop-append (suc n) (x ∷ xs) ys h = drop-append n xs ys (omega arith)

pub read_le-to_le_bytes : (n v : ℕ) → v < 256 ^ n → read_le n (to_le_bytes n v) 0 ≡ v
read_le-to_le_bytes n v h =
    read_le-write_le_self n (replicate n 0) 0 v (omega (arith, length-replicate {A = ℕ} n 0)) h

module _ {A : Type 0} where
  -- What stands in front is what is read.
  pub read_exact-append :
      (n : ℕ) (xs ys : List ℕ) (next : List ℕ → List ℕ → Result A)
      → length xs ≡ n
      → read_exact n (xs ++ ys) next ≡ next xs ys
  unfolding read_exact
  read_exact-append n xs ys next h =
      let enough : ltb (length (xs ++ ys)) n ≡ false = ground (arith, length-append xs ys) in
      rw enough (rw (take-append n xs ys h, drop-append n xs ys h) refl)

  -- The same, in front of what the rest comes to; and for a field of `n` bytes.
  pub read_front :
      (n : ℕ) (xs : List ℕ) (ys : List ℕ) (next : List ℕ → List ℕ → Result A) {r : Result A}
      → length xs ≡ n
      → next xs ys ≡ r
      → read_exact n (xs ++ ys) next ≡ r
  read_front n xs ys next h e = read_exact-append n xs ys next h ∙ e

  pub read_field :
      (n v : ℕ) (ys : List ℕ) (next : List ℕ → List ℕ → Result A) {r : Result A}
      → next (to_le_bytes n v) ys ≡ r
      → read_exact n (to_le_bytes n v ++ ys) next ≡ r
  read_field n v ys next e = read_front n (to_le_bytes n v) ys next (length-to_le_bytes n v) e

-- A page image exactly if the flag says so.
abbrev pub ImageFits : ℕ → Option (List ℕ) → Type 0
ImageFits blk_flags none = blk_flags % 2 ≡ 0
ImageFits blk_flags (some image) = (blk_flags % 2 ≡ 1) × (length image ≡ 4096)

-- At least a byte, and a length of 16 bits.
abbrev pub DataFits : Option (List ℕ) → Type 0
DataFits none = Unit
DataFits (some bytes) = (0 < length bytes) × (length bytes < 2 ^ 16)

pub record BlockFits (block : Block) : Type 0 where
  pub id_bound : block.page_id < 2 ^ 64
  pub image_fits : ImageFits block.blk_flags block.fpi
  pub data_fits : DataFits block.data_bytes

module _ {A : Type 0} where
  read_image :
      (blk_flags : ℕ) (fpi : Option (List ℕ)) (ys : List ℕ)
      (next : Option (List ℕ) → List ℕ → Result A)
      → ImageFits blk_flags fpi
      → read_part (image_part blk_flags) (bytes_of fpi ++ ys) next ≡ next fpi ys
  unfolding read_part
  read_image blk_flags none ys next h =
      let off : (blk_flags % 2 == 1) ≡ false = ground arith in rw off refl
  read_image blk_flags (some image) ys next (odd, full) =
      let on : (blk_flags % 2 == 1) ≡ true = ground arith in
      rw on (read_exact-append 4096 image ys (λ part left. next (some part) left) full)

  pub read_sized :
      (part : Option (List ℕ)) (ys : List ℕ) (next : Option (List ℕ) → List ℕ → Result A)
      → DataFits part
      → read_part
          (sized_part (read_le 2 (to_le_bytes 2 (length (bytes_of part) % 2 ^ 16)) 0))
          (bytes_of part ++ ys)
          next
        ≡ next part ys
  unfolding read_part
  read_sized none ys next h = rw (read_le-to_le_bytes 2 0 (omega arith)) refl
  read_sized (some bytes) ys next (some_bytes, short) =
      let whole : length bytes % 2 ^ 16 ≡ length bytes = mod-eq_of_lt short in
      let on : ltb 0 (length bytes) ≡ true = ground arith in
      rw whole (
        rw (read_le-to_le_bytes 2 (length bytes) (omega arith))
          (rw on (read_exact-append (length bytes) bytes ys (λ p left. next (some p) left) refl)))

  image_bytes :
      (blk_flags : ℕ) (fpi : Option (List ℕ)) (ys : List ℕ)
      (next : Option (List ℕ) → List ℕ → Result A) {r : Result A}
      → ImageFits blk_flags fpi
      → next fpi ys ≡ r
      → read_part (image_part blk_flags) (bytes_of fpi ++ ys) next ≡ r
  image_bytes blk_flags fpi ys next h e = read_image blk_flags fpi ys next h ∙ e

  pub sized_bytes :
      (part : Option (List ℕ)) (ys : List ℕ) (next : Option (List ℕ) → List ℕ → Result A)
      {r : Result A}
      → DataFits part
      → next part ys ≡ r
      → read_part
          (sized_part (read_le 2 (to_le_bytes 2 (length (bytes_of part) % 2 ^ 16)) 0))
          (bytes_of part ++ ys)
          next
        ≡ r
  sized_bytes part ys next h e = read_sized part ys next h ∙ e

  pub read_block-block_bytes :
      (block : Block) (hashed rest : List ℕ) (next : Block → List ℕ → List ℕ → Result A)
      → BlockFits block
      → read_block hashed (block_bytes block ++ rest) next
        ≡ next block (hashed ++ block_bytes block) rest
  unfolding read_block
  read_block-block_bytes block hashed rest next fits =
      let id = to_le_bytes 8 block.page_id in
      let flags = block.blk_flags ∷ [] in
      let len = to_le_bytes 2 (length (bytes_of block.data_bytes) % 2 ^ 16) in
      let image = bytes_of block.fpi in
      let data_bytes = bytes_of block.data_bytes in
      let split : block_bytes block ++ rest
          ≡ id ++ (flags ++ (len ++ (image ++ (data_bytes ++ rest)))) =
        append_assoc (id ++ flags ++ len ++ image) data_bytes rest
        ∙ append_assoc (id ++ flags ++ len) image (data_bytes ++ rest)
        ∙ append_assoc (id ++ flags) len (image ++ (data_bytes ++ rest))
        ∙ append_assoc id flags (len ++ (image ++ (data_bytes ++ rest))) in
      rw (split, read_block)
        (read_field 8 block.page_id _ _ (
          read_front 1 flags _ _ refl (
            read_field 2 (length (bytes_of block.data_bytes) % 2 ^ 16) _ _ (
              image_bytes block.blk_flags block.fpi _ _ fits.image_fits (
                sized_bytes block.data_bytes _ _ fits.data_fits (
                  ap (λ n. next (record block { page_id = n }) (hashed ++ block_bytes block) rest)
                    (read_le-to_le_bytes 8 block.page_id (omega (arith, fits.id_bound)))))))))
