-- ===== src/Wal/Reader/Blocks.antt =====
-- The blocks of a record, as next_record in crates/storage/src/wal.rs reads what append wrote.
use flux_db.Common.{
  ℕ, ◌≡◌, refl, List, [], ◌∷◌, ◌++◌, append_assoc, length, ◌∙◌, ap, append-nil, sym,
}
use flux_db.Wal.Error.{Result, ok}
use flux_db.Wal.Record.{WalRecordType, as_u8, try_from, Block, block_bytes, all_block_bytes}
use flux_db.Wal.Reader.{read_blocks}
use flux_db.Wal.Reader.Laws.{BlockFits, read_block-block_bytes}

pub try_from-as_u8 : (t : WalRecordType) → try_from (as_u8 t) ≡ ok t
unfolding try_from
try_from-as_u8 WalRecordType.insert = refl
try_from-as_u8 WalRecordType.set_x_max = refl
try_from-as_u8 WalRecordType.commit = refl
try_from-as_u8 WalRecordType.abort = refl
try_from-as_u8 WalRecordType.leaf_split = refl
try_from-as_u8 WalRecordType.internal_s_plit = refl
try_from-as_u8 WalRecordType.insert_down_link = refl
try_from-as_u8 WalRecordType.new_root = refl
try_from-as_u8 WalRecordType.page_compact = refl
try_from-as_u8 WalRecordType.mark_half_dead = refl
try_from-as_u8 WalRecordType.unlink_page = refl
try_from-as_u8 WalRecordType.checkpoint = refl
try_from-as_u8 WalRecordType.overflow_write = refl
try_from-as_u8 WalRecordType.overflow_free = refl

abbrev pub AllFit : List Block → Type 0
AllFit [] = Unit
AllFit (block ∷ rest) = BlockFits block × AllFit rest

module _ {A : Type 0} where
  pub read_blocks-all_block_bytes :
      (blocks : List Block) (hashed rest : List ℕ) (next : List Block → List ℕ → List ℕ → Result A)
      → AllFit blocks
      → read_blocks (length blocks) hashed (all_block_bytes blocks ++ rest) next
        ≡ next blocks (hashed ++ all_block_bytes blocks) rest
  unfolding read_blocks
  read_blocks-all_block_bytes [] hashed rest next fits =
      ap (λ q. next [] q rest) (sym (append-nil hashed))
  read_blocks-all_block_bytes (block ∷ blocks) hashed rest next (one, fits) =
      let bytes = block_bytes block in
      rw (append_assoc bytes (all_block_bytes blocks) rest, read_blocks)
        (read_block-block_bytes block hashed (all_block_bytes blocks ++ rest) _ one
          ∙ read_blocks-all_block_bytes blocks (hashed ++ bytes) rest _ fits
          ∙ ap (λ q. next (block ∷ blocks) q rest)
              (append_assoc hashed bytes (all_block_bytes blocks)))

  -- The same for the number of blocks as it was read, in front of what the rest comes to.
  pub blocks_front :
      (n : ℕ) (blocks : List Block) (hashed rest : List ℕ)
      (next : List Block → List ℕ → List ℕ → Result A) {r : Result A}
      → n ≡ length blocks
      → AllFit blocks
      → next blocks (hashed ++ all_block_bytes blocks) rest ≡ r
      → read_blocks n hashed (all_block_bytes blocks ++ rest) next ≡ r
  blocks_front n blocks hashed rest next few fits e =
      ap (λ k. read_blocks k hashed (all_block_bytes blocks ++ rest) next) few
      ∙ read_blocks-all_block_bytes blocks hashed rest next fits
      ∙ e
