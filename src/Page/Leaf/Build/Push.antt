-- ===== src/Page/Leaf/Build/Push.antt =====
-- `push_with_mvcc_raw` of crates/storage/src/page/leaf.rs: the insertion behind the last record.
use flux_db.Common.{
  ℕ, zero, suc, ◌+◌, ◌-◌, ◌*◌, ◌<◌, ◌≤◌, ◌≡◌, ◌⊎◌, refl, some, List, [], ◌∷◌, ◌++◌, append_assoc,
  append-nil, length, take, drop, get_or, arith, ◌∙◌, sym, ap, true, leb, length-collect,
}
use flux_db.Page.Bytes.{Page}
use flux_db.Page.Slices.{write_bytes}
use flux_db.Page.Leaf.{slot_size, slot_base, high_key_len, free_start, free_end}
use flux_db.Page.Leaf.Mutate.{LeafRecord}
use flux_db.Page.Leaf.Records.{size_of, IsStorable}
use flux_db.Page.Leaf.Valid.{pairs, entry, entries, IsLeaf}
use flux_db.Page.Leaf.Insert.{inserted, recorded, shifted, slotted, layout}
use flux_db.Page.Leaf.Insert.Refine.{inserted-Inserts}
use flux_db.Page.Leaf.Build.{Builder, push_with_mvcc_raw, push_all}

-- A builder between two pushes.
pub record IsBuilt (builder : Builder) : Type 0 where
  pub valid : IsLeaf builder.data_bytes
  pub end_known : builder.write_end ≡ free_end builder.data_bytes
  pub hkl_known : builder.hkl ≡ high_key_len builder.data_bytes

-- The space that records take, with their slots.
abbrev pub space_of : List LeafRecord → ℕ
space_of [] = 0
space_of (r ∷ rest) = slot_size + size_of r + space_of rest

abbrev pub AllStorable : List LeafRecord → Type 0
AllStorable [] = Unit {0}
AllStorable (r ∷ rest) = IsStorable r × AllStorable rest

-- What records appended to a builder make of it.
pub record Extends (builder : Builder) (rs : List LeafRecord) (builder' : Builder) : Type 0 where
  pub built : IsBuilt builder'
  pub records : entries builder'.data_bytes ≡ entries builder.data_bytes ++ rs
  pub header :
      (off : ℕ)
      → (off < 2) ⊎ (8 ≤ off)
      → off < slot_base (high_key_len builder.data_bytes)
      → get_or builder'.data_bytes off 0 ≡ get_or builder.data_bytes off 0
  pub hkl_same : builder'.hkl ≡ builder.hkl
  pub room_left :
      free_end builder'.data_bytes - free_start builder'.data_bytes + space_of rs
      ≡ free_end builder.data_bytes - free_start builder.data_bytes

take-all :
    {A : Type 0} (n : ℕ) (xs : List A) (r : A)
    → length xs ≡ n
    → take n xs ++ r ∷ drop n xs ≡ xs ++ r ∷ []
take-all zero [] r h = refl
take-all (suc n) [] r h = absurd (omega arith)
take-all zero (x ∷ xs) r h = absurd (omega arith)
take-all (suc n) (x ∷ xs) r h = ap (λ ys. x ∷ ys) (take-all n xs r (omega arith))

module _ (builder : Builder) (r : LeafRecord) (built : IsBuilt builder)
    (room : slot_size + size_of r ≤ free_end builder.data_bytes - free_start builder.data_bytes)
    (fits : IsStorable r) where
  abbrev first : Page
  first = builder.data_bytes

  push_with_mvcc_raw_fits :
      push_with_mvcc_raw builder r
      ≡ some (record builder {
        data_bytes = inserted first (pairs first) r;
        write_end = free_end first - size_of r;
      })
  unfolding push_with_mvcc_raw inserted slotted shifted recorded write_bytes
  push_with_mvcc_raw_fits =
      let valid = built.valid in
      let h = built.hkl_known in
      let e = built.end_known in
      let lay = layout first (pairs first) r valid (omega arith) room fits in
      let test : leb (slot_base builder.hkl + pairs first * 4 + slot_size + size_of r)
            builder.write_end
          ≡ true =
        ground arith in
      let none_moved : (pairs first - pairs first) * 4 ≡ 0 = omega arith in
      rw test (rw (h, e, none_moved, valid.starts) refl)

  pub push_with_mvcc_raw-Extends :
      (builder' : Builder) × (push_with_mvcc_raw builder r ≡ some builder')
      × Extends builder (r ∷ []) builder'
  push_with_mvcc_raw-Extends =
      let ins = inserted-Inserts first (pairs first) r built.valid (omega arith) room fits in
      (
        record builder {
          data_bytes = inserted first (pairs first) r;
          write_end = free_end first - size_of r;
        },
        push_with_mvcc_raw_fits,
        record {
          built = record {
            valid = ins.valid;
            end_known = omega (arith, ins.end_moved);
            hkl_known = built.hkl_known ∙ sym ins.len_kept;
          };
          records =
              ins.records
              ∙ take-all (pairs first) (entries first) r
                  (length-collect (entry first) 0 (pairs first));
          header = ins.header;
          hkl_same = refl;
          room_left = omega (arith, ins.end_moved, ins.start_moved);
        },
      )

Extends-nil : (builder : Builder) → IsBuilt builder → Extends builder [] builder
Extends-nil builder built = record {
  built = built;
  records = sym (append-nil (entries builder.data_bytes));
  header = λ off h h'. refl;
  hkl_same = refl;
  room_left = omega arith;
}

Extends-trans :
    (b₁ b₂ b₃ : Builder) (r : LeafRecord) (rest : List LeafRecord)
    → IsBuilt b₁
    → Extends b₁ (r ∷ []) b₂
    → Extends b₂ rest b₃
    → Extends b₁ (r ∷ rest) b₃
Extends-trans b₁ b₂ b₃ r rest first one more =
    let same : high_key_len b₂.data_bytes ≡ high_key_len b₁.data_bytes =
      sym one.built.hkl_known ∙ one.hkl_same ∙ first.hkl_known in
    record {
      built = more.built;
      records =
          more.records
          ∙ ap (λ xs. xs ++ rest) one.records
          ∙ append_assoc (entries b₁.data_bytes) (r ∷ []) rest;
      header = λ off h h'. more.header off h (omega arith) ∙ one.header off h h';
      hkl_same = more.hkl_same ∙ one.hkl_same;
      room_left = omega (arith, one.room_left, more.room_left);
    }

-- Records that fit into the free space of a builder, with their slots, are all pushed: no push
-- panics, and the page afterwards holds them in order behind those it held, under the same header.
pub push_all-Extends :
    (rs : List LeafRecord) (builder : Builder)
    → IsBuilt builder
    → AllStorable rs
    → space_of rs ≤ free_end builder.data_bytes - free_start builder.data_bytes
    → (builder' : Builder) × (push_all builder rs ≡ some builder') × Extends builder rs builder'
unfolding push_all
push_all-Extends [] builder built fits room = (builder, refl, Extends-nil builder built)
push_all-Extends (r ∷ rest) builder built (fit, fits) room =
    let (b₂, e, one) = push_with_mvcc_raw-Extends builder r built (omega arith) fit in
    let (b₃, e', more) = push_all-Extends rest b₂ one.built fits (omega (arith, one.room_left)) in
    (b₃, rw (e, push_all) e', Extends-trans builder b₂ b₃ r rest built one more)
