-- ===== src/Page/Leaf/Build/Start.antt =====
-- The builder of crates/storage/src/page/leaf.rs before its first push: `new`, `set_high_key`,
-- `set_rightlink` and `set_prev_page`.
use flux_db.Common.{
  ℕ, zero, suc, ◌+◌, ◌%◌, ◌^◌, ◌<◌, ◌≤◌, ◌≡◌, inl, inr, refl, List, [], length, replicate, get_or,
  arith, ◌∙◌, length-set, length-replicate, get_or-set_self,
}
use flux_db.Page.Bytes.{
  Page, Apart, read_le, read_u8, read_u64, write_u8, write_u16, write_u64, length-write_le,
  get_or-write_le, read_le-write_le_self, read_le-write_le_ne, read_le-set_ne,
}
use flux_db.Page.Slices.{
  slice, write_bytes, fill_zero, length-write_bytes, get_or-write_bytes, read_le-write_bytes_ne,
  slice-write_bytes_self,
}
use flux_db.Page.Header.{leaf, page_size}
use flux_db.Page.Leaf.{slot_base, high_key_len, free_start, free_end}
use flux_db.Page.Leaf.Mutate.{set_high_key}
use flux_db.Page.Frames.{slice-SameBytes}
use flux_db.Page.Leaf.Valid.{pairs, entries, IsLeaf}
use flux_db.Page.Leaf.Build.{Builder, new_leaf, builder_set_high_key}

-- A leaf without records.
pub record Blank (page : Page) (id hkl : ℕ) : Type 0 where
  pub sized : length page ≡ page_size
  pub typed : read_u8 page 0 ≡ leaf
  pub no_pairs : pairs page ≡ 0
  pub starts : free_start page ≡ slot_base hkl
  pub ends : free_end page ≡ page_size
  pub hkl_read : high_key_len page ≡ hkl
  pub id_read : read_u64 page 8 ≡ id

pub Blank-IsLeaf :
    {page : Page} {id hkl : ℕ} → Blank page id hkl → slot_base hkl ≤ page_size → IsLeaf page
Blank-IsLeaf blank b =
    let n = blank.no_pairs in
    let s = blank.starts in
    let e = blank.ends in
    let h = blank.hkl_read in
    record {
      sized = blank.sized;
      typed = blank.typed;
      starts = rw (h, n) (omega arith);
      has_room = omega arith;
      ends = omega arith;
      above = λ i l. absurd (omega arith);
      inside = λ i l. absurd (omega arith);
      measured = λ i l. absurd (omega arith);
      separate = λ i j l m. absurd (omega arith);
    }

pub Blank-entries : {page : Page} {id hkl : ℕ} → Blank page id hkl → entries page ≡ []
Blank-entries blank = rw blank.no_pairs refl

get_or-replicate : (n j : ℕ) → get_or {A = ℕ} (replicate n 0) j 0 ≡ 0
get_or-replicate zero j = refl
get_or-replicate (suc n) zero = refl
get_or-replicate (suc n) (suc j) = get_or-replicate n j

read_le-replicate : (n m off : ℕ) → read_le n (replicate m 0) off ≡ 0
unfolding read_le
read_le-replicate zero m off = refl
read_le-replicate (suc n) m off =
    omega (arith, get_or-replicate m off, read_le-replicate n m (off + 1))

module _ (id : ℕ) (page : Page) (sized : length page ≡ page_size) (small : id < 2 ^ 64) where
  abbrev typed_page : Page
  typed_page = write_u8 (fill_zero page) 0 leaf

  abbrev named_page : Page
  named_page = write_u64 typed_page 8 id

  abbrev started_page : Page
  started_page = write_u16 named_page 4 (slot_base 0 % 2 ^ 16)

  typed_length : length typed_page ≡ page_size
  typed_length =
      length-set (fill_zero page) 0 leaf ∙ length-replicate {A = ℕ} (length page) 0 ∙ sized

  named_length : length named_page ≡ page_size
  named_length = length-write_le 8 typed_page 8 id ∙ typed_length

  started_length : length started_page ≡ page_size
  started_length = length-write_le 2 named_page 4 (slot_base 0 % 2 ^ 16) ∙ named_length

  -- The fields that no stage writes are zero.
  untouched :
      (n off : ℕ)
      → Apart off n 6 2
      → Apart off n 4 2
      → Apart off n 8 8
      → Apart off n 0 1
      → read_le n (new_leaf id page).data_bytes off ≡ 0
  unfolding new_leaf
  untouched n off a b c d =
      read_le-write_le_ne n 2 started_page off 6 (page_size % 2 ^ 16) a
      ∙ read_le-write_le_ne n 2 named_page off 4 (slot_base 0 % 2 ^ 16) b
      ∙ read_le-write_le_ne n 8 typed_page off 8 id c
      ∙ read_le-set_ne n (fill_zero page) off 0 leaf d
      ∙ read_le-replicate n (length page) off

  pub new_leaf-Blank : Blank (new_leaf id page).data_bytes id 0
  unfolding new_leaf
  new_leaf-Blank = record {
    sized = length-write_le 2 started_page 6 (page_size % 2 ^ 16) ∙ started_length;
    typed =
        get_or-write_le 2 started_page 6 (page_size % 2 ^ 16) 0 (inl (omega arith))
        ∙ get_or-write_le 2 named_page 4 (slot_base 0 % 2 ^ 16) 0 (inl (omega arith))
        ∙ get_or-write_le 8 typed_page 8 id 0 (inl (omega arith))
        ∙ get_or-set_self (fill_zero page) 0 leaf 0
            (omega (arith, length-replicate {A = ℕ} (length page) 0, sized));
    no_pairs = untouched 2 2 (omega arith) (omega arith) (omega arith) (omega arith);
    starts =
        read_le-write_le_ne 2 2 started_page 4 6 (page_size % 2 ^ 16) (omega arith)
        ∙ read_le-write_le_self 2 named_page 4 (slot_base 0 % 2 ^ 16) (omega (arith, named_length))
            (omega arith);
    ends =
        read_le-write_le_self 2 started_page 6 (page_size % 2 ^ 16) (omega (arith, started_length))
          (omega arith);
    hkl_read = untouched 2 40 (omega arith) (omega arith) (omega arith) (omega arith);
    id_read =
        read_le-write_le_ne 8 2 started_page 8 6 (page_size % 2 ^ 16) (omega arith)
        ∙ read_le-write_le_ne 8 2 named_page 8 4 (slot_base 0 % 2 ^ 16) (omega arith)
        ∙ read_le-write_le_self 8 typed_page 8 id (omega (arith, typed_length)) small;
  }

-- The high key, written to a leaf without records.
module _ (builder : Builder) (id : ℕ) (hk : List ℕ) (blank : Blank builder.data_bytes id 0)
    (fits : slot_base (length hk) ≤ page_size) where
  abbrev first : Page
  first = builder.data_bytes

  abbrev len : ℕ
  len = length hk

  abbrev measured_page : Page
  measured_page = write_u16 first 40 (len % 2 ^ 16)

  abbrev keyed_page : Page
  keyed_page = write_bytes measured_page 48 hk

  measured_length : length measured_page ≡ page_size
  measured_length = length-write_le 2 first 40 (len % 2 ^ 16) ∙ blank.sized

  keyed_length : length keyed_page ≡ page_size
  keyed_length = length-write_bytes hk measured_page 48 ∙ measured_length

  front_read :
      (n off : ℕ)
      → off + n ≤ 40
      → Apart off n 4 2
      → read_le n (builder_set_high_key builder hk).data_bytes off ≡ read_le n first off
  unfolding builder_set_high_key set_high_key
  front_read n off b a =
      read_le-write_le_ne n 2 keyed_page off 4 (slot_base len % 2 ^ 16) a
      ∙ read_le-write_bytes_ne n hk measured_page off 48 (inl (omega arith))
      ∙ read_le-write_le_ne n 2 first off 40 (len % 2 ^ 16) (inl b)

  pub set_high_key-Blank : Blank (builder_set_high_key builder hk).data_bytes id len
  unfolding builder_set_high_key set_high_key
  set_high_key-Blank =
      let l = blank.sized in
      record {
        sized = length-write_le 2 keyed_page 4 (slot_base len % 2 ^ 16) ∙ keyed_length;
        typed =
            get_or-write_le 2 keyed_page 4 (slot_base len % 2 ^ 16) 0 (inl (omega arith))
            ∙ get_or-write_bytes hk measured_page 48 0 (inl (omega arith))
            ∙ get_or-write_le 2 first 40 (len % 2 ^ 16) 0 (inl (omega arith))
            ∙ blank.typed;
        no_pairs = front_read 2 2 (omega arith) (omega arith) ∙ blank.no_pairs;
        starts = omega (
          arith,
          read_le-write_le_self 2 keyed_page 4 (slot_base len % 2 ^ 16)
              (omega (arith, keyed_length)) (omega arith),
        );
        ends = front_read 2 6 (omega arith) (omega arith) ∙ blank.ends;
        hkl_read = omega (
          arith,
          read_le-write_le_ne 2 2 keyed_page 40 4 (slot_base len % 2 ^ 16) (omega arith),
          read_le-write_bytes_ne 2 hk measured_page 40 48 (inl (omega arith)),
          read_le-write_le_self 2 first 40 (len % 2 ^ 16) (omega arith) (omega arith),
        );
        id_read = front_read 8 8 (omega arith) (omega arith) ∙ blank.id_read;
      }

  pub slice-set_high_key : slice (builder_set_high_key builder hk).data_bytes 48 len ≡ hk
  unfolding builder_set_high_key set_high_key
  slice-set_high_key =
      slice-SameBytes len (set_high_key first hk) keyed_page 48 48
        (omega (arith, length-write_le 2 keyed_page 4 (slot_base len % 2 ^ 16), keyed_length))
        (omega (arith, keyed_length))
        (record {
          agree = λ k c.
              get_or-write_le 2 keyed_page 4 (slot_base len % 2 ^ 16) (48 + k) (inr (omega arith));
        })
      ∙ slice-write_bytes_self hk measured_page 48 (omega (arith, measured_length))

-- A link, written to a leaf without records.
module _ (page : Page) (off v id hkl : ℕ) (blank : Blank page id hkl) (a : 24 ≤ off)
    (b : off ≤ 32) where
  pub write_u64-Blank : Blank (write_u64 page off v) id hkl
  write_u64-Blank = record {
    sized = length-write_le 8 page off v ∙ blank.sized;
    typed = get_or-write_le 8 page off v 0 (inl (omega arith)) ∙ blank.typed;
    no_pairs = read_le-write_le_ne 2 8 page 2 off v (inl (omega arith)) ∙ blank.no_pairs;
    starts = read_le-write_le_ne 2 8 page 4 off v (inl (omega arith)) ∙ blank.starts;
    ends = read_le-write_le_ne 2 8 page 6 off v (inl (omega arith)) ∙ blank.ends;
    hkl_read = read_le-write_le_ne 2 8 page 40 off v (inr (omega arith)) ∙ blank.hkl_read;
    id_read = read_le-write_le_ne 8 8 page 8 off v (inl (omega arith)) ∙ blank.id_read;
  }
