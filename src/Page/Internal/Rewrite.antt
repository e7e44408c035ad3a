-- ===== src/Page/Internal/Rewrite.antt =====
-- `rewrite` of crates/storage/src/page/internal.rs: the page stands for the children and keys that it
-- was given.
use native.Mathlib.Nat.{mod-eq_of_lt}
use mathlib.Core.Path.{ap₂, subst}
use flux_db.Common.{
  ℕ, suc, ◌+◌, ◌-◌, ◌%◌, ◌^◌, ◌<◌, ◌≤◌, ◌≡◌, ◌⊎◌, inl, inr, refl, Option, List, length, get_or,
  collect, collect-congr, arith, ◌∙◌, sym, ap, if◌then◌else◌, ◌==◌,
}
use flux_db.Page.Bytes.{
  Page, read_u8, read_u64, write_u16, length-write_le, get_or-write_le, read_le-write_le_self,
}
use flux_db.Page.Slices.{slice}
use flux_db.Page.Header.{internal, off_page_type, off_page_id, off_lsn, page_size}
use flux_db.Page.Leaf.{link_at}
use flux_db.Page.Internal.{
  int_child_offset, int_key_data_base, num_keys, rightlink, high_key_len, high_key_bytes,
  child_page_at, key_start, key_bytes_of, snapshot, off_int_num_keys, off_int_rightlink,
}
use flux_db.Page.Internal.Mutate.{write_children, write_key_ends, write_keys, rewrite}
use flux_db.Page.Internal.Sections.{
  total, AllBelow, length-write_children, get_or-write_children, length-write_key_ends,
  get_or-write_key_ends, length-write_keys, get_or-write_keys, same_field, same_slice,
  children-write_children, Ends, Ends-congr, write_key_ends-Ends, write_keys-Packed, key_start-Ends,
  keys-Packed,
}

-- An internal page: its keys are packed from the first on and leave the high key alone.
pub record IsInternal (page : Page) : Type 0 where
  pub size : length page ≡ page_size
  pub typed : read_u8 page off_page_type ≡ internal
  pub child_ids : AllBelow (2 ^ 64) (snapshot page).0
  pub packed : key_start page (num_keys page) (num_keys page) ≡ total (snapshot page).1
  pub fits :
      int_key_data_base (num_keys page) + total (snapshot page).1 + high_key_len page ≤ page_size

-- What a rewrite leaves: the header, but for the number of keys, and the high key.
pub record SameFrame (page page' : Page) : Type 0 where
  pub same_id : read_u64 page' off_page_id ≡ read_u64 page off_page_id
  pub same_lsn : read_u64 page' off_lsn ≡ read_u64 page off_lsn
  pub same_flags : read_u8 page' 1 ≡ read_u8 page 1
  pub same_rightlink : rightlink page' ≡ rightlink page
  pub same_high_key : high_key_bytes page' ≡ high_key_bytes page

-- A page that stands for children and keys, in the frame of another one.
pub record StandsFor (page page' : Page) (children : List ℕ) (keys : List (List ℕ)) : Type 0 where
  pub valid : IsInternal page'
  pub stands : snapshot page' ≡ (children, keys)
  pub frame : SameFrame page page'

-- That they can be written there.
pub record CanHold (page : Page) (children : List ℕ) (keys : List (List ℕ)) : Type 0 where
  pub whole : length page ≡ page_size
  pub is_internal : read_u8 page off_page_type ≡ internal
  pub one_more : length children ≡ suc (length keys)
  pub ids : AllBelow (2 ^ 64) children
  pub room : int_key_data_base (length keys) + total keys + high_key_len page ≤ page_size

module _ (page : Page) (children : List ℕ) (keys : List (List ℕ))
    (h : CanHold page children keys) where
  abbrev n : ℕ
  n = length keys

  abbrev counted : Page
  counted = write_u16 page off_int_num_keys (n % 2 ^ 16)

  abbrev with_children : Page
  with_children = write_children counted 0 children

  abbrev with_ends : Page
  with_ends = write_key_ends n with_children 0 0 keys

  abbrev done : Page
  done = write_keys with_ends (int_key_data_base n) keys

  length-counted : length counted ≡ page_size
  length-counted = length-write_le 2 page off_int_num_keys (n % 2 ^ 16) ∙ h.whole

  length-with_children : length with_children ≡ page_size
  length-with_children = length-write_children children counted 0 ∙ length-counted

  length-with_ends : length with_ends ≡ page_size
  length-with_ends = length-write_key_ends n keys with_children 0 0 ∙ length-with_children

  length-done : length done ≡ page_size
  length-done = length-write_keys keys with_ends (int_key_data_base n) ∙ length-with_ends

  -- The three loops write behind the header and in front of the high key.
  loops_leave :
      (j : ℕ)
      → (j < 40) ⊎ (int_key_data_base n + total keys ≤ j)
      → get_or done j 0 ≡ get_or counted j 0
  loops_leave j b =
      let more = h.one_more in
      get_or-write_keys keys with_ends (int_key_data_base n) j (omega arith)
      ∙ get_or-write_key_ends n keys with_children 0 0 j (omega arith)
      ∙ get_or-write_children children counted 0 j (omega arith)

  leaves :
      (j : ℕ)
      → (j < 2) ⊎ ((4 ≤ j) × (j < 40)) ⊎ (int_key_data_base n + total keys ≤ j)
      → get_or done j 0 ≡ get_or page j 0
  leaves j b =
      loops_leave j (omega arith)
      ∙ get_or-write_le 2 page off_int_num_keys (n % 2 ^ 16) j (omega arith)

  number : num_keys done ≡ n
  number =
      let small = h.room in
      let all : n % 2 ^ 16 ≡ n = mod-eq_of_lt (omega arith) in
      same_field 2 done counted 2 (λ j a b. loops_leave j (inl (omega arith)))
      ∙ read_le-write_le_self 2 page 2 (n % 2 ^ 16) (omega (arith, h.whole)) (omega (arith, all))
      ∙ all

  same_high_key_len : high_key_len done ≡ high_key_len page
  same_high_key_len =
      same_field 2 done page 4 (λ j a b. leaves j (inr (inl (omega arith, omega arith))))

  children_kept : collect (child_page_at done) 0 (suc n) ≡ children
  children_kept =
      let more = h.one_more in
      collect-congr (child_page_at done) (child_page_at with_children) 0 (suc n) (λ i a b.
        same_field 8 done with_children (int_child_offset i) (λ j c d.
          get_or-write_keys keys with_ends (int_key_data_base n) j (omega arith)
          ∙ get_or-write_key_ends n keys with_children 0 0 j (omega arith)))
      ∙ subst (λ k. collect (child_page_at with_children) 0 k ≡ children) more
          (children-write_children children counted 0 h.ids (omega (arith, length-counted, h.room)))

  ends : Ends done n 0 0 keys
  ends =
      let small = h.room in
      Ends-congr with_ends done n keys 0 0
        (λ j a b. get_or-write_keys keys with_ends (int_key_data_base n) j (omega arith))
        (write_key_ends-Ends n keys with_children 0 0 (omega (arith, length-with_children))
          (omega arith))

  keys_kept : collect (key_bytes_of done n) 0 n ≡ keys
  keys_kept = keys-Packed done n keys 0 0 (int_key_data_base n) (omega arith) refl ends (
      write_keys-Packed keys with_ends (int_key_data_base n)
        (omega (arith, length-with_ends, h.room)))

  done-StandsFor : StandsFor page done children keys
  unfolding rightlink high_key_bytes link_at
  done-StandsFor =
      let snap : snapshot done ≡ (children, keys) =
        rw number (ap₂ (λ c k. (c, k)) children_kept keys_kept) in
      let sum : 0 + total keys ≡ total keys = omega arith in
      let frame : SameFrame page done = record {
        same_id =
            same_field 8 done page 8 (λ j a b. leaves j (inr (inl (omega arith, omega arith))));
        same_lsn =
            same_field 8 done page 16 (λ j a b. leaves j (inr (inl (omega arith, omega arith))));
        same_flags = leaves 1 (omega arith);
        same_rightlink =
            ap (λ v. if v == 0 then Option.none else Option.some v)
              (same_field 8 done page off_int_rightlink
                (λ j a b. leaves j (inr (inl (omega arith, omega arith)))));
        same_high_key =
            ap
              (λ len.
                if len == 0 then Option.none else Option.some (slice done (page_size - len) len))
              same_high_key_len
            ∙ ap (λ q. if high_key_len page == 0 then Option.none else Option.some q)
                (same_slice (high_key_len page) done page (page_size - high_key_len page)
                  (length-done ∙ sym h.whole) (omega (arith, length-done))
                  (λ j a b. leaves j (inr (inr (omega arith)))));
      } in
      record {
        valid = record {
          size = length-done;
          typed = leaves 0 (omega arith) ∙ h.is_internal;
          child_ids = subst (λ s. AllBelow (2 ^ 64) s.0) (sym snap) h.ids;
          packed =
              ap (λ k. key_start done k k) number
              ∙ key_start-Ends done n keys 0 0 n (omega arith) refl ends
              ∙ sum
              ∙ ap (λ s. total s.1) (sym snap);
          fits = omega (arith, number, ap (λ s. total s.1) snap, same_high_key_len, h.room);
        };
        stands = snap;
        frame = frame;
      }

  -- On an internal page of the right size with room for them, rewrite of keys and of one child more, with ids of 64 bits,
  -- leaves an internal page that reads back as exactly these, under the same header and high key.
  pub rewrite-StandsFor : StandsFor page (rewrite page children keys) children keys
  unfolding rewrite
  rewrite-StandsFor = done-StandsFor
