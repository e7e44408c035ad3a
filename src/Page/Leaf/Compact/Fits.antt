-- ===== src/Page/Leaf/Compact/Fits.antt =====
-- The records of a leaf of crates/storage/src/page/leaf.rs fit into a page with the same high key.
use native.Mathlib.Nat.{pow-suc}
use flux_db.Common.{ℕ, zero, suc, ◌+◌, ◌-◌, ◌*◌, ◌^◌, ◌<◌, ◌≤◌, ◌≡◌, refl, length, arith, collect}
use flux_db.Page.Bytes.{Page, read_le}
use flux_db.Page.FreeSpace.Scan.{IsBytes, get_or-lt}
use flux_db.Page.Header.{page_size}
use flux_db.Page.Leaf.{slot_base, high_key_len, free_end}
use flux_db.Page.Frames.{length-slice}
use flux_db.Page.Leaf.Records.{size_of, IsStorable}
use flux_db.Page.Leaf.Valid.{pairs, base_at, entry, entry_size, entries, IsLeaf}
use flux_db.Page.Leaf.Packing.{sum, sum-Separate}
use flux_db.Page.Leaf.Build.Push.{space_of, AllStorable}

pub read_le-bounded : (n : ℕ) (page : Page) (off : ℕ) → IsBytes page → read_le n page off < 256 ^ n
unfolding read_le
read_le-bounded zero page off bytes = omega arith
read_le-bounded (suc n) page off bytes =
    omega (arith, pow-suc 256 n, get_or-lt page off bytes, read_le-bounded n page (off + 1) bytes)

module _ (page : Page) (valid : IsLeaf page) (bytes : IsBytes page) where
  lens :
      (i : ℕ)
      → i < pairs page
      → (length (entry page i).key ≡ read_le 2 page (base_at page i + 0))
        × (length (entry page i).val ≡ read_le 2 page (base_at page i + 2))
  unfolding entry
  lens i h =
      let b = valid.inside i h in
      let l = valid.sized in
      (length-slice page _ _ (omega arith), length-slice page _ _ (omega arith))

  size_of-entry : (i : ℕ) → i < pairs page → size_of (entry page i) ≡ entry_size page i
  size_of-entry i h = let (k, v) = lens i h in rw (k, v) refl

  entry-IsStorable : (i : ℕ) → i < pairs page → IsStorable (entry page i)
  unfolding entry
  entry-IsStorable i h =
      let (k, v) = lens i h in
      record {
        key_small = omega (arith, k, read_le-bounded 2 page (base_at page i + 0) bytes);
        val_small = omega (arith, v, read_le-bounded 2 page (base_at page i + 2) bytes);
        xmin_small = read_le-bounded 8 page (base_at page i + 8) bytes;
        xmax_small = read_le-bounded 8 page (base_at page i + 16) bytes;
      }

  pub entries-AllStorable : (i n : ℕ) → i + n ≤ pairs page → AllStorable (collect (entry page) i n)
  entries-AllStorable i zero h = tt
  entries-AllStorable i (suc n) h =
      (entry-IsStorable i (omega arith), entries-AllStorable (suc i) n (omega arith))

  space_of-collect :
      (i n : ℕ)
      → i + n ≤ pairs page
      → space_of (collect (entry page) i n) ≡ 4 * n + sum (entry_size page) i n
  space_of-collect i zero h = omega arith
  space_of-collect i (suc n) h =
      omega (arith, size_of-entry i (omega arith), space_of-collect (suc i) n (omega arith))

  -- With their slots they take no more than the page has behind the high key.
  pub space_of-entries : space_of (entries page) ≤ page_size - slot_base (high_key_len page)
  space_of-entries =
      let s = valid.starts in
      let o = valid.has_room in
      let e = valid.ends in
      omega (
        arith,
        space_of-collect 0 (pairs page) (omega arith),
        sum-Separate (base_at page) (entry_size page) (pairs page) (free_end page)
            (page_size - free_end page) (λ i j a l b. valid.separate i j l (omega arith))
            (λ j h. (valid.above j h, omega (arith, valid.inside j h))),
      )
