-- ===== src/Page/Internal/Edits.antt =====
-- The edits of an internal page, crates/storage/src/page/internal.rs, on the children and keys that
-- the page stands for.
use flux_db.Common.{
  ℕ, zero, suc, ◌+◌, ◌^◌, ◌<◌, ◌≤◌, ◌≡◌, ◌⊎◌, inl, inr, refl, true, Option, some, List, [], ◌∷◌,
  ◌++◌, length, length-append, length-take, length-drop, collect, length-collect, take, drop, arith,
  ap, ltb, leb, Bool-cases,
}
use flux_db.Page.Bytes.{Page}
use flux_db.Page.Overflow.{Result, ok, err, insufficient_space}
use flux_db.Page.Internal.{num_keys, child_page_at, key_bytes_of, snapshot, free_bytes, can_fit}
use flux_db.Page.Internal.Mutate.{
  rewrite, insert_key_and_right_child, ChildSide, left, right, remove_key_at, truncate_to,
}
use flux_db.Page.Internal.Sections.{total, AllBelow}
use flux_db.Page.Internal.Rewrite.{IsInternal, StandsFor, CanHold, rewrite-StandsFor}

abbrev pub inserted {ℓ} : {A : Type ℓ} → ℕ → A → List A → List A
inserted i x xs = take i xs ++ x ∷ drop i xs

abbrev pub removed {ℓ} : {A : Type ℓ} → ℕ → List A → List A
removed i xs = take i xs ++ drop (suc i) xs

length-inserted {ℓ} :
    {A : Type ℓ} (i : ℕ) (x : A) (xs : List A) → length (inserted i x xs) ≡ suc (length xs)
length-inserted i x xs =
    omega (arith, length-append (take i xs) (x ∷ drop i xs), length-take i xs, length-drop i xs)

length-removed {ℓ} :
    {A : Type ℓ} (i : ℕ) (xs : List A) → i < length xs → suc (length (removed i xs)) ≡ length xs
length-removed i xs b =
    omega
      (arith, length-append (take i xs) (drop (suc i) xs), length-take i xs, length-drop (suc i) xs)

total-inserted :
    (i : ℕ) (k : List ℕ) (ks : List (List ℕ)) → total (inserted i k ks) ≡ length k + total ks
total-inserted zero k ks = refl
total-inserted (suc i) k [] = refl
total-inserted (suc i) k (x ∷ ks) = omega (arith, total-inserted i k ks)

total-removed : (i : ℕ) (ks : List (List ℕ)) → total (removed i ks) ≤ total ks
total-removed zero [] = omega arith
total-removed zero (x ∷ ks) = omega arith
total-removed (suc i) [] = omega arith
total-removed (suc i) (x ∷ ks) = omega (arith, total-removed i ks)

AllBelow-inserted :
    (bound i x : ℕ) (xs : List ℕ) → x < bound → AllBelow bound xs → AllBelow bound (inserted i x xs)
AllBelow-inserted bound zero x xs b h = (b, h)
AllBelow-inserted bound (suc i) x [] b h = (b, tt)
AllBelow-inserted bound (suc i) x (y ∷ ys) b (one, h) = (one, AllBelow-inserted bound i x ys b h)

AllBelow-removed : (bound i : ℕ) (xs : List ℕ) → AllBelow bound xs → AllBelow bound (removed i xs)
AllBelow-removed bound zero [] h = tt
AllBelow-removed bound zero (y ∷ ys) (one, h) = h
AllBelow-removed bound (suc i) [] h = tt
AllBelow-removed bound (suc i) (y ∷ ys) (one, h) = (one, AllBelow-removed bound i ys h)

AllBelow-take : (bound n : ℕ) (xs : List ℕ) → AllBelow bound xs → AllBelow bound (take n xs)
AllBelow-take bound zero xs h = tt
AllBelow-take bound (suc n) [] h = tt
AllBelow-take bound (suc n) (x ∷ xs) (one, h) = (one, AllBelow-take bound n xs h)

total-take : (n : ℕ) (ks : List (List ℕ)) → total (take n ks) ≤ total ks
total-take zero ks = omega arith
total-take (suc n) [] = omega arith
total-take (suc n) (k ∷ ks) = omega (arith, total-take n ks)

take-collect {ℓ} :
    {A : Type ℓ} (f : ℕ → A) (i m n : ℕ) → m ≤ n → collect f i m ≡ take m (collect f i n)
take-collect f i zero n b = refl
take-collect f i (suc m) zero b = absurd (omega arith)
take-collect f i (suc m) (suc n) b = ap (λ xs. f i ∷ xs) (take-collect f (suc i) m n (omega arith))

module _ (page : Page) (valid : IsInternal page) where
  abbrev children : List ℕ
  children = (snapshot page).0

  abbrev keys : List (List ℕ)
  keys = (snapshot page).1

  length-children : length children ≡ suc (num_keys page)
  length-children = length-collect (child_page_at page) 0 (suc (num_keys page))

  length-keys : length keys ≡ num_keys page
  length-keys = length-collect (key_bytes_of page (num_keys page)) 0 (num_keys page)

  -- What inserting a separator gives: the key at its index and the child behind it, or, exactly if
  -- they do not fit, the space needed and that which is free.
  pub data Inserts (index : ℕ) (key_bytes : List ℕ) (right_child : ℕ)
      : Option (Result Page) → Type 0 where
    fitted :
        (page' : Page)
        → 8 + 4 + length key_bytes ≤ free_bytes page
        → StandsFor page page'
            (inserted (index + 1) right_child children)
            (inserted index key_bytes keys)
        → Inserts index key_bytes right_child (some (ok page'))
    refused :
        free_bytes page < 8 + 4 + length key_bytes
        → Inserts index key_bytes right_child
            (some (err (insufficient_space (8 + 4 + length key_bytes) (free_bytes page))))

  -- On an internal page, at an index at most the number of its keys, insert_key_and_right_child of a
  -- child id of 64 bits does not panic: it inserts the key and behind it the child into what the page
  -- stands for, and keeps its header and its high key, or, exactly if they do not fit, fails with the
  -- space needed and the space free.
  pub insert_key_and_right_child-Inserts :
      (index : ℕ) (key_bytes : List ℕ) (right_child : ℕ)
      → index ≤ num_keys page
      → right_child < 2 ^ 64
      → Inserts index key_bytes right_child
          (insert_key_and_right_child page index key_bytes right_child)
  unfolding insert_key_and_right_child
  insert_key_and_right_child-Inserts index key_bytes right_child b small =
      let lc = length-children in
      let lk = length-keys in
      let key_in : leb index (length keys) ≡ true = ground arith in
      let child_in : leb (index + 1) (length children) ≡ true = ground arith in
      elim (Bool-cases (can_fit page (length key_bytes))) [
        | inl fit ↦
            let room : 8 + 4 + length key_bytes ≤ free_bytes page = ground arith in
            let n' = length-inserted index key_bytes keys in
            let holds : CanHold page (inserted (index + 1) right_child children)
                (inserted index key_bytes keys) =
              record {
                whole = valid.size;
                is_internal = valid.typed;
                one_more = omega (arith, length-inserted (index + 1) right_child children);
                ids =
                    AllBelow-inserted (2 ^ 64) (index + 1) right_child children small
                      valid.child_ids;
                room = omega (arith, total-inserted index key_bytes keys, valid.packed, valid.fits);
              } in
            rw (fit, insert_key_and_right_child)
              (rw (child_in, key_in)
                (fitted
                  (rewrite page (inserted (index + 1) right_child children)
                    (inserted index key_bytes keys))
                  room (rewrite-StandsFor page _ _ holds)))
        | inr e ↦ rw (e, insert_key_and_right_child) (refused (ground arith))
      ]

  -- The index of the child that goes.
  abbrev pub dropped : ℕ → ChildSide → ℕ
  dropped index left = index + 1
  dropped index right = index

  dropped_within :
      (index : ℕ) (keep : ChildSide) → index < num_keys page → dropped index keep < length children
  dropped_within index left b = omega (arith, length-children)
  dropped_within index right b = omega (arith, length-children)

  removes :
      (index : ℕ) (keep : ChildSide)
      → ltb (dropped index keep) (length children) ≡ true
      → ltb index (length keys) ≡ true
      → remove_key_at page index keep
        ≡ some (rewrite page (removed (dropped index keep) children) (removed index keys))
  unfolding remove_key_at
  removes index left c k = rw (c, k, remove_key_at) refl
  removes index right c k = rw (c, k, remove_key_at) refl

  -- At the index of a key of an internal page, remove_key_at does not panic and removes that key and,
  -- of its two children, the one that is not to be kept; the header and the high key stay.
  pub remove_key_at-removed :
      (index : ℕ) (keep : ChildSide)
      → index < num_keys page
      → (page' : Page) × (remove_key_at page index keep ≡ some page')
        × StandsFor page page' (removed (dropped index keep) children) (removed index keys)
  unfolding remove_key_at
  remove_key_at-removed index keep b =
      let lc = length-children in
      let lk = length-keys in
      let d = dropped index keep in
      let within : d < length children = dropped_within index keep (omega arith) in
      let child_in : ltb d (length children) ≡ true = ground arith in
      let key_in : ltb index (length keys) ≡ true = ground arith in
      let holds : CanHold page (removed d children) (removed index keys) = record {
        whole = valid.size;
        is_internal = valid.typed;
        one_more =
            omega
              (arith, length-removed d children within, length-removed index keys (omega arith));
        ids = AllBelow-removed (2 ^ 64) d children valid.child_ids;
        room =
            omega (
              arith,
              length-removed index keys (omega arith),
              total-removed index keys,
              valid.fits,
            );
      } in
      (
        rewrite page (removed d children) (removed index keys),
        removes index keep child_in key_in,
        rewrite-StandsFor page _ _ holds,
      )

  -- truncate_to keeps the first so many keys and, with one more, their children; the header and the
  -- high key stay, and with no fewer keys on the page so does the page.
  pub truncate_to-take :
      (num : ℕ)
      → StandsFor page (truncate_to page num) (take (suc num) children) (take num keys)
        ⊎ ((num_keys page ≤ num) × (truncate_to page num ≡ page))
  unfolding truncate_to
  truncate_to-take num = elim (Bool-cases (leb (num_keys page) num)) [
    | inl e ↦ inr (ground arith, rw (e, truncate_to) refl)
    | inr e ↦
        let fewer : num < num_keys page = ground arith in
        let lc = length-children in
        let lk = length-keys in
        let cs =
          take-collect (child_page_at page) 0 (suc num) (suc (num_keys page)) (omega arith) in
        let ks =
          take-collect (key_bytes_of page (num_keys page)) 0 num (num_keys page) (omega arith) in
        let holds : CanHold page (take (suc num) children) (take num keys) = record {
          whole = valid.size;
          is_internal = valid.typed;
          one_more = omega (arith, length-take (suc num) children, length-take num keys);
          ids = AllBelow-take (2 ^ 64) (suc num) children valid.child_ids;
          room = omega (arith, length-take num keys, total-take num keys, valid.fits);
        } in
        inl (rw (e, truncate_to) (rw (cs, ks) (rewrite-StandsFor page _ _ holds)))
  ]
