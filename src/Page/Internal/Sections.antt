-- ===== src/Page/Internal/Sections.antt =====
-- What the three loops of `rewrite` in crates/storage/src/page/internal.rs leave and what they store.
use native.Mathlib.Nat.{mod-eq_of_lt}
use mathlib.Core.Path.{ap₂}
use flux_db.Common.{
  ℕ, suc, ◌+◌, ◌-◌, ◌%◌, ◌^◌, ◌<◌, ◌≤◌, ◌≡◌, ◌⊎◌, refl, List, [], ◌∷◌, length, get_or, collect,
  arith, ◌∙◌,
}
use flux_db.Page.Bytes.{
  Page, read_le, read_u32, write_u32, write_u64, length-write_le, get_or-write_le,
  read_le-write_le_self,
}
use flux_db.Page.Slices.{
  slice, write_bytes, length-write_bytes, get_or-write_bytes, slice-write_bytes_self,
}
use flux_db.Page.Frames.{slice-SameBytes, read_le-SameBytes}
use flux_db.Page.Internal.{
  int_child_offset, int_key_end_offset, int_key_data_base, child_page_at, key_start, key_bytes_of,
}
use flux_db.Page.Internal.Mutate.{write_children, write_key_ends, write_keys}

-- The bytes of keys, one after the other.
abbrev pub total : List (List ℕ) → ℕ
total [] = 0
total (key ∷ rest) = length key + total rest

-- All below a bound.
abbrev pub AllBelow : ℕ → List ℕ → Type 0
AllBelow bound [] = Unit
AllBelow bound (x ∷ xs) = (x < bound) × AllBelow bound xs

pub length-write_children :
    (cs : List ℕ) (page : Page) (i : ℕ) → length (write_children page i cs) ≡ length page
unfolding write_children
length-write_children [] page i = refl
length-write_children (c ∷ cs) page i =
    length-write_children cs (write_u64 page (int_child_offset i) c) (suc i)
    ∙ length-write_le 8 page (int_child_offset i) c

pub get_or-write_children :
    (cs : List ℕ) (page : Page) (i j : ℕ)
    → (j < int_child_offset i) ⊎ (int_child_offset (i + length cs) ≤ j)
    → get_or (write_children page i cs) j 0 ≡ get_or page j 0
unfolding write_children
get_or-write_children [] page i j h = refl
get_or-write_children (c ∷ cs) page i j h =
    get_or-write_children cs (write_u64 page (int_child_offset i) c) (suc i) j (omega arith)
    ∙ get_or-write_le 8 page (int_child_offset i) c j (omega arith)

pub length-write_key_ends :
    (n : ℕ) (keys : List (List ℕ)) (page : Page) (i sum : ℕ)
    → length (write_key_ends n page i sum keys) ≡ length page
unfolding write_key_ends
length-write_key_ends n [] page i sum = refl
length-write_key_ends n (key ∷ keys) page i sum =
    length-write_key_ends n keys
      (write_u32 page (int_key_end_offset n i) ((sum + length key) % 2 ^ 32)) (suc i)
      (sum + length key)
    ∙ length-write_le 4 page (int_key_end_offset n i) ((sum + length key) % 2 ^ 32)

pub get_or-write_key_ends :
    (n : ℕ) (keys : List (List ℕ)) (page : Page) (i sum j : ℕ)
    → (j < int_key_end_offset n i) ⊎ (int_key_end_offset n (i + length keys) ≤ j)
    → get_or (write_key_ends n page i sum keys) j 0 ≡ get_or page j 0
unfolding write_key_ends
get_or-write_key_ends n [] page i sum j h = refl
get_or-write_key_ends n (key ∷ keys) page i sum j h =
    get_or-write_key_ends n keys
      (write_u32 page (int_key_end_offset n i) ((sum + length key) % 2 ^ 32)) (suc i)
      (sum + length key) j (omega arith)
    ∙ get_or-write_le 4 page (int_key_end_offset n i) ((sum + length key) % 2 ^ 32) j (omega arith)

pub length-write_keys :
    (keys : List (List ℕ)) (page : Page) (off : ℕ) → length (write_keys page off keys) ≡ length page
unfolding write_keys
length-write_keys [] page off = refl
length-write_keys (key ∷ keys) page off =
    length-write_keys keys (write_bytes page off key) (off + length key)
    ∙ length-write_bytes key page off

pub get_or-write_keys :
    (keys : List (List ℕ)) (page : Page) (off j : ℕ)
    → (j < off) ⊎ (off + total keys ≤ j)
    → get_or (write_keys page off keys) j 0 ≡ get_or page j 0
unfolding write_keys
get_or-write_keys [] page off j h = refl
get_or-write_keys (key ∷ keys) page off j h =
    get_or-write_keys keys (write_bytes page off key) (off + length key) j (omega arith)
    ∙ get_or-write_bytes key page off j (omega arith)

-- Pages that agree on a stretch have the same field in it, and the same slice.
pub same_field :
    (n : ℕ) (page page' : Page) (off : ℕ)
    → ((j : ℕ) → off ≤ j → j < off + n → get_or page j 0 ≡ get_or page' j 0)
    → read_le n page off ≡ read_le n page' off
same_field n page page' off h =
    read_le-SameBytes n page page' off off
      (record { agree = λ k b. h (off + k) (omega arith) (omega arith) })

pub same_slice :
    (n : ℕ) (page page' : Page) (off : ℕ)
    → length page ≡ length page'
    → off + n ≤ length page
    → ((j : ℕ) → off ≤ j → j < off + n → get_or page j 0 ≡ get_or page' j 0)
    → slice page off n ≡ slice page' off n
same_slice n page page' off l b h =
    slice-SameBytes n page page' off off b (omega arith)
      (record { agree = λ k c. h (off + k) (omega arith) (omega arith) })

-- The children that are read back.
pub children-write_children :
    (cs : List ℕ) (page : Page) (i : ℕ)
    → AllBelow (2 ^ 64) cs
    → int_child_offset (i + length cs) ≤ length page
    → collect (child_page_at (write_children page i cs)) i (length cs) ≡ cs
unfolding write_children
children-write_children [] page i small b = refl
children-write_children (c ∷ cs) page i (one, small) b =
    let off = int_child_offset i in
    let page' = write_u64 page off c in
    ap₂ ◌∷◌
      (same_field 8 (write_children page' (suc i) cs) page' off
          (λ j l h. get_or-write_children cs page' (suc i) j (omega arith))
        ∙ read_le-write_le_self 8 page off c (omega arith) (omega arith))
      (children-write_children cs page' (suc i) small (omega (arith, length-write_le 8 page off c)))

-- The ends of keys are stored from position `i` on, behind `sum` bytes.
abbrev pub Ends : Page → ℕ → ℕ → ℕ → List (List ℕ) → Type 0
Ends page n i sum [] = Unit
Ends page n i sum (key ∷ keys) =
    (read_u32 page (int_key_end_offset n i) ≡ sum + length key)
    × Ends page n (suc i) (sum + length key) keys

-- The bytes of keys are stored from `off` on.
abbrev pub Packed : Page → ℕ → List (List ℕ) → Type 0
Packed page off [] = Unit
Packed page off (key ∷ keys) =
    (slice page off (length key) ≡ key) × Packed page (off + length key) keys

pub Ends-congr :
    (page page' : Page) (n : ℕ) (keys : List (List ℕ)) (i sum : ℕ)
    → ((j : ℕ)
        → int_key_end_offset n i ≤ j
        → j < int_key_end_offset n (i + length keys)
        → get_or page' j 0 ≡ get_or page j 0)
    → Ends page n i sum keys
    → Ends page' n i sum keys
Ends-congr page page' n [] i sum same h = tt
Ends-congr page page' n (key ∷ keys) i sum same (one, h) = (
  same_field 4 page' page (int_key_end_offset n i) (λ j a b. same j a (omega arith)) ∙ one,
  Ends-congr page page' n keys (suc i) (sum + length key)
      (λ j a b. same j (omega arith) (omega arith)) h,
)

pub write_key_ends-Ends :
    (n : ℕ) (keys : List (List ℕ)) (page : Page) (i sum : ℕ)
    → int_key_end_offset n (i + length keys) ≤ length page
    → sum + total keys < 2 ^ 32
    → Ends (write_key_ends n page i sum keys) n i sum keys
unfolding write_key_ends
write_key_ends-Ends n [] page i sum b small = tt
write_key_ends-Ends n (key ∷ keys) page i sum b small =
    let off = int_key_end_offset n i in
    let end = sum + length key in
    let page' = write_u32 page off (end % 2 ^ 32) in
    let whole : end % 2 ^ 32 ≡ end = mod-eq_of_lt (omega arith) in
    (
      same_field 4 (write_key_ends n page' (suc i) end keys) page' off
            (λ j l h. get_or-write_key_ends n keys page' (suc i) end j (omega arith))
          ∙ read_le-write_le_self 4 page off (end % 2 ^ 32) (omega arith) (omega (arith, whole))
          ∙ whole,
      write_key_ends-Ends n keys page' (suc i) end
          (omega (arith, length-write_le 4 page off (end % 2 ^ 32))) (omega arith),
    )

pub write_keys-Packed :
    (keys : List (List ℕ)) (page : Page) (off : ℕ)
    → off + total keys ≤ length page
    → Packed (write_keys page off keys) off keys
unfolding write_keys
write_keys-Packed [] page off b = tt
write_keys-Packed (key ∷ keys) page off b =
    let page' = write_bytes page off key in
    let long = length-write_bytes key page off in
    (
      same_slice (length key) (write_keys page' (off + length key) keys) page' off
            (length-write_keys keys page' (off + length key))
            (omega (arith, length-write_keys keys page' (off + length key)))
            (λ j l h. get_or-write_keys keys page' (off + length key) j (omega arith))
          ∙ slice-write_bytes_self key page off (omega arith),
      write_keys-Packed keys page' (off + length key) (omega arith),
    )

-- Where the keys behind `i` start.
pub key_start-Ends :
    (page : Page) (n : ℕ) (keys : List (List ℕ)) (i sum j : ℕ)
    → j ≡ i + length keys
    → key_start page n i ≡ sum
    → Ends page n i sum keys
    → key_start page n j ≡ sum + total keys
key_start-Ends page n [] i sum j e start h =
    let same : j ≡ i = omega arith in rw same (start ∙ omega arith)
key_start-Ends page n (key ∷ keys) i sum j e start (one, h) =
    key_start-Ends page n keys (suc i) (sum + length key) j (omega arith) one h ∙ omega arith

-- The keys that are read back.
pub keys-Packed :
    (page : Page) (n : ℕ) (keys : List (List ℕ)) (i sum off : ℕ)
    → off ≡ int_key_data_base n + sum
    → key_start page n i ≡ sum
    → Ends page n i sum keys
    → Packed page off keys
    → collect (key_bytes_of page n) i (length keys) ≡ keys
keys-Packed page n [] i sum off e start ends packed = refl
keys-Packed page n (key ∷ keys) i sum off e start (end, ends) (one, packed) =
    let len : sum + length key - sum ≡ length key = omega arith in
    ap₂ ◌∷◌ (rw (start, end, len, ← e) one) (
      keys-Packed page n keys (suc i) (sum + length key) (off + length key) (omega arith) end ends
        packed)
