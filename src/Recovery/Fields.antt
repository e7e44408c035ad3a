-- ===== src/Recovery/Fields.antt =====
-- The fields of the payloads that apply_data of crates/storage/src/recovery/mod.rs reads.
use flux_db.Common.{
  ℕ, zero, suc, ◌+◌, ◌*◌, ◌^◌, ◌<◌, ◌≤◌, ◌≡◌, refl, true, Option, none, some, List, [], ◌∷◌, ◌++◌,
  length, leb, arith, ap, take, drop,
}
use flux_db.Values.Scalars.{to_le_bytes}
use flux_db.Page.Bytes.{read_le, write_le}
use flux_db.Page.Slices.{slice}
use flux_db.Wal.Reader.Laws.{read_le-to_le_bytes}
use flux_db.Wal.Payloads.{set_xmax_payload}
use flux_db.Recovery.Apply.{◌>>=◌, field, part}

pub field-known :
    (n off : ℕ) (d : List ℕ) (v : ℕ)
    → off + n ≤ length d
    → read_le n d off ≡ v
    → field n off d ≡ some v
field-known n off d v b e =
    let inside : leb (off + n) (length d) ≡ true = ground arith in rw (inside, field) (ap some e)

pub part-known :
    (off len : ℕ) (d xs : List ℕ)
    → off + len ≤ length d
    → slice d off len ≡ xs
    → part off len d ≡ some xs
part-known off len d xs b e =
    let inside : leb (off + len) (length d) ≡ true = ground arith in rw (inside, part) (ap some e)

pub take-all : (xs : List ℕ) → take (length xs) xs ≡ xs
take-all [] = refl
take-all (x ∷ xs) = ap (λ ys. x ∷ ys) (take-all xs)

pub drop-drop : (m n k : ℕ) (xs : List ℕ) → k ≡ m + n → drop k xs ≡ drop n (drop m xs)
drop-drop zero n k xs e = let same : k ≡ n = omega arith in rw same refl
drop-drop (suc m) zero zero xs e = absurd (omega arith)
drop-drop (suc m) (suc n) zero xs e = absurd (omega arith)
drop-drop (suc m) zero (suc k) [] e = refl
drop-drop (suc m) (suc n) (suc k) [] e = refl
drop-drop (suc m) n (suc k) (x ∷ xs) e = drop-drop m n k xs (omega arith)

pub >>=-congr {ℓ κ} :
    {A : Type ℓ} {B : Type κ} (o : Option A) {f g : A → Option B}
    → ((a : A) → f a ≡ g a)
    → (o >>= f) ≡ (o >>= g)
>>=-congr none h = refl
>>=-congr (some a) h = h a

pub delete_fields :
    (slot xmax : ℕ)
    → slot < 2 ^ 16
    → xmax < 2 ^ 64
    → (field 2 0 (set_xmax_payload slot xmax) ≡ some slot)
      × (field 8 2 (set_xmax_payload slot xmax) ≡ some xmax)
unfolding write_le read_le
delete_fields slot xmax s x = (
  ap some (read_le-to_le_bytes 2 slot (omega arith)),
  ap some (read_le-to_le_bytes 8 xmax (omega arith)),
)

pub link_fields :
    (role link : ℕ)
    → link < 2 ^ 64
    → (field 1 0 (role ∷ [] ++ to_le_bytes 8 link) ≡ some role)
      × (field 8 1 (role ∷ [] ++ to_le_bytes 8 link) ≡ some link)
unfolding write_le read_le
link_fields role link b =
    let byte : role + 256 * 0 ≡ role = omega arith in
    (ap some byte, ap some (read_le-to_le_bytes 8 link (omega arith)))

pub parent_fields :
    (index keep : ℕ)
    → index < 2 ^ 16
    → (field 1 0 (2 ∷ [] ++ to_le_bytes 2 index ++ keep ∷ []) ≡ some 2)
      × (field 2 1 (2 ∷ [] ++ to_le_bytes 2 index ++ keep ∷ []) ≡ some index)
      × (field 1 3 (2 ∷ [] ++ to_le_bytes 2 index ++ keep ∷ []) ≡ some keep)
unfolding write_le read_le
parent_fields index keep b =
    let byte : keep + 256 * 0 ≡ keep = omega arith in
    (refl, ap some (read_le-to_le_bytes 2 index (omega arith)), ap some byte)

pub root_field : (root : ℕ) → root < 2 ^ 64 → field 8 0 (to_le_bytes 8 root) ≡ some root
unfolding write_le read_le
root_field root b = ap some (read_le-to_le_bytes 8 root (omega arith))
