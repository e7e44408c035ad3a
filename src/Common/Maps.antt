-- ===== src/Common/Maps.antt =====
-- A `HashMap<u64, V>` as an association list with at most one entry for a key: `insert` replaces,
-- `remove` drops every entry of the key.
use Prim.Native.Nat.{ℕ}
use mathlib.Core.Path.{◌≡◌, refl}
use mathlib.Core.Logic.{inl, inr}
use mathlib.Core.Bool.{Bool, true, false}
use mathlib.Core.List.{List, [], ◌∷◌, map}
use mathlib.Core.Option.{Option, none, some}
use native.Mathlib.Omega.{arith}
use flux_db.Common.Tests.{◌==◌, if◌then◌else◌, Bool-cases}
use flux_db.Common.Lists.{contains}

module _ {ℓ} {V : Type ℓ} where
  unfoldable pub get : ℕ → List (ℕ × V) → Option V
  get k [] = none
  get k ((j, v) ∷ m) = if k == j then some v else get k m

  unfoldable pub remove : ℕ → List (ℕ × V) → List (ℕ × V)
  remove k [] = []
  remove k ((j, v) ∷ m) = let rest = remove k m in if k == j then rest else (j, v) ∷ rest

  unfoldable pub insert : ℕ → V → List (ℕ × V) → List (ℕ × V)
  unfolding remove
  insert k v m = (k, v) ∷ remove k m

  unfoldable pub contains_key : ℕ → List (ℕ × V) → Bool
  unfolding get
  contains_key k m = elim (get k m) [ none ↦ false | some _ ↦ true ]

  unfoldable pub keys : List (ℕ × V) → List ℕ
  keys [] = []
  keys ((j, v) ∷ m) = j ∷ keys m

  unfoldable pub values : List (ℕ × V) → List V
  values [] = []
  values ((j, v) ∷ m) = v ∷ values m

  pub get-remove :
      (k j : ℕ) (m : List (ℕ × V)) → get j (remove k m) ≡ (if j == k then none else get j m)
  unfolding get remove
  get-remove k j [] = ground arith
  get-remove k j ((i, w) ∷ m) = ground (arith, get-remove k j m)

  pub get-insert :
      (k j : ℕ) (v : V) (m : List (ℕ × V))
      → get j (insert k v m) ≡ (if j == k then some v else get j m)
  unfolding get insert
  get-insert k j v m = ground (arith, get-remove k j m)

  pub contains_key_of_get :
      (k : ℕ) (m : List (ℕ × V)) {v : V} → get k m ≡ some v → contains_key k m ≡ true
  unfolding contains_key
  contains_key_of_get k m h = ground arith

  pub get_of_contains_key :
      (k : ℕ) (m : List (ℕ × V)) → contains_key k m ≡ true → (v : V) × (get k m ≡ some v)
  unfolding contains_key
  get_of_contains_key k m h = ground arith

  pub contains_key-insert :
      (k j : ℕ) (v : V) (m : List (ℕ × V))
      → contains_key j (insert k v m) ≡ (if j == k then true else contains_key j m)
  unfolding contains_key
  contains_key-insert k j v m = ground (arith, get-insert k j v m)

  pub contains_key-remove :
      (k j : ℕ) (m : List (ℕ × V))
      → contains_key j (remove k m) ≡ (if j == k then false else contains_key j m)
  unfolding contains_key
  contains_key-remove k j m = ground (arith, get-remove k j m)

  pub contains-keys : (k : ℕ) (m : List (ℕ × V)) → contains (keys m) k ≡ contains_key k m
  unfolding keys contains_key
  contains-keys k [] = refl
  contains-keys k ((j, v) ∷ m) = ground (arith, contains-keys k m)

module _ {ℓ} {V : Type ℓ} (f : V → ℕ) where
  -- A value that the map holds is among its values.
  pub contains-values :
      (k : ℕ) (m : List (ℕ × V)) (v : V)
      → get k m ≡ some v
      → contains (map f (values m)) (f v) ≡ true
  unfolding values get
  contains-values k [] v h = ground arith
  contains-values k ((j, w) ∷ m) v h = ground (arith, contains-values k m v)

  -- Removing an entry brings in no value.
  pub contains-values-remove :
      (k : ℕ) (m : List (ℕ × V)) (a : ℕ)
      → contains (map f (values (remove k m))) a ≡ true
      → contains (map f (values m)) a ≡ true
  unfolding values remove
  contains-values-remove k [] a h = h
  contains-values-remove k ((j, w) ∷ m) a h = ground (arith, contains-values-remove k m a)

-- The keys of the list are distinct, as a `HashMap` has them.
abbrev pub IsMap {ℓ} : {V : Type ℓ} → List (ℕ × V) → Type 0
IsMap [] = Unit
IsMap ((j, v) ∷ m) = (contains_key j m ≡ false) × IsMap m

module _ {ℓ} {V : Type ℓ} where
  -- `HashMap::retain`
  unfoldable pub retain : (ℕ → V → Bool) → List (ℕ × V) → List (ℕ × V)
  retain p [] = []
  retain p ((j, v) ∷ m) = let rest = retain p m in if p j v then (j, v) ∷ rest else rest

  pub remove-IsMap : (k : ℕ) (m : List (ℕ × V)) → IsMap m → IsMap (remove k m)
  unfolding remove
  remove-IsMap k [] h = tt
  remove-IsMap k ((j, v) ∷ m) h = elim (Bool-cases (k == j)) [
    | inl e ↦ rw e (remove-IsMap k m h.1)
    | inr e ↦ rw e (ground (arith, contains_key-remove k j m), remove-IsMap k m h.1)
  ]

  pub insert-IsMap : (k : ℕ) (v : V) (m : List (ℕ × V)) → IsMap m → IsMap (insert k v m)
  unfolding insert
  insert-IsMap k v m h = (ground (arith, contains_key-remove k k m), remove-IsMap k m h)

  contains_key-eq-false : (k : ℕ) (m : List (ℕ × V)) → get k m ≡ none → contains_key k m ≡ false
  unfolding contains_key
  contains_key-eq-false k m h = ground arith

  pub get-eq-none : (k : ℕ) (m : List (ℕ × V)) → contains_key k m ≡ false → get k m ≡ none
  unfolding contains_key
  get-eq-none k m h = ground arith

  get-retain-eq-none :
      (p : ℕ → V → Bool) (k : ℕ) (m : List (ℕ × V)) → get k m ≡ none → get k (retain p m) ≡ none
  unfolding get retain
  get-retain-eq-none p k [] h = refl
  get-retain-eq-none p k ((j, v) ∷ m) h = ground (arith, get-retain-eq-none p k m)

  -- A lookup after `retain` finds the entry exactly when the predicate keeps it.
  pub get-retain :
      (p : ℕ → V → Bool) (k : ℕ) (m : List (ℕ × V))
      → IsMap m
      → get k (retain p m)
        ≡ elim (get k m) [ none ↦ none | some v ↦ if p k v then some v else none ]
  unfolding get retain
  get-retain p k [] h = refl
  get-retain p k ((j, v) ∷ m) h =
      ground (arith, get-retain p k m h.1, get-retain-eq-none p k m, get-eq-none k m)

  pub retain-IsMap : (p : ℕ → V → Bool) (m : List (ℕ × V)) → IsMap m → IsMap (retain p m)
  unfolding retain
  retain-IsMap p [] h = tt
  retain-IsMap p ((j, v) ∷ m) h = elim (Bool-cases (p j v)) [
    | inl e ↦ rw e (absent, retain-IsMap p m h.1)
    | inr e ↦ rw e (retain-IsMap p m h.1)
  ]
    where
      absent : contains_key j (retain p m) ≡ false
      absent = contains_key-eq-false j (retain p m) (get-retain-eq-none p j m (get-eq-none j m h.0))

module _ {ℓ} {V : Type ℓ} (f : V → ℕ) where
  -- In a map, what stands among the values is held by some key.
  pub get_of_contains-values :
      (m : List (ℕ × V)) (a : ℕ)
      → IsMap m
      → contains (map f (values m)) a ≡ true
      → (k : ℕ) × (v : V) × (get k m ≡ some v) × (f v ≡ a)
  unfolding values get
  get_of_contains-values [] a h c = absurd (cc)
  get_of_contains-values ((j, w) ∷ m) a h c = elim (Bool-cases (a == f w)) [
    | inl e ↦ (j, w, ground arith, ground arith)
    | inr e ↦
        let (k, v, g, q) = get_of_contains-values m a h.1 (ground arith) in
        (k, v, ground (arith, get-eq-none j m h.0), q)
  ]
