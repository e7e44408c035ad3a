-- ===== src/Page/Internal/Routes.antt =====
-- What `insert_key_and_right_child` of crates/storage/src/page/internal.rs means for `find_child` of the
-- same file, when the index is the one that `find_child` gives for the separator.
use Prim.Native.Nat.{Ordering}
use mathlib.Core.Path.{subst}
use flux_db.Common.{
  ℕ, zero, suc, ◌+◌, ◌<◌, ◌≤◌, ◌≡◌, ◌≢◌, inl, inr, refl, List, [], ◌∷◌, map, length, get_or,
  collect, arith, ◌∙◌, sym, ap,
}
use flux_db.Page.Internal.Edits.{inserted}
use flux_db.Page.Internal.Search.{
  route, NotAbove, Ascending, AllOf, gt-cases, route_above, route_below,
}
use flux_db.Page.Leaf.Search.{IsOrder}

-- Of two values, not both are above the other.
pub record IsTotal {ℓ} {A : Type ℓ} (cmp : A → A → Ordering) : Type ℓ where
  pub flip : (a b : A) → cmp a b ≡ Ordering.gt → cmp b a ≢ Ordering.gt

pub map-inserted {ℓ} :
    {A : Type ℓ} {B : Type 0} (g : A → B) (i : ℕ) (x : A) (xs : List A)
    → map g (inserted i x xs) ≡ inserted i (g x) (map g xs)
map-inserted g zero x xs = refl
map-inserted g (suc i) x [] = refl
map-inserted g (suc i) x (y ∷ ys) = ap (λ q. g y ∷ q) (map-inserted g i x ys)

pub AllOf-inserted {ℓ} :
    {A : Type ℓ} (P : A → Type 0) (i : ℕ) (x : A) (xs : List A)
    → P x
    → AllOf P xs
    → AllOf P (inserted i x xs)
AllOf-inserted P zero x xs p h = (p, h)
AllOf-inserted P (suc i) x [] p h = (p, tt)
AllOf-inserted P (suc i) x (y ∷ ys) p (one, h) = (one, AllOf-inserted P i x ys p h)

pub get_or-collect :
    (f : ℕ → ℕ) (i n j m : ℕ) → j < n → m ≡ i + j → get_or (collect f i n) j 0 ≡ f m
get_or-collect f i zero j m b e = absurd (omega arith)
get_or-collect f i (suc n) zero m b e = let same : m ≡ i = omega arith in rw same refl
get_or-collect f i (suc n) (suc j) m b e =
    get_or-collect f (suc i) n j m (omega arith) (omega arith)

-- What stands in front of, at and behind an insertion.
pub inserted_before :
    (i x j : ℕ) (xs : List ℕ) (d : ℕ)
    → j < i
    → i ≤ length xs
    → get_or (inserted i x xs) j d ≡ get_or xs j d
inserted_before zero x j xs d l b = absurd (omega arith)
inserted_before (suc i) x j [] d l b = absurd (omega arith)
inserted_before (suc i) x zero (y ∷ ys) d l b = refl
inserted_before (suc i) x (suc j) (y ∷ ys) d l b =
    inserted_before i x j ys d (omega arith) (omega arith)

pub inserted_here :
    (i x : ℕ) (xs : List ℕ) (d : ℕ) → i ≤ length xs → get_or (inserted i x xs) i d ≡ x
inserted_here zero x xs d b = refl
inserted_here (suc i) x [] d b = absurd (omega arith)
inserted_here (suc i) x (y ∷ ys) d b = inserted_here i x ys d (omega arith)

pub inserted_behind :
    (i x j : ℕ) (xs : List ℕ) (d : ℕ)
    → i ≤ j
    → i ≤ length xs
    → get_or (inserted i x xs) (suc j) d ≡ get_or xs j d
inserted_behind zero x j xs d l b = refl
inserted_behind (suc i) x j [] d l b = absurd (omega arith)
inserted_behind (suc i) x zero (y ∷ ys) d l b = absurd (omega arith)
inserted_behind (suc i) x (suc j) (y ∷ ys) d l b =
    inserted_behind i x j ys d (omega arith) (omega arith)

NotAbove-inserted {ℓ} :
    {A : Type ℓ} (cmp : A → A → Ordering) (k : A) (i : ℕ) (x : A) (xs : List A)
    → cmp k x ≢ Ordering.gt
    → NotAbove cmp k xs
    → NotAbove cmp k (inserted i x xs)
NotAbove-inserted cmp k zero x xs n h = (n, h)
NotAbove-inserted cmp k (suc i) x [] n h = (n, tt)
NotAbove-inserted cmp k (suc i) x (y ∷ ys) n (one, h) = (one, NotAbove-inserted cmp k i x ys n h)

NotAbove-trans {ℓ} :
    {A : Type ℓ} {cmp : A → A → Ordering}
    → IsOrder cmp
    → (a b : A) (xs : List A) → cmp a b ≢ Ordering.gt
    → NotAbove cmp b xs
    → NotAbove cmp a xs
NotAbove-trans order a b [] n h = tt
NotAbove-trans order a b (x ∷ xs) n (one, h) =
    (λ e. one (order.greater a b x n e), NotAbove-trans order a b xs n h)

module _ {ℓ} {A : Type ℓ} {cmp : A → A → Ordering} (order : IsOrder cmp) (total : IsTotal cmp)
    (sep query : A) where
  -- A key above a separator that is above the query is above the query.
  above_both :
      (k : A) → cmp k sep ≡ Ordering.gt → cmp sep query ≡ Ordering.gt → cmp k query ≡ Ordering.gt
  above_both k a b = order.greater sep k query (total.flip k sep a) b

  -- The index after the separator was inserted where it is routed to.
  pub route-inserted_above :
      (ks : List A)
      → cmp sep query ≡ Ordering.gt
      → (route cmp (inserted (route cmp ks sep) sep ks) query ≡ route cmp ks query)
        × (route cmp ks query ≤ route cmp ks sep)
  route-inserted_above [] g = (route_above cmp query sep [] g, omega arith)
  route-inserted_above (k ∷ ks) g = elim (gt-cases (cmp k sep)) [
    | inl e ↦
        let at_zero = route_above cmp sep k ks e in
        let both = route_above cmp query k ks (above_both k e g) in
        (
          ap (λ i. route cmp (inserted i sep (k ∷ ks)) query) at_zero
              ∙ route_above cmp query sep (k ∷ ks) g
              ∙ sym both,
          omega arith,
        )
    | inr h ↦
        let later = route_below cmp sep k ks h in
        let (rest, below) = route-inserted_above ks g in
        elim (gt-cases (cmp k query)) [
          | inl e ↦
              let both = route_above cmp query k ks e in
              (
                ap (λ i. route cmp (inserted i sep (k ∷ ks)) query) later
                    ∙ route_above cmp query k (inserted (route cmp ks sep) sep ks) e
                    ∙ sym both,
                omega arith,
              )
          | inr n ↦
              let both = route_below cmp query k ks n in
              (
                ap (λ i. route cmp (inserted i sep (k ∷ ks)) query) later
                    ∙ route_below cmp query k (inserted (route cmp ks sep) sep ks) n
                    ∙ ap suc rest
                    ∙ sym both,
                omega arith,
              )
        ]
  ]

  pub route-inserted_below :
      (ks : List A)
      → cmp sep query ≢ Ordering.gt
      → (route cmp (inserted (route cmp ks sep) sep ks) query ≡ suc (route cmp ks query))
        × (route cmp ks sep ≤ route cmp ks query)
  route-inserted_below [] g = (route_below cmp query sep [] g, omega arith)
  route-inserted_below (k ∷ ks) g = elim (gt-cases (cmp k sep)) [
    | inl e ↦
        let at_zero = route_above cmp sep k ks e in
        (
          ap (λ i. route cmp (inserted i sep (k ∷ ks)) query) at_zero
              ∙ route_below cmp query sep (k ∷ ks) g,
          omega arith,
        )
    | inr h ↦
        let later = route_below cmp sep k ks h in
        let (rest, below) = route-inserted_below ks g in
        let not_above : cmp k query ≢ Ordering.gt = λ e. g (order.greater k sep query h e) in
        let both = route_below cmp query k ks not_above in
        (
          ap (λ i. route cmp (inserted i sep (k ∷ ks)) query) later
              ∙ route_below cmp query k (inserted (route cmp ks sep) sep ks) not_above
              ∙ ap suc (rest ∙ sym both),
          omega arith,
        )
  ]

  pub Ascending-inserted :
      (ks : List A) → Ascending cmp ks → Ascending cmp (inserted (route cmp ks sep) sep ks)
  Ascending-inserted [] h = (tt, tt)
  Ascending-inserted (k ∷ ks) (n, h) = elim (gt-cases (cmp k sep)) [
    | inl e ↦
        let under = total.flip k sep e in
        subst (λ i. Ascending cmp (inserted i sep (k ∷ ks))) (sym (route_above cmp sep k ks e))
          ((under, NotAbove-trans order sep k ks under n), (n, h))
    | inr b ↦
        subst (λ i. Ascending cmp (inserted i sep (k ∷ ks))) (sym (route_below cmp sep k ks b))
          (NotAbove-inserted cmp k (route cmp ks sep) sep ks b n, Ascending-inserted ks h)
  ]
