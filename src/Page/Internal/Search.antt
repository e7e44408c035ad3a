-- ===== src/Page/Internal/Search.antt =====
-- `find_child` of crates/storage/src/page/internal.rs against a scan of the keys from the first on.
use Prim.Native.Nat.{Ordering}
use native.Mathlib.Nat.{pow-suc}
use flux_db.Common.{
  ℕ, zero, suc, ◌+◌, ◌-◌, ◌/◌, ◌^◌, ◌<◌, ◌≤◌, ◌≡◌, ◌≢◌, ◌⊎◌, inl, inr, true, false, refl, Option,
  some, List, [], ◌∷◌, map, length, get_or, collect, length-collect, arith, ◌∙◌, sym, ap, ltb,
  ltb→lt, Bool-cases,
}
use flux_db.Values.Keys.{Key, IsKey}
use flux_db.Page.Bytes.{Page}
use flux_db.Page.Internal.{
  num_keys, child_page_at, key_bytes_of, key_bytes_at, snapshot, descend, find_child,
}
use flux_db.Page.Internal.Rewrite.{IsInternal}
use flux_db.Page.Leaf.Search.{IsOrder}

-- The index of the first key above the query; the number of keys, if there is none.
abbrev pub route {ℓ} : {A : Type ℓ} → (A → A → Ordering) → List A → A → ℕ
route cmp [] query = 0
route cmp (k ∷ ks) query = elim (cmp k query) [
  | Ordering.gt ↦ 0
  | Ordering.lt ↦ suc (route cmp ks query)
  | Ordering.eq ↦ suc (route cmp ks query)
]

-- Every key is at most those behind it.
abbrev pub NotAbove {ℓ} : {A : Type ℓ} → (A → A → Ordering) → A → List A → Type 0
NotAbove cmp k [] = Unit
NotAbove cmp k (x ∷ xs) = (cmp k x ≢ Ordering.gt) × NotAbove cmp k xs

abbrev pub Ascending {ℓ} : {A : Type ℓ} → (A → A → Ordering) → List A → Type 0
Ascending cmp [] = Unit
Ascending cmp (k ∷ ks) = NotAbove cmp k ks × Ascending cmp ks

abbrev pub AllOf {ℓ} : {A : Type ℓ} → (A → Type 0) → List A → Type 0
AllOf P [] = Unit
AllOf P (x ∷ xs) = P x × AllOf P xs

pub gt-cases : (o : Ordering) → (o ≡ Ordering.gt) ⊎ (o ≢ Ordering.gt)
gt-cases Ordering.lt = inr cc
gt-cases Ordering.eq = inr cc
gt-cases Ordering.gt = inl refl

module _ {ℓ} {A : Type ℓ} (cmp : A → A → Ordering) (query : A) where
  pub route_above : (k : A) (ks : List A) → cmp k query ≡ Ordering.gt → route cmp (k ∷ ks) query ≡ 0
  route_above k ks e = rw (e, route) refl

  pub route_below :
      (k : A) (ks : List A)
      → cmp k query ≢ Ordering.gt
      → route cmp (k ∷ ks) query ≡ suc (route cmp ks query)
  route_below k ks h =
      elim (cmp k query)
          as (λ o.
            o ≢ Ordering.gt
            → elim o as (λ _. ℕ) [
              | Ordering.gt ↦ 0
              | Ordering.lt ↦ suc (route cmp ks query)
              | Ordering.eq ↦ suc (route cmp ks query)
            ]
              ≡ suc (route cmp ks query)) [
                | Ordering.lt ↦ λ _. refl
                | Ordering.eq ↦ λ _. refl
                | Ordering.gt ↦ λ n. absurd (n refl)
              ]
        h

  pub route-le-length : (ks : List A) → route cmp ks query ≤ length ks
  route-le-length [] = omega arith
  route-le-length (k ∷ ks) = elim (gt-cases (cmp k query)) [
    | inl e ↦ omega (arith, route_above k ks e)
    | inr h ↦ omega (arith, route_below k ks h, route-le-length ks)
  ]

  before_route :
      (ks : List A) (j : ℕ) → j < route cmp ks query → cmp (get_or ks j query) query ≢ Ordering.gt
  before_route [] j b = absurd (omega arith)
  before_route (k ∷ ks) zero b = elim (gt-cases (cmp k query)) [
    | inl e ↦ absurd (omega (arith, route_above k ks e))
    | inr h ↦ h
  ]
  before_route (k ∷ ks) (suc j) b = elim (gt-cases (cmp k query)) [
    | inl e ↦ absurd (omega (arith, route_above k ks e))
    | inr h ↦ before_route ks j (omega (arith, route_below k ks h))
  ]

  module _ (order : IsOrder cmp) where
    all_above :
        (k : A) (ks : List A) (j : ℕ)
        → NotAbove cmp k ks
        → cmp k query ≡ Ordering.gt
        → j < length ks
        → cmp (get_or ks j query) query ≡ Ordering.gt
    all_above k [] j n e b = absurd (omega arith)
    all_above k (x ∷ xs) zero (one, n) e b = order.greater k x query one e
    all_above k (x ∷ xs) (suc j) (one, n) e b = all_above k xs j n e (omega arith)

    from_route :
        (ks : List A) (j : ℕ)
        → Ascending cmp ks
        → route cmp ks query ≤ j
        → j < length ks
        → cmp (get_or ks j query) query ≡ Ordering.gt
    from_route [] j s a b = absurd (omega arith)
    from_route (k ∷ ks) zero (n, s) a b = elim (gt-cases (cmp k query)) [
      | inl e ↦ e
      | inr h ↦ absurd (omega (arith, route_below k ks h))
    ]
    from_route (k ∷ ks) (suc j) (n, s) a b = elim (gt-cases (cmp k query)) [
      | inl e ↦ all_above k ks j n e (omega arith)
      | inr h ↦ from_route ks j s (omega (arith, route_below k ks h)) (omega arith)
    ]

goes_right :
    (answers : ℕ → Option Ordering) (rounds lo hi : ℕ) (o : Ordering)
    → ltb lo hi ≡ true
    → answers (lo + (hi - lo) / 2) ≡ some o
    → o ≢ Ordering.gt
    → descend answers (suc rounds) lo hi ≡ descend answers rounds (lo + (hi - lo) / 2 + 1) hi
unfolding descend
goes_right answers rounds lo hi Ordering.lt e found h = rw (e, found, descend) refl
goes_right answers rounds lo hi Ordering.eq e found h = rw (e, found, descend) refl
goes_right answers rounds lo hi Ordering.gt e found h = absurd (h refl)

descend-finds :
    (answers : ℕ → Option Ordering) (answer : ℕ → Ordering) (n r : ℕ)
    → ((j : ℕ) → j < n → answers j ≡ some (answer j))
    → ((j : ℕ) → j < r → answer j ≢ Ordering.gt)
    → ((j : ℕ) → r ≤ j → j < n → answer j ≡ Ordering.gt)
    → (rounds lo hi : ℕ) → hi - lo < 2 ^ rounds
    → lo ≤ r
    → r ≤ hi
    → hi ≤ n
    → descend answers rounds lo hi ≡ some r
unfolding descend
descend-finds answers answer n r known below above zero lo hi small l u b =
    let empty : ltb lo hi ≡ false = ground arith in
    let same : lo ≡ r = omega arith in rw (empty, descend) (rw same refl)
descend-finds answers answer n r known below above (suc rounds) lo hi small l u b =
    let mid = lo + (hi - lo) / 2 in
    let pow = pow-suc 2 rounds in
    elim (Bool-cases (ltb lo hi)) [
      | inr e ↦ let same : lo ≡ r = ground arith in rw (e, descend) (rw same refl)
      | inl e ↦
          let inside = ltb→lt lo hi e in
          let found = known mid (omega arith) in
          elim (Bool-cases (ltb mid r)) [
            | inl before ↦
                let m = ltb→lt mid r before in
                let next =
                  descend-finds answers answer n r known below above rounds (mid + 1) hi
                    (omega arith) (omega arith) u b in
                goes_right answers rounds lo hi (answer mid) e found (below mid m) ∙ next
            | inr behind ↦
                let gt = above mid (ground arith) (omega arith) in
                let next =
                  descend-finds answers answer n r known below above rounds lo mid (omega arith) l
                    (ground arith) (omega arith) in
                rw (e, found, gt, descend) next
          ]
    ]

module _ {ℓ} {A : Type ℓ} where
  pub at-collect :
      {B : Type 0} (f : ℕ → B) (g : A → B) (ks : List A) (d : A) (i n j m : ℕ)
      → collect f i n ≡ map g ks
      → j < n
      → m ≡ i + j
      → f m ≡ g (get_or ks j d)
  at-collect f g ks d i zero j m e b s = absurd (omega arith)
  at-collect f g [] d i (suc n) j m e b s = let bad = ap length e in absurd (omega arith)
  at-collect f g (k ∷ ks) d i (suc n) zero m e b s =
      let same : m ≡ i = omega arith in let head : f i ≡ g k = cc in rw same head
  at-collect f g (k ∷ ks) d i (suc n) (suc j) m e b s =
      let tail : collect f (suc i) n ≡ map g ks = cc in
      at-collect f g ks d (suc i) n j m tail (omega arith) (omega arith)

  pub length-map : {B : Type 0} (g : A → B) (ks : List A) → length (map g ks) ≡ length ks
  length-map g [] = refl
  length-map g (k ∷ ks) = ap suc (length-map g ks)

  at_all :
      (P : A → Type 0) (ks : List A) (d : A) (j : ℕ)
      → AllOf P ks
      → j < length ks
      → P (get_or ks j d)
  at_all P [] d j h b = absurd (omega arith)
  at_all P (k ∷ ks) d zero (one, h) b = one
  at_all P (k ∷ ks) d (suc j) (one, h) b = at_all P ks d j h (omega arith)

-- Of a lawful key type with a linear order, on an internal page that holds the ascending keys of a
-- list, find_child ends after at most sixteen rounds with what a scan from the first key on finds: the
-- index of the first key above the query and the child there.
pub find_child-route {ℓ} :
    {A : Type ℓ} {Fits : A → Type 0} {cmp : A → A → Ordering} (key : Key A) (page : Page)
    (ks : List A) (query : A)
    → IsKey Fits cmp key
    → IsOrder cmp
    → Fits query
    → AllOf Fits ks
    → Ascending cmp ks
    → IsInternal page
    → (snapshot page).1 ≡ map key.value.as_bytes ks
    → find_child key page query ≡ some (route cmp ks query, child_page_at page (route cmp ks query))
unfolding find_child
find_child-route {Fits} {cmp} key page ks query is_key order q fit sorted valid holds =
    let n = num_keys page in
    let same : n ≡ length ks =
      sym (length-collect (key_bytes_of page n) 0 n)
      ∙ ap length holds
      ∙ length-map key.value.as_bytes ks in
    let found =
      descend-finds (λ i. key.compare_bytes (key_bytes_at page i) (key.value.as_bytes query))
        (λ i. cmp (get_or ks i query) query) n (route cmp ks query)
        (λ j b.
          rw
            (at-collect (key_bytes_of page n) key.value.as_bytes ks query 0 n j j holds b
              (omega arith))
            (is_key.agrees (get_or ks j query) query (at_all Fits ks query j fit (omega arith)) q))
        (before_route cmp query ks)
        (λ j a b. from_route cmp query order ks j sorted a (omega arith)) 16 0 n
        (omega (arith, valid.fits)) (omega arith) (omega (arith, route-le-length cmp query ks))
        (omega arith) in
    rw (found, find_child) refl
