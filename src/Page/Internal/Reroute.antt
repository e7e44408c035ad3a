-- ===== src/Page/Internal/Reroute.antt =====
-- Where `find_child` of crates/storage/src/page/internal.rs leads after
-- `insert_key_and_right_child` of the same file.
use Prim.Native.Nat.{Ordering}
use flux_db.Common.{
  ℕ, suc, ◌+◌, ◌<◌, ◌≡◌, ◌≢◌, inl, inr, refl, some, List, map, length, get_or, length-collect,
  arith, ◌∙◌, sym, ap, ◌==◌, Bool-cases, if◌then◌else◌,
}
use flux_db.Values.Keys.{Key, IsKey}
use flux_db.Page.Bytes.{Page}
use flux_db.Page.Internal.{key_bytes_of, num_keys, child_page_at, snapshot, find_child}
use flux_db.Page.Internal.Rewrite.{StandsFor}
use flux_db.Page.Internal.Edits.{inserted}
use flux_db.Page.Internal.Search.{
  route, Ascending, AllOf, gt-cases, route-le-length, length-map, find_child-route,
}
use flux_db.Page.Leaf.Search.{IsOrder}
use flux_db.Page.Internal.Routes.{
  IsTotal, map-inserted, AllOf-inserted, get_or-collect, inserted_before, inserted_here,
  inserted_behind, route-inserted_above, route-inserted_below, Ascending-inserted,
}

module _ {ℓ} {A : Type ℓ} {cmp : A → A → Ordering} (order : IsOrder cmp) (total : IsTotal cmp)
    (sep query : A) where
  -- The child that the query is led to after the split of a child, of which the keys from the
  -- separator on went to a new right sibling.
  abbrev pub next_child : Page → List A → ℕ → ℕ
  next_child page ks right_child =
      let old = child_page_at page (route cmp ks query) in
      elim (cmp sep query) [
        | Ordering.gt ↦ old
        | Ordering.lt ↦ if route cmp ks query == route cmp ks sep then right_child else old
        | Ordering.eq ↦ if route cmp ks query == route cmp ks sep then right_child else old
      ]

  module _ (page : Page) (ks : List A) (right_child : ℕ) where
    next_above :
        cmp sep query ≡ Ordering.gt
        → next_child page ks right_child ≡ child_page_at page (route cmp ks query)
    next_above e = rw (e, next_child) refl

    next_below :
        cmp sep query ≢ Ordering.gt
        → next_child page ks right_child ≡ (
            if route cmp ks query == route cmp ks sep
            then right_child
            else child_page_at page (route cmp ks query))
    next_below h =
        let old = child_page_at page (route cmp ks query) in
        let moved = if route cmp ks query == route cmp ks sep then right_child else old in
        elim (cmp sep query)
            as (λ o.
              o ≢ Ordering.gt
              → elim o as (λ _. ℕ) [ Ordering.gt ↦ old | Ordering.lt ↦ moved | Ordering.eq ↦ moved ]
                ≡ moved) [
                  | Ordering.lt ↦ λ _. refl
                  | Ordering.eq ↦ λ _. refl
                  | Ordering.gt ↦ λ n. absurd (n refl)
                ]
          h

    -- The child there, in the list with the new one.
    pub child-inserted :
        (r : ℕ)
        → r ≡ route cmp (inserted (route cmp ks sep) sep ks) query
        → num_keys page ≡ length ks
        → get_or (inserted (route cmp ks sep + 1) right_child (snapshot page).0) r 0
          ≡ next_child page ks right_child
    child-inserted r e l =
        let at = route cmp ks query in
        let i = route cmp ks sep in
        let cs = (snapshot page).0 in
        let count = length-collect (child_page_at page) 0 (suc (num_keys page)) in
        let fits = route-le-length cmp sep ks in
        let fits' = route-le-length cmp query ks in
        let old : get_or cs at 0 ≡ child_page_at page at = child_at at (omega arith) in
        elim (gt-cases (cmp sep query)) [
          | inl g ↦
              let (same, before) = route-inserted_above order total sep query ks g in
              let here : r ≡ at = e ∙ same in
              rw here (
                inserted_before (i + 1) right_child at cs 0 (omega arith) (omega arith)
                ∙ old
                ∙ sym (next_above g))
          | inr g ↦
              let (same, behind) = route-inserted_below order total sep query ks g in
              let here : r ≡ suc at = e ∙ same in
              elim (Bool-cases (at == i)) [
                | inl eq ↦
                    let there : r ≡ i + 1 = ground arith in
                    rw there (
                      inserted_here (i + 1) right_child cs 0 (omega arith)
                      ∙ sym (next_below g ∙ rw eq refl))
                | inr ne ↦ rw here (
                    inserted_behind (i + 1) right_child at cs 0 (ground arith) (omega arith)
                    ∙ old
                    ∙ sym (next_below g ∙ rw ne refl))
              ]
        ]
      where
        child_at :
            (j : ℕ) → j < suc (num_keys page) → get_or (snapshot page).0 j 0 ≡ child_page_at page j
        child_at j b =
            get_or-collect (child_page_at page) 0 (suc (num_keys page)) j j b (omega arith)

-- Of a lawful key type with a linear order, let an internal page hold the ascending keys of a list,
-- and let a separator and a right child be inserted at the index that find_child gives for the
-- separator. Then find_child leads every query to the child that it led to before, except that the
-- queries at or above the separator that were led to the split child are led to the right child.
pub find_child-rerouted {ℓ} :
    {A : Type ℓ} {Fits : A → Type 0} {cmp : A → A → Ordering} (key : Key A) (page page' : Page)
    (ks : List A) (sep query : A) (right_child : ℕ)
    → IsKey Fits cmp key
    → (order : IsOrder cmp) → (total : IsTotal cmp) → Fits sep
    → Fits query
    → AllOf Fits ks
    → Ascending cmp ks
    → (snapshot page).1 ≡ map key.value.as_bytes ks
    → StandsFor page page'
        (inserted (route cmp ks sep + 1) right_child (snapshot page).0)
        (inserted (route cmp ks sep) (key.value.as_bytes sep) (snapshot page).1)
    → (i : ℕ) × (find_child key page' query
        ≡ some (i, next_child order total sep query page ks right_child))
find_child-rerouted {Fits} {cmp} key page page' ks sep query right_child is_key order total s q fit
      sorted holds after =
    let i = route cmp ks sep in
    let new = inserted i sep ks in
    let r = route cmp new query in
    let holds' : (snapshot page').1 ≡ map key.value.as_bytes new =
      ap (λ p. p.1) after.stands
      ∙ ap (inserted i (key.value.as_bytes sep)) holds
      ∙ sym (map-inserted key.value.as_bytes i sep ks) in
    let found =
      find_child-route key page' new query is_key order q (AllOf-inserted Fits i sep ks s fit)
        (Ascending-inserted order total sep query ks sorted) after.valid holds' in
    let n : num_keys page ≡ length ks =
      sym (length-collect (key_bytes_of page (num_keys page)) 0 (num_keys page))
      ∙ ap length holds
      ∙ length-map key.value.as_bytes ks in
    let n' : num_keys page' ≡ length new =
      sym (length-collect (key_bytes_of page' (num_keys page')) 0 (num_keys page'))
      ∙ ap length holds'
      ∙ length-map key.value.as_bytes new in
    let child : child_page_at page' r ≡ next_child order total sep query page ks right_child =
      sym (
        get_or-collect (child_page_at page') 0 (suc (num_keys page')) r r
          (omega (arith, route-le-length cmp query new)) (omega arith))
      ∙ ap (λ p. get_or p.0 r 0) after.stands
      ∙ child-inserted order total sep query page ks right_child r refl n in
    (r, found ∙ ap (λ c. some (r, c)) child)
