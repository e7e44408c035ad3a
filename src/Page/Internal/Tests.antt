-- ===== src/Page/Internal/Tests.antt =====
-- Runs of internal pages.
use Prim.Native.Nat.{compare}
use flux_db.Common.{ℕ, ◌≡◌, refl, some, [], ◌∷◌, replicate, arith, map}
use flux_db.Page.Bytes.{Page, read_le, write_le}
use flux_db.Page.Slices.{write_bytes}
use flux_db.Values.Keys.{le_key}
use flux_db.Values.Keys.Laws.{le_key-IsKey}
use flux_db.Page.Leaf.Search.{IsOrder}
use flux_db.Page.Internal.{snapshot, num_keys, child_page_at, find_child}
use flux_db.Page.Internal.Mutate.{
  rewrite, write_children, write_key_ends, write_keys, new_internal, insert_key_and_right_child,
  remove_key_at, right,
}
use flux_db.Page.Internal.Rewrite.{IsInternal, StandsFor, CanHold, rewrite-StandsFor}
use flux_db.Page.Internal.Edits.{
  Inserts, inserted, removed, dropped, insert_key_and_right_child-Inserts, remove_key_at-removed,
}
use flux_db.Page.Internal.Search.{route, Ascending, find_child-route}
use flux_db.Page.Internal.Routes.{IsTotal}
use flux_db.Page.Internal.Reroute.{next_child, find_child-rerouted}

program : Unit {0}
unfolding new_internal rewrite write_children write_key_ends write_keys write_bytes write_le read_le
program = tt

abbrev blank : Page
blank = (new_internal 7 (replicate 4096 0)).page

blank_holds : CanHold blank (10 ∷ 20 ∷ 30 ∷ []) ((3 ∷ []) ∷ (7 ∷ []) ∷ [])
unfolding program
blank_holds = record {
  whole = refl;
  is_internal = refl;
  one_more = refl;
  ids = (omega arith, (omega arith, (omega arith, tt)));
  room = omega arith;
}

rewrite-StandsFor_example :
    StandsFor blank
      (rewrite blank (10 ∷ 20 ∷ 30 ∷ []) ((3 ∷ []) ∷ (7 ∷ []) ∷ []))
      (10 ∷ 20 ∷ 30 ∷ [])
      ((3 ∷ []) ∷ (7 ∷ []) ∷ [])
rewrite-StandsFor_example =
    rewrite-StandsFor blank (10 ∷ 20 ∷ 30 ∷ []) ((3 ∷ []) ∷ (7 ∷ []) ∷ []) blank_holds

abbrev node : Page
node = rewrite blank (10 ∷ 20 ∷ 30 ∷ []) ((3 ∷ []) ∷ (7 ∷ []) ∷ [])

node_valid : IsInternal node
node_valid = rewrite-StandsFor_example.valid

two_keys : num_keys node ≡ 2
unfolding program
two_keys = refl

insert_key_and_right_child-Inserts_example :
    Inserts node node_valid 1 (5 ∷ []) 25 (insert_key_and_right_child node 1 (5 ∷ []) 25)
insert_key_and_right_child-Inserts_example =
    insert_key_and_right_child-Inserts node node_valid 1 (5 ∷ []) 25 (omega (arith, two_keys))
      (omega arith)

remove_key_at-removed_example :
    (page' : Page) × (remove_key_at node 0 right ≡ some page')
    × StandsFor node page'
        (removed (dropped node node_valid 0 right) (snapshot node).0)
        (removed 0 (snapshot node).1)
remove_key_at-removed_example =
    remove_key_at-removed node node_valid 0 right (omega (arith, two_keys))

compare-IsOrder : IsOrder compare
compare-IsOrder = record { less = λ a b c h e. ground arith; greater = λ a b c h e. ground arith }

compare-IsTotal : IsTotal compare
compare-IsTotal = record { flip = λ a b h e. ground arith }

two-Ascending : Ascending compare (3 ∷ 7 ∷ [])
two-Ascending = ((λ e. ground arith, tt), (tt, tt))

two_held : (snapshot node).1 ≡ map (le_key 1).value.as_bytes (3 ∷ 7 ∷ [])
unfolding program
two_held = refl

find_child-route_example :
    find_child (le_key 1) node 5
    ≡ some (route compare (3 ∷ 7 ∷ []) 5, child_page_at node (route compare (3 ∷ 7 ∷ []) 5))
find_child-route_example =
    find_child-route (le_key 1) node (3 ∷ 7 ∷ []) 5 (le_key-IsKey 1) compare-IsOrder (omega arith)
      (omega arith, (omega arith, tt)) two-Ascending node_valid two_held

split_holds : CanHold node (inserted 2 25 (snapshot node).0) (inserted 1 (5 ∷ []) (snapshot node).1)
unfolding program
split_holds = record {
  whole = node_valid.size;
  is_internal = node_valid.typed;
  one_more = refl;
  ids = (omega arith, (omega arith, (omega arith, (omega arith, tt))));
  room = omega arith;
}

find_child-rerouted_example :
    (i : ℕ) × (find_child
        (le_key 1)
        (rewrite node (inserted 2 25 (snapshot node).0) (inserted 1 (5 ∷ []) (snapshot node).1))
        6
      ≡ some (i, next_child compare-IsOrder compare-IsTotal 5 6 node (3 ∷ 7 ∷ []) 25))
unfolding program
find_child-rerouted_example =
    find_child-rerouted (le_key 1) node
      (rewrite node (inserted 2 25 (snapshot node).0) (inserted 1 (5 ∷ []) (snapshot node).1))
      (3 ∷ 7 ∷ []) 5 6 25 (le_key-IsKey 1) compare-IsOrder compare-IsTotal (omega arith)
      (omega arith) (omega arith, (omega arith, tt)) two-Ascending two_held
      (rewrite-StandsFor node _ _ split_holds)
