-- ===== src/Common.antt =====
-- The names that the modules share: the libraries', passed on, and those of the children.
mod Tests
mod Lists
mod Collect
mod Maps
pub use Tests.*
pub use Lists.*
pub use Collect.*
unfoldable pub use Maps.{get, insert, remove, contains_key, keys, values, retain}
pub use Maps.{
  get-insert, get-remove, contains-keys, get_of_contains_key, contains_key_of_get, contains-values,
  contains_key-insert, contains_key-remove, contains-values-remove, IsMap, remove-IsMap,
  insert-IsMap, retain-IsMap, get-retain, get_of_contains-values, get-eq-none,
}
pub use Prim.Native.Nat.{ℕ, zero, suc, ◌+◌, ◌-◌, ◌*◌, ◌/◌, ◌%◌, ◌^◌, ◌≤◌, ◌<◌}
pub use mathlib.Core.Path.{◌≡◌, refl, sym, ap, ◌∙◌}
pub use mathlib.Core.Logic.{◌≢◌, ◌↔◌, ◌⊎◌, inl, inr}
pub use mathlib.Core.Bool.{Bool, true, false, not, ◌&&◌, ◌||◌}
pub use mathlib.Core.Option.{Option, none, some}
pub use mathlib.Core.List.{List, [], ◌∷◌, ◌++◌, map, append_assoc, append-nil}
pub use native.Mathlib.Omega.{arith}
