-- ===== src/Common.antt =====
-- The names that the other modules share: the libraries', passed on, and those of the children
-- below (tests on numbers and texts, lists, and JavaScript's `Map`).
mod Tests
mod Lists
mod Dict
pub mod TextOrder
pub use Tests.*
pub use Lists.*
pub use Dict.{
  values, lookup-cons, lookup-insert, lookup-remove, lookup-insert_self, length-insert-le,
  length-remove-le, length-remove-lt, insert_new, Each, Each-lookup, Each-insert, Each-remove,
}
unfoldable pub use Dict.{lookup, insert, remove}
pub use Prim.Native.Nat.{ℕ, zero, suc, ◌+◌, ◌-◌, ◌*◌, ◌/◌, ◌%◌, ◌^◌, ◌≤◌, ◌<◌, min, max}
pub use Prim.Native.String.{String}
pub use mathlib.Core.Path.{◌≡◌, refl, sym, ap, subst, ◌∙◌}
pub use mathlib.Core.Logic.{◌≢◌, ◌↔◌, ◌⊎◌, inl, inr}
pub use mathlib.Core.Bool.{Bool, true, false, ◌&&◌, ◌||◌, not}
pub use mathlib.Core.Option.{Option, none, some}
pub use mathlib.Core.List.{List, [], ◌∷◌, ◌++◌, map}
pub use native.Mathlib.Omega.{arith}
pub use text.Mathlib.TextEquality.{eq_iff}
