-- ===== src/Prelude.antt =====
-- The names that the other modules share: the libraries', passed on, and those of the children.
mod Tests
mod Lists
mod Members
mod Tables
mod Texts
mod Keyed
mod Dicts
mod Items
mod Sorting
pub mod Flow
pub use Tests.*
pub use Lists.*
pub use Members.*
pub use Tables.*
pub use Texts.*
pub use Keyed.*
pub use Dicts.*
pub use Items.*
unfoldable pub use Sorting.{text_leb, nullable_leb, insert_sorted, sort}
pub use Sorting.{length-sort, In-sort_iff}
pub use Prim.Native.Nat.{ℕ, zero, suc, ◌+◌, ◌-◌, ◌*◌, ◌/◌, ◌%◌, ◌≤◌, ◌<◌}
pub use Prim.Native.String.{String}
pub use mathlib.Core.Path.{◌≡◌, refl, sym, ap, subst, ◌∙◌}
pub use mathlib.Core.Logic.{◌≢◌, ◌↔◌, ◌⊎◌, inl, inr}
pub use mathlib.Core.Bool.{Bool, true, false, not, ◌&&◌, ◌||◌}
pub use mathlib.Core.Option.{Option, none, some}
pub use mathlib.Core.List.{List, [], ◌∷◌, ◌++◌, map}
pub use native.Mathlib.Omega.{arith}
