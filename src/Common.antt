-- ===== src/Common.antt =====
-- What the modules share: names of the libraries passed on, Boolean tests, lists over the native
-- numbers, sets of numbers as lists, machine words, and the results of fallible code.
mod Tests
mod Lists
mod Members
mod Words
mod Maps
mod Strings
mod Sorting
mod SortedSets
mod Int
mod Keyed
mod KeyedLists
pub mod Result
pub use Tests.*
pub use Lists.*
unfoldable pub use Members.*
pub use Words.*
unfoldable pub use Sorting.*
pub use SortedSets.*
pub use KeyedLists.*
pub use Int.*
unfoldable pub use Keyed.*
unfoldable pub use Maps.*
unfoldable pub use Strings.*
pub use Prim.Native.Nat.{ℕ, zero, suc, ◌+◌, ◌-◌, ◌*◌, ◌/◌, ◌%◌, ◌^◌, ◌≤◌, ◌<◌, min}
pub use Prim.Native.String.{String}
pub use mathlib.Core.Path.{◌≡◌, refl, sym, ap, ◌∙◌}
pub use mathlib.Core.Logic.{◌≢◌, ◌↔◌, ◌⊎◌, inl, inr, ⊎_elim}
pub use mathlib.Core.Bool.{Bool, true, false, ◌&&◌, ◌||◌, not}
pub use mathlib.Core.Option.{Option, none, some}
pub use mathlib.Core.List.{List, [], ◌∷◌, ◌++◌, map}
pub use native.Mathlib.Omega.{arith}
