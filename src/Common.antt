-- ===== src/Common.antt =====
-- The names that the other modules share: the libraries' names, passed on, the Boolean tests, lists
-- over the native numbers, stable sorting, machine words and texts.
mod Tests
mod Lists
pub mod Order
pub mod Words
pub mod Text
pub mod Permutations
pub mod Results
pub use Tests.*
pub use Lists.*
pub use Prim.Native.Nat.{ℕ, zero, suc, ◌+◌, ◌-◌, ◌*◌, ◌/◌, ◌%◌, ◌^◌, ◌≤◌, ◌<◌, min, max}
pub use mathlib.Core.Path.{◌≡◌, refl, sym, ap, ◌∙◌, subst}
pub use mathlib.Core.Logic.{◌≢◌, ◌↔◌, ◌⊎◌, inl, inr}
pub use mathlib.Core.Bool.{Bool, true, false, not, ◌&&◌, ◌||◌}
pub use mathlib.Core.Option.{Option, none, some}
pub use mathlib.Core.List.{List, [], ◌∷◌, ◌++◌, map, reverse, Perm, append_assoc, append-nil}
pub use native.Mathlib.Omega.{arith}
