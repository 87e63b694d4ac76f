-- ===== src/Prelude.antt =====
-- The names that the other modules share: those of the libraries, the Boolean tests on native
-- numbers and the lists measured by them.
mod Tests
mod Lists
mod Slices
mod Sorting
pub mod Int
pub mod Maps
mod Predicates
pub use Tests.*
pub use Lists.*
unfoldable pub use Slices.*
pub use Predicates.*
unfoldable pub use Sorting.*
pub use Prim.Native.Nat.{ℕ, zero, suc, ◌+◌, ◌-◌, ◌*◌, ◌/◌, ◌%◌, ◌^◌, ◌≤◌, ◌<◌, min}
pub use mathlib.Core.Path.{◌≡◌, refl, sym, ap, ap₂, subst, ◌∙◌}
pub use mathlib.Core.Logic.{◌≢◌, ◌↔◌, ◌⊎◌, inl, inr}
pub use mathlib.Core.Bool.{Bool, true, false, not, ◌&&◌, ◌||◌}
pub use mathlib.Core.Option.{Option, none, some}
pub use mathlib.Core.List.{List, [], ◌∷◌, ◌++◌, map, append-nil, append_assoc}
pub use native.Mathlib.Omega.{arith}
