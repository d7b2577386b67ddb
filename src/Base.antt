-- ===== src/Base.antt =====
-- The names that the other modules share: those of the libraries, passed on, the tests on native
-- numbers, lists indexed by native numbers, and the integers of a C `int` or `long`.
mod Tests
mod Lists
mod Cases
pub mod Int
pub mod Arith
pub mod Slices
pub use Tests.*
pub use Lists.*
unfoldable pub use Cases.*
pub use Prim.Native.Nat.{ℕ, zero, suc, ◌+◌, ◌-◌, ◌*◌, ◌/◌, ◌%◌, ◌^◌, ◌≤◌, ◌<◌}
pub use mathlib.Core.Path.{◌≡◌, refl, sym, ap, ◌∙◌}
pub use mathlib.Core.Logic.{◌≢◌, ◌↔◌, ◌⊎◌, inl, inr}
pub use mathlib.Core.Bool.{Bool, true, false, not, ◌&&◌, ◌||◌}
pub use mathlib.Core.Option.{Option, none, some}
pub use mathlib.Core.List.{List, [], ◌∷◌, ◌++◌, map}
pub use native.Mathlib.Omega.{arith}
