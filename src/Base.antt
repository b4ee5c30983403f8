-- ===== src/Base.antt =====
-- What the models of all plugins share: library names passed on, Boolean tests on numbers, lists
-- measured by native numbers, Go strings and byte slices, and the results of Go calls.
mod Tests
mod Lists
mod Text
mod Strings
mod Outcome
mod Reads
pub mod Table
pub use Tests.*
pub use Lists.*
unfoldable pub use Text.*
unfoldable pub use Strings.*
pub use Outcome.*
unfoldable pub use Reads.*
pub use Prim.Native.Nat.{ℕ, zero, suc, ◌+◌, ◌-◌, ◌*◌, ◌/◌, ◌%◌, ◌^◌, ◌≤◌, ◌<◌}
pub use mathlib.Core.Path.{◌≡◌, refl, sym, ap, subst, ◌∙◌}
pub use mathlib.Core.Logic.{◌≢◌, ◌↔◌, ◌⊎◌, inl, inr}
pub use mathlib.Core.Bool.{Bool, true, false, not, ◌&&◌, ◌||◌}
pub use mathlib.Core.Option.{Option, none, some}
pub use mathlib.Core.List.{List, [], ◌∷◌, ◌++◌, map}
pub use native.Mathlib.Omega.{arith}
