-- ===== src/Common.antt =====
-- Names, tests, list and text helpers that every part of the model shares.
mod Tests
mod Lists
mod Slices
mod Texts
mod Keyed
mod Unique
mod Decimals
pub mod Integers
pub use Tests.*
pub use Lists.*
pub use Slices.*
unfoldable pub use Texts.*
unfoldable pub use Keyed.*
pub use Unique.*
unfoldable pub use Decimals.*
pub use Prim.Native.Nat.{ℕ, zero, suc, ◌+◌, ◌-◌, ◌*◌, ◌/◌, ◌%◌, ◌≤◌, ◌<◌, min, max}
pub use mathlib.Core.Path.{◌≡◌, refl, sym, ap, ◌∙◌, subst}
pub use mathlib.Core.Logic.{◌≢◌, ◌↔◌, ◌⊎◌, inl, inr}
pub use mathlib.Core.Bool.{Bool, true, false, not, ◌&&◌, ◌||◌}
pub use mathlib.Core.Option.{Option, none, some}
pub use mathlib.Core.List.{List, [], ◌∷◌, ◌++◌, map, append_assoc, append-nil}
pub use native.Mathlib.Omega.{arith}
unfoldable pub use mathlib.Core.List.{flat_map}
