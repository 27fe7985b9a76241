-- ===== src/Common.antt =====
-- The names that all parts share: the libraries', passed on, tests on numbers, lists and bytes.
mod Tests
mod Lists
mod Outcomes
mod Bytes
mod Text
pub mod Int
pub mod Bits
pub use Tests.*
pub use Lists.*
pub use Outcomes.*
unfoldable pub use Bytes.*
pub use Text.*
pub use Prim.Native.Nat.{ℕ, zero, suc, ◌+◌, ◌-◌, ◌*◌, ◌/◌, ◌%◌, ◌^◌, ◌≤◌, ◌<◌, bit_and, bit_or}
pub use mathlib.Core.Path.{◌≡◌, refl, sym, ap, subst, ◌∙◌}
pub use mathlib.Core.Logic.{◌≢◌, ◌↔◌, ◌⊎◌, inl, inr}
pub use mathlib.Core.Bool.{Bool, true, false, not, ◌&&◌, ◌||◌}
pub use mathlib.Core.Option.{Option, none, some}
pub use mathlib.Core.List.{List, [], ◌∷◌, ◌++◌, map, foldl}
pub use native.Mathlib.Omega.{arith}
