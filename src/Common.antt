-- ===== src/Common.antt =====
-- Names that every module shares: the libraries' names, passed on, and those of the children:
-- Boolean tests, lists over the native numbers, byte strings, and the outcome of a call.
mod Tests
mod Lists
mod Text
mod Effects
mod Integers
pub use Tests.*
pub use Lists.*
unfoldable pub use Text.*
unfoldable pub use Effects.*
pub use Integers.*
pub use Prim.Native.Nat.{ℕ, zero, suc, ◌+◌, ◌-◌, ◌*◌, ◌/◌, ◌%◌, ◌^◌, ◌≤◌, ◌<◌}
pub use mathlib.Core.Path.{◌≡◌, refl, sym, ap, ◌∙◌}
pub use mathlib.Core.Logic.{◌≢◌, ◌↔◌, ◌⊎◌, inl, inr}
pub use mathlib.Core.Bool.{Bool, true, false, not, ◌&&◌, ◌||◌}
pub use mathlib.Core.Option.{Option, none, some}
pub use mathlib.Core.List.{List, [], ◌∷◌, ◌++◌, map, append_assoc, append-nil}
pub use native.Mathlib.Omega.{arith}
