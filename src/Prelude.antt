-- ===== src/Prelude.antt =====
-- Names that all parts share: the libraries', passed on, and the helpers of the children.
mod Tests
mod Lists
mod Texts
pub mod Outcome
pub mod Bits
pub mod Int
pub use Tests.*
pub use Lists.*
pub use Texts.*
pub use Outcome.{
  Result, ok, err, Ensures, holds, fails, Ensures-ok, Ensures-err, Ensures-bind, Ensures-map,
  Ensures-if,
}
pub use Prim.Native.Nat.{ℕ, zero, suc, ◌+◌, ◌-◌, ◌*◌, ◌/◌, ◌%◌, ◌^◌, ◌≤◌, ◌<◌, min, max}
pub use mathlib.Core.Path.{◌≡◌, refl, sym, ap, ◌∙◌, subst}
pub use mathlib.Core.Logic.{◌≢◌, ◌↔◌, ◌⊎◌, inl, inr}
pub use mathlib.Core.Bool.{Bool, true, false, not, ◌&&◌, ◌||◌}
pub use mathlib.Core.Option.{Option, none, some}
pub use mathlib.Core.List.{List, [], ◌∷◌, ◌++◌, map, reverse, append_assoc, append-nil}
pub use native.Mathlib.Omega.{arith}
