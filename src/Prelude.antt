-- ===== src/Prelude.antt =====
-- Names that the whole development shares: those of the libraries, passed on, Python's `==` and
-- `in`, and the operations on lists and texts that the components have in common.
mod Equality
mod Lists
mod Members
mod Repeats
mod Forall
unfoldable pub use Equality.*
unfoldable pub use Lists.*
pub use Members.*
pub use Repeats.*
pub use Forall.*
pub use Prim.Native.Nat.{ℕ, zero, suc, ◌+◌, ◌-◌, ◌*◌, ◌/◌, ◌%◌, ◌≤◌, ◌<◌}
pub use Prim.Native.String.{String}
pub use mathlib.Core.Path.{◌≡◌, refl, sym, ap, ◌∙◌, subst}
pub use mathlib.Core.Logic.{◌≢◌, ◌↔◌, ◌⊎◌, inl, inr, ite}
pub use mathlib.Core.Bool.{Bool, true, false, ◌&&◌, ◌||◌, not}
pub use mathlib.Core.Option.{Option, none, some}
pub use mathlib.Core.List.{List, [], ◌∷◌, ◌++◌, map}
pub use native.Mathlib.Omega.{arith}
