-- ===== src/Base.antt =====
-- Names that the whole development shares: the libraries', passed on, and those of the children.
-- Base/Tests has the Boolean tests, Base/Lists the lists measured by native numbers, Base/Assoc the
-- Go maps as association lists.
mod Tests
mod Lists
mod Indexing
mod Assoc
mod Ints
pub use Tests.*
pub use Lists.*
pub use Indexing.*
unfoldable pub use Assoc.*
unfoldable pub use Ints.*
pub use Prim.Native.Nat.{ℕ, zero, suc, ◌+◌, ◌-◌, ◌*◌, ◌/◌, ◌%◌, ◌^◌, ◌≤◌, ◌<◌, min}
pub use mathlib.Core.Path.{◌≡◌, refl, sym, ap, ap₂, subst, ◌∙◌}
pub use mathlib.Core.Logic.{◌≢◌, ◌↔◌, ◌⊎◌, inl, inr}
pub use mathlib.Core.Bool.{Bool, true, false, not, ◌&&◌, ◌||◌}
pub use mathlib.Core.Option.{Option, none, some}
pub use mathlib.Core.List.{List, [], ◌∷◌, ◌++◌, map}
pub use native.Mathlib.Omega.{arith}
