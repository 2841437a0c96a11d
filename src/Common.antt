-- ===== src/Common.antt =====
-- The names that every module shares: the libraries', passed on, and those of the children. No code
-- of the repository is modelled here, but Python's own tests, lists and exceptions.
mod Tests
mod Lists
mod Exceptions
mod Int
mod Dicts
pub use Tests.*
pub use Lists.*
pub use Exceptions.*
pub use Int.*
pub use Dicts.*
pub use Prim.Native.Nat.{ℕ, zero, suc, ◌+◌, ◌-◌, ◌*◌, ◌/◌, ◌%◌, ◌≤◌, ◌<◌, min, max}
pub use mathlib.Core.Path.{◌≡◌, refl, sym, ap, ap₂, ◌∙◌}
pub use mathlib.Core.Logic.{◌≢◌, ◌↔◌, ◌⊎◌, inl, inr}
pub use mathlib.Core.Bool.{Bool, true, false, not, ◌&&◌, ◌||◌}
pub use mathlib.Core.Option.{Option, none, some}
pub use mathlib.Core.List.{List, [], ◌∷◌, ◌++◌, map}
pub use native.Mathlib.Omega.{arith}
