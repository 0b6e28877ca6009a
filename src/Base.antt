-- ===== src/Base.antt =====
-- The names that the components share: the libraries' and those of its children.
mod Tests
mod Lists
mod Words
mod Counts
mod Fill
mod Texts
pub mod Reals
pub mod Sample
pub mod Results
pub mod Options
pub use Tests.*
pub use Lists.*
pub use Words.*
pub use Counts.*
pub use Fill.*
unfoldable pub use Texts.*
pub use Prim.Native.Nat.{ℕ, zero, suc, ◌+◌, ◌-◌, ◌*◌, ◌/◌, ◌%◌, ◌^◌, ◌≤◌, ◌<◌}
pub use mathlib.Core.Path.{◌≡◌, refl, sym, ap, subst, ◌∙◌}
pub use mathlib.Core.Logic.{◌≢◌, ◌↔◌, ◌⊎◌, inl, inr}
pub use mathlib.Core.Bool.{Bool, true, false, not, ◌&&◌, ◌||◌}
pub use mathlib.Core.Option.{Option, none, some}
pub use mathlib.Core.List.{List, [], ◌∷◌, ◌++◌, map}
pub use native.Mathlib.Omega.{arith}
