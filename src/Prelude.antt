-- ===== src/Prelude.antt =====
-- The names that the other modules share: those of the libraries, passed on, and those of the
-- children for tests, lists, results, texts, signed numbers and sorting.
mod Tests
mod Lists
mod Results
mod Texts
mod Strip
mod Split
mod Decimal
mod Values
mod Sort
mod Dicts
mod Among
mod Order
unfoldable pub use Tests.*
unfoldable pub use Lists.*
unfoldable pub use Results.*
unfoldable pub use Texts.*
unfoldable pub use Strip.*
unfoldable pub use Split.*
unfoldable pub use Decimal.*
unfoldable pub use Values.*
unfoldable pub use Sort.*
unfoldable pub use Dicts.*
unfoldable pub use Among.*
unfoldable pub use Order.*
pub use Prim.Native.Nat.{ℕ, zero, suc, ◌+◌, ◌-◌, ◌*◌, ◌/◌, ◌%◌, ◌^◌, ◌≤◌, ◌<◌, min, max}
pub use mathlib.Core.Path.{◌≡◌, refl, sym, ap, subst, ◌∙◌}
pub use mathlib.Core.Logic.{◌≢◌, ◌↔◌, ◌⊎◌, inl, inr}
pub use mathlib.Core.Bool.{Bool, true, false, not, ◌&&◌, ◌||◌}
pub use mathlib.Core.Option.{Option, none, some}
pub use mathlib.Core.List.{List, [], ◌∷◌, ◌++◌, map}
pub use native.Mathlib.Omega.{arith}
