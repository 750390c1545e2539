-- ===== src/Common.antt =====
-- The names that the other modules share: the libraries', passed on, and those of the children:
-- Boolean tests (`Tests`), lists over the native numbers (`Lists`), text as lists of code points
-- (`Strings`), signed integers (`Int`), the printed form of integers (`Decimal`), tables of rows
-- (`Tables`), sorting (`Sorting`) and exceptions (`Throws`).
mod Tests
mod Lists
mod Strings
mod Tables
mod Sorting
mod Throws
mod Int
mod Decimal
mod Columns
unfoldable pub use Tests.*
unfoldable pub use Lists.*
unfoldable pub use Strings.*
unfoldable pub use Tables.*
unfoldable pub use Sorting.*
unfoldable pub use Throws.*
unfoldable pub use Int.*
unfoldable pub use Decimal.*
unfoldable pub use Decimal.Dots.*
unfoldable pub use Columns.*
pub use Prim.Native.Nat.{ℕ, zero, suc, ◌+◌, ◌-◌, ◌*◌, ◌/◌, ◌%◌, ◌^◌, ◌≤◌, ◌<◌, min, max}
pub use mathlib.Core.Path.{◌≡◌, refl, sym, ap, ◌∙◌, subst}
pub use mathlib.Core.Logic.{◌≢◌, ◌↔◌, ◌⊎◌, inl, inr}
pub use mathlib.Core.Bool.{Bool, true, false, not, ◌&&◌, ◌||◌}
pub use mathlib.Core.Option.{Option, none, some}
pub use mathlib.Core.List.{List, [], ◌∷◌, ◌++◌, map, append-nil, append_assoc}
pub use native.Mathlib.Omega.{arith}
