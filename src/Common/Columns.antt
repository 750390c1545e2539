-- ===== src/Common/Columns.antt =====
-- The `numeric` columns of the entities: what the database stores for a text, and refuses.
use mathlib.Core.Path.{◌≡◌}
use mathlib.Core.Option.{Option, none, some}
use mathlib.Core.List.{◌∷◌, ◌++◌}
use diaspora_equb_product.Common.Tests.{if◌then◌else◌}
use diaspora_equb_product.Common.Strings.{Text, text_eq}
use diaspora_equb_product.Common.Int.{ℤ}
use diaspora_equb_product.Common.Decimal.{print_ℤ}
use diaspora_equb_product.Common.Throws.{Result, ok, err, Fault}

-- What a numeric column stores for a text that is written; `column` is the database's, and a
-- column whose text has not changed is not written.
unfoldable pub written : (Text → Option Text) → Option Text → Text → Result Text
written column none new = elim (column new) [ none ↦ err Fault.numeric_overflow | some t ↦ ok t ]
written column (some old) new =
    let fresh : Result Text = elim (column new) [
      | none ↦ err Fault.numeric_overflow
      | some t ↦ ok t
    ] in
    if text_eq old new then ok old else fresh

-- A numeric column prints an integer with its decimals, as `numeric(36, 18)` does.
pub record IsDecimalColumn (column : Text → Option Text) : Type 0 where
  pub decimals :
      (z : ℤ) (t : Text) → column (print_ℤ z) ≡ some t → (f : Text) × (t ≡ print_ℤ z ++ b'.' ∷ f)
