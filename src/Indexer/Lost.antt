-- ===== src/Indexer/Lost.antt =====
-- Amounts as a numeric column gives them back, and `BigInt` on them, in the indexer's handlers.
pub mod Streams
pub mod Deposits
use diaspora_equb_product.Common.{
  written, IsDecimalColumn, ℕ, ◌≡◌, refl, sym, ◌∙◌, ap, subst, true, false, ◌&&◌, Option, none,
  some, [], ◌∷◌, ◌++◌, Text, arith, ◌==◌, ==_self, text_eq, text_eq_self, ok, err, Fault, find_one,
  find_one-append_none, any-find_one-none, outcome_cases, result_cases, Option-cases, inl, inr, ℤ,
  pos, print_ℤ, big_int_of_dot, has_dot, has_dot-append,
}
use diaspora_equb_product.Pools.Entities.{Pool, PayoutStream, Db}
use diaspora_equb_product.Pools.Store.{find_on_chain, find_stream, insert_stream}
use diaspora_equb_product.Pools.Streams.{upfront_part}
use diaspora_equb_product.Collateral.Store.{Collateral, Vault, find_collateral, save_collateral}
use diaspora_equb_product.Collateral.{new_collateral}
use diaspora_equb_product.Collateral.Amounts.{save_collateral-Saved}
use diaspora_equb_product.Indexer.Events.{ChainEvent, EventLog}
use diaspora_equb_product.Indexer.State.{Index, Chain}
use diaspora_equb_product.Indexer.Handlers.{
  handle_stream_created, handle_round_released, big_int_of,
}
use diaspora_equb_product.Indexer.Money.{amount_of, handle_collateral_deposited}
use diaspora_equb_product.Indexer.Dispatch.{dispatch, handle_event}

-- A text that a numeric column stores for an integer has a dot.
pub has_dot_of_column :
    (column : Text → Option Text) (z : ℤ) (t : Text)
    → IsDecimalColumn column
    → written column none (print_ℤ z) ≡ ok t
    → has_dot t ≡ true
unfolding written
has_dot_of_column column z t d h = elim (Option-cases (column (print_ℤ z))) [
  | inl e ↦ absurd (ground arith)
  | inr (u, e) ↦ let (f, shape) = d.decimals z u e in ground (arith, has_dot-append (print_ℤ z) f)
]

-- `BigInt` throws on it.
pub big_int_of_column :
    (column : Text → Option Text) (z : ℤ) (t : Text)
    → IsDecimalColumn column
    → written column none (print_ℤ z) ≡ ok t
    → big_int_of t ≡ err Fault.syntax_error
unfolding big_int_of
big_int_of_column column z t d h =
    ground (arith, big_int_of_dot t (has_dot_of_column column z t d h))

pub amount_of_column :
    (column : Text → Option Text) (z : ℤ) (t : Text)
    → IsDecimalColumn column
    → written column none (print_ℤ z) ≡ ok t
    → amount_of t ≡ err Fault.syntax_error
unfolding amount_of
amount_of_column column z [] d h = absurd (ground (arith, has_dot_of_column column z [] d h))
amount_of_column column z (x ∷ t) d h = big_int_of_column column z (x ∷ t) d h
