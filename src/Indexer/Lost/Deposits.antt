-- ===== src/Indexer/Lost/Deposits.antt =====
-- `handleCollateralDeposited` on the available balance of a wallet.
use diaspora_equb_product.Common.{
  written, IsDecimalColumn, ℕ, ◌≡◌, sym, ◌∙◌, ap, subst, Option, none, some, Text, arith,
  text_eq_self, err, Fault, outcome_cases, result_cases, inl, inr, pos, print_ℤ,
}
use diaspora_equb_product.Collateral.Store.{Collateral, Vault, find_collateral, save_collateral}
use diaspora_equb_product.Collateral.{new_collateral}
use diaspora_equb_product.Collateral.Amounts.{save_collateral-Saved}
use diaspora_equb_product.Indexer.Events.{ChainEvent, EventLog}
use diaspora_equb_product.Indexer.State.{Index, Chain}
use diaspora_equb_product.Indexer.Money.{amount_of, handle_collateral_deposited}
use diaspora_equb_product.Indexer.Dispatch.{dispatch, handle_event}
use diaspora_equb_product.Indexer.Lost.{amount_of_column}

handle_event_deposited :
    (chain : Chain) (e : EventLog) (user : Text) (amount : ℕ) (s : Index)
    → e.event ≡ ChainEvent.collateral_deposited user amount
    → handle_event chain e s
      ≡ record s { vault = (handle_collateral_deposited chain user amount s.vault).1 }
unfolding handle_event dispatch
handle_event_deposited chain e user amount s h =
    ap (λ x. (dispatch chain x e.transaction_hash s).1) h

-- A row that is refused is not added.
save_collateral-err :
    (column : Text → Option Text) (c : Collateral) (v w : Vault) (e : Fault)
    → save_collateral column none c v ≡ (err e, w)
    → w ≡ v
unfolding save_collateral
save_collateral-err column c v w e h = elim (result_cases (written column none c.locked_amount)) [
  | inr (x, l) ↦ ground arith
  | inl (t, l) ↦ elim (result_cases (written column none c.slashed_amount)) [
    | inr (x, m) ↦ ground arith
    | inl (u, m) ↦ elim (result_cases (written column none c.available_balance)) [
      | inr (x, n) ↦ ground arith
      | inl (z, n) ↦ ground arith
    ]
  ]
]

-- The row that the first deposit of a wallet creates cannot be added to.
deposited_unreadable :
    (chain : Chain) (user : Text) (amount : ℕ) (v : Vault) (c : Collateral)
    → IsDecimalColumn chain.column
    → find_collateral user none v ≡ none
    → find_collateral user none (handle_collateral_deposited chain user amount v).1 ≡ some c
    → amount_of c.available_balance ≡ err Fault.syntax_error
unfolding handle_collateral_deposited
deposited_unreadable chain user amount v c d f g =
    let new : Collateral = record (new_collateral user none) {
      available_balance = print_ℤ (pos amount);
    } in
    elim (outcome_cases (save_collateral chain.column none new v)) [
      | inr (e, t, h) ↦ absurd (ground (arith, save_collateral-err chain.column new v t e h))
      | inl (u, t, h) ↦
          let saved =
            save_collateral-Saved chain.column user none none new v t f
              (λ o k. absurd (ground arith)) (text_eq_self user) (ground arith) in
          let same : saved.row ≡ c = ground (arith, saved.found) in
          let read =
            amount_of_column chain.column (pos amount) saved.row.available_balance d
              saved.available in
          ap (λ x. amount_of x.available_balance) (sym same) ∙ read
    ]

-- A deposit on an amount that cannot be read changes nothing.
deposit_dropped :
    (chain : Chain) (user : Text) (amount : ℕ) (v : Vault) (c : Collateral)
    → find_collateral user none v ≡ some c
    → amount_of c.available_balance ≡ err Fault.syntax_error
    → (handle_collateral_deposited chain user amount v).1 ≡ v
unfolding handle_collateral_deposited
deposit_dropped chain user amount v c f u = ground arith

-- Let the numeric columns store every integer with decimals, and let a wallet without collateral
-- outside the pools get its row by the `CollateralDeposited` event that is handled first. Then the
-- next `CollateralDeposited` event of the wallet changes nothing: its amount is lost.
pub handle_event-deposit_lost :
    (chain : Chain) (first second : EventLog) (user : Text) (a b : ℕ) (s : Index) (c : Collateral)
    → IsDecimalColumn chain.column
    → find_collateral user none s.vault ≡ none
    → first.event ≡ ChainEvent.collateral_deposited user a
    → second.event ≡ ChainEvent.collateral_deposited user b
    → find_collateral user none (handle_event chain first s).vault ≡ some c
    → handle_event chain second (handle_event chain first s) ≡ handle_event chain first s
handle_event-deposit_lost chain first second user a b s c d f h k g =
    let t : Index = record s { vault = (handle_collateral_deposited chain user a s.vault).1 } in
    let start = handle_event_deposited chain first user a s h in
    let found : find_collateral user none t.vault ≡ some c =
      sym (ap (λ w. find_collateral user none w.vault) start) ∙ g in
    let unread = deposited_unreadable chain user a s.vault c d f found in
    subst (λ w. handle_event chain second w ≡ w) (sym start)
      (handle_event_deposited chain second user b t k
        ∙ ap (λ v. record t { vault = v }) (deposit_dropped chain user b t.vault c found unread))
