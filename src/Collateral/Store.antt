-- ===== src/Collateral/Store.antt =====
-- The table of collaterals and what was sent on the chain.
use diaspora_equb_product.Common.{
  ℕ, ◌+◌, Bool, false, ◌&&◌, Option, none, some, List, [], ◌∷◌, ◌++◌, Text, any, text_eq, Action,
  Fault, find_one, update_row, lift, throw_if, modify, written, ◌>>=◌, ◌>>◌, opt_eq, ℤ,
}

pub record Collateral : Type 0 where
  pub id : ℕ
  pub wallet_address : Text
  pub pool_id : Option ℕ
  pub locked_amount : Text
  pub slashed_amount : Text
  pub available_balance : Text

pub record Transfer : Type 0 where
  pub token : Text
  pub to : Text
  pub amount : ℤ

pub record Vault : Type 0 where
  pub collaterals : List Collateral
  pub next_id : ℕ
  pub sent : List Transfer

abbrev pub collateral_key : Collateral → ℕ
collateral_key c = c.id

-- A condition on `poolId` that is `undefined` is left out of the query.
abbrev pub is_collateral : Text → Option ℕ → Collateral → Bool
is_collateral wallet none c = text_eq c.wallet_address wallet
is_collateral wallet (some p) c = text_eq c.wallet_address wallet && opt_eq c.pool_id p

abbrev pub find_collateral : Text → Option ℕ → Vault → Option Collateral
find_collateral wallet pool_id s = find_one (is_collateral wallet pool_id) s.collaterals

-- The unique index on wallet and pool, which rows without a pool do not enter.
abbrev taken : Collateral → List Collateral → Bool
taken c rows = elim c.pool_id [
  | none ↦ false
  | some p ↦ any (is_collateral c.wallet_address (some p)) rows
]

-- `collateralRepo.save` of a row that was loaded as `loaded`, or created.
unfoldable pub save_collateral :
    (Text → Option Text) → Option Collateral → Collateral → Action Vault (Unit {0})
save_collateral column none c s =
    (do
      locked ← lift (written column none c.locked_amount)
      slashed ← lift (written column none c.slashed_amount)
      available ← lift (written column none c.available_balance)
      throw_if (taken c s.collaterals) Fault.unique_violation
      let row : Collateral = record c {
        id = s.next_id;
        locked_amount = locked;
        slashed_amount = slashed;
        available_balance = available;
      }
      modify (λ t. record t { collaterals = s.collaterals ++ row ∷ []; next_id = s.next_id + 1 }))
      s
save_collateral column (some old) c s =
    (do
      locked ← lift (written column (some old.locked_amount) c.locked_amount)
      slashed ← lift (written column (some old.slashed_amount) c.slashed_amount)
      available ← lift (written column (some old.available_balance) c.available_balance)
      let row : Collateral = record c {
        locked_amount = locked;
        slashed_amount = slashed;
        available_balance = available;
      }
      modify (λ t. record t { collaterals = update_row collateral_key row s.collaterals }))
      s
