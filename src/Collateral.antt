-- ===== src/Collateral.antt =====
-- CollateralService (backend/src/collateral/collateral.service.ts).
pub mod Store
pub mod Amounts
pub mod Slash
pub mod Release
mod Tests
use diaspora_equb_product.Common.{
  ℕ, ◌+◌, Bool, true, false, not, ◌&&◌, Option, none, some, List, [], ◌∷◌, ◌++◌, Text, codes,
  if◌then◌else◌, or_else, text_eq, to_upper, trim, is_blank, Result, ok, err, Action, Fault, gets,
  pure, lift, some_or, throw_if, ◌>>=◌, ◌>>◌, ℤ, pos, ◌+ℤ◌, ◌-ℤ◌, ltb_ℤ, print_ℤ, big_int, ◌==◌,
}
use diaspora_equb_product.Pools.Season.{zero_address}
use diaspora_equb_product.Collateral.Store.{
  Collateral, Transfer, Vault, find_collateral, save_collateral,
}

-- The text before the first dot.
abbrev pub before_dot : Text → Text
before_dot [] = []
before_dot (c ∷ s) = let rest = before_dot s in if c == b'.' then [] else c ∷ rest

-- `parseAmountToBigInt` of a text.
unfoldable pub parse_amount : Text → Result ℤ
parse_amount value =
    let s = trim (before_dot value) in
    elim (big_int (if is_blank s then codes "0" else s)) [
      | none ↦ err Fault.syntax_error
      | some z ↦ ok z
    ]

unfoldable pub new_collateral : Text → Option ℕ → Collateral
new_collateral wallet pool_id = record {
  id = 0;
  wallet_address = wallet;
  pool_id = pool_id;
  locked_amount = codes "0";
  slashed_amount = codes "0";
  available_balance = codes "0";
}

-- `lock`; gives the locked amount of the response.
unfoldable pub lock : (Text → Option Text) → Text → Text → Option ℕ → Action Vault Text
lock column wallet amount pool_id = do
  loaded ← gets (find_collateral wallet pool_id)
  let collateral = or_else loaded (new_collateral wallet pool_id)
  current ← lift (parse_amount collateral.locked_amount)
  added ← lift (parse_amount amount)
  let locked = print_ℤ (current +ℤ added)
  save_collateral column loaded (record collateral { locked_amount = locked })
  pure locked

-- `confirmTokenDeposit`, which reads the amounts in the other order; gives the locked amount and
-- the available balance of the response.
unfoldable pub confirm_token_deposit :
    (Text → Option Text) → Text → Text → Action Vault (Text × Text)
confirm_token_deposit column wallet amount = do
  loaded ← gets (find_collateral wallet none)
  let collateral = or_else loaded (new_collateral wallet none)
  added ← lift (parse_amount amount)
  current ← lift (parse_amount collateral.locked_amount)
  let locked = print_ℤ (current +ℤ added)
  save_collateral column loaded (record collateral { locked_amount = locked })
  pure (locked, collateral.available_balance)

-- `actualSlash`
abbrev pub actual_slash : ℤ → ℤ → ℤ
actual_slash current amount = if ltb_ℤ current amount then current else amount

-- `slash`; gives the slashed amount and the remaining locked one.
unfoldable pub slash : (Text → Option Text) → Text → Text → Option ℕ → Action Vault (Text × Text)
slash column wallet amount pool_id = do
  collateral ← some_or (← gets (find_collateral wallet pool_id)) Fault.not_found
  current ← lift (parse_amount collateral.locked_amount)
  asked ← lift (parse_amount amount)
  slashed ← lift (parse_amount collateral.slashed_amount)
  let remaining = print_ℤ (current -ℤ actual_slash current asked)
  save_collateral column (some collateral) (record collateral {
    locked_amount = remaining;
    slashed_amount = print_ℤ (slashed +ℤ actual_slash current asked);
  })
  pure (print_ℤ (actual_slash current asked), remaining)

-- The chain and its configuration: the deployer's address, the token addresses by symbol,
-- `decimals()`, `ethers.parseUnits`, and the hash of a transfer that is mined.
pub record TokenChain : Type 0 where
  pub signer : Option Text
  pub token_addresses : Text → Option Text
  pub decimals : Text → Option ℕ
  pub parse_units : Text → ℕ → Option ℤ
  pub transfer : Text → Text → ℤ → Option Text

-- `getTokenAddress`
unfoldable pub get_token_address : TokenChain → Text → Result Text
get_token_address chain symbol = elim (chain.token_addresses (to_upper symbol)) [
  | none ↦ err Fault.bad_request
  | some a ↦
      if is_blank a
      then err Fault.bad_request
      else if text_eq a zero_address
      then err Fault.bad_request
      else ok a
]

unfoldable pub send_tokens : TokenChain → Text → Text → ℤ → Action Vault Text
send_tokens chain token wallet amount_wei s = elim (chain.transfer token wallet amount_wei) [
  | none ↦ (err Fault.chain_error, s)
  | some hash ↦ (
    ok hash,
    record s { sent = s.sent ++ record { token = token; to = wallet; amount = amount_wei } ∷ [] },
  )
]

-- `releaseTokenCollateral`; gives the hash, the locked amount and the available balance of the
-- response.
unfoldable pub release_token_collateral :
    (Text → Option Text) → TokenChain → Text → Text → Text → Action Vault (Text × Text × Text)
release_token_collateral column chain wallet amount symbol = do
  some_or chain.signer Fault.bad_request
  token ← lift (get_token_address chain symbol)
  decimals ← some_or (chain.decimals token) Fault.chain_error
  amount_wei ← some_or (chain.parse_units amount decimals) Fault.type_error
  collateral ← some_or (← gets (find_collateral wallet none)) Fault.not_found
  current ← lift (parse_amount collateral.locked_amount)
  released ← lift (parse_amount amount)
  throw_if (ltb_ℤ current released) Fault.bad_request
  hash ← send_tokens chain token wallet amount_wei
  available ← lift (parse_amount collateral.available_balance)
  let locked = print_ℤ (current -ℤ released)
  let balance = print_ℤ (available +ℤ released)
  save_collateral column (some collateral)
      (record collateral { locked_amount = locked; available_balance = balance })
  pure (hash, locked, balance)
