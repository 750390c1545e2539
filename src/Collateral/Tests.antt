-- ===== src/Collateral/Tests.antt =====
-- A wallet's collateral, locked, slashed and released.
use diaspora_equb_product.Common.{
  written, IsDecimalColumn, ℕ, ◌≡◌, refl, Option, none, some, [], ◌∷◌, ◌++◌, Text, codes, arith,
  text_eq, to_upper, trim, ok, ℤ, pos, negsuc, ◌+ℤ◌, ◌-ℤ◌, ◌≤ℤ◌, print_ℤ, big_int, some_inj, sym,
}
use diaspora_equb_product.Collateral.Store.{Transfer, Vault, find_collateral, save_collateral}
use diaspora_equb_product.Collateral.{
  parse_amount, new_collateral, lock, confirm_token_deposit, slash, TokenChain, get_token_address,
  send_tokens, release_token_collateral,
}
use diaspora_equb_product.Collateral.Amounts.{parse_amount-print_ℤ}
use diaspora_equb_product.Collateral.Slash.{Standing, lock-Standing, slash_conserves, lock-slash}
use diaspora_equb_product.Collateral.Release.{
  Releases, release_token_collateral-Releases, release_token_collateral_unpaid,
}

abbrev wallet : Text
wallet = codes "0xA1"

-- A column that keeps two decimals.
abbrev column : Text → Option Text
column t = some (t ++ codes ".00")

column_decimals : IsDecimalColumn column
column_decimals = record { decimals = λ z t h. (codes "00", sym (some_inj h)) }

abbrev vault : Vault
vault = record { collaterals = []; next_id = 1; sent = [] }

-- The zero amounts of a wallet without a row.
nothing : Standing none (pos 0) (pos 0) (pos 0)
nothing = (refl, refl, refl)

abbrev chain : TokenChain
chain = record {
  signer = some (codes "0xD0");
  token_addresses = λ s. some (codes "0xC0");
  decimals = λ t. some 1;
  parse_units = λ s n. some (pos 9);
  transfer = λ t w z. some (codes "0xhash");
}

-- Names what the calls below compute with.
evaluation : Unit {0}
unfolding lock slash release_token_collateral get_token_address send_tokens parse_amount
    new_collateral save_collateral written print_ℤ big_int trim text_eq to_upper
    confirm_token_deposit ◌+ℤ◌ ◌-ℤ◌
evaluation = tt

abbrev locked : Vault
locked = (lock column wallet (codes "70") none vault).1

abbrev slashed : Vault
slashed = (slash column wallet (codes "70") none locked).1

lock-Standing_example :
    Standing (find_collateral wallet none locked) (pos 0 +ℤ pos 70) (pos 0) (pos 0)
    × (locked.sent ≡ [])
    × (codes "70" ≡ print_ℤ (pos 0 +ℤ pos 70))
unfolding evaluation
lock-Standing_example =
    lock-Standing column wallet (codes "70") none vault (pos 0) (pos 0) (pos 0) (pos 70)
      column_decimals nothing refl refl

slash_conserves_example :
    (l : ℤ) × (d : ℤ) × Standing (find_collateral wallet none slashed) l d (pos 0)
    × (l +ℤ d ≡ pos 70 +ℤ pos 0)
    × (pos 0 ≤ℤ pos 70 → pos 0 ≤ℤ l)
unfolding evaluation
slash_conserves_example =
    slash_conserves column wallet (codes "70") none locked (pos 70) (pos 0) (pos 0) (pos 70)
      column_decimals (refl, refl, refl) refl refl

lock-slash_example :
    Standing (find_collateral wallet none slashed) (pos 0) (pos 0 +ℤ pos 70) (pos 0)
unfolding evaluation
lock-slash_example =
    lock-slash column wallet (codes "70") none vault (pos 0) (pos 0) (pos 0) (pos 70)
      column_decimals nothing refl (omega arith) refl refl

release_token_collateral-Releases_example :
    Releases chain wallet
      (codes "20")
      (codes "usdc")
      locked
      (release_token_collateral column chain wallet (codes "20") (codes "usdc") locked).1
      (pos 70)
      (pos 0)
      (pos 0)
      (pos 20)
unfolding evaluation
release_token_collateral-Releases_example =
    release_token_collateral-Releases column chain wallet (codes "20") (codes "usdc") locked
      (pos 70) (pos 0) (pos 0) (pos 20) column_decimals (refl, refl, refl) refl refl

abbrev unpaid : Vault
unpaid =
    (release_token_collateral column chain wallet (print_ℤ (pos 0) ++ b'.' ∷ codes "9")
      (codes "usdc") locked).1

release_token_collateral_unpaid_example :
    (t : Transfer) × ((decimals : ℕ) × (some (pos 9) ≡ some t.amount))
    × (t.to ≡ wallet)
    × (unpaid.sent ≡ [] ++ t ∷ [])
    × Standing (find_collateral wallet none unpaid) (pos 70) (pos 0) (pos 0)
unfolding evaluation
release_token_collateral_unpaid_example =
    release_token_collateral_unpaid column chain wallet (codes "usdc") (codes "9") locked (pos 70)
      (pos 0) (pos 0) column_decimals (refl, refl, refl) refl

parse_amount-print_ℤ_example :
    (parse_amount (print_ℤ (negsuc 11)) ≡ ok (negsuc 11))
    × (parse_amount (print_ℤ (negsuc 11) ++ b'.' ∷ codes "5") ≡ ok (negsuc 11))
parse_amount-print_ℤ_example = parse_amount-print_ℤ (negsuc 11) (codes "5")
