-- ===== src/Indexer/Money.antt =====
-- The handlers of the events of CreditRegistry and CollateralVault, and the token transfers.
use diaspora_equb_product.Common.{
  ℕ, ◌+◌, ◌*◌, Bool, ◌||◌, Option, none, some, [], ◌∷◌, ◌++◌, Text, codes, if◌then◌else◌, text_eq,
  to_lower, to_upper, is_blank, any, Result, Action, gets, pure, lift, ◌>>=◌, ◌>>◌, ℤ, pos, ◌+ℤ◌,
  ◌-ℤ◌, print_ℤ, update_row,
}
use diaspora_equb_product.Collateral.Store.{Vault, find_collateral, save_collateral}
use diaspora_equb_product.Collateral.{new_collateral, actual_slash}
use diaspora_equb_product.Credit.{CreditScore, Scores, find_score, score_key}
use diaspora_equb_product.Indexer.State.{Index, TokenTransfer, Chain, on_vault, emit_notification}
use diaspora_equb_product.Notifications.{NotificationType}
use diaspora_equb_product.Indexer.Handlers.{big_int_of}

unfoldable pub handle_score_updated : Text → ℤ → Scores → Scores
handle_score_updated user new_score s = elim (find_score user s) [
  | none ↦
      let c : CreditScore = record { id = s.next_id; wallet_address = user; score = new_score } in
      record { scores = s.scores ++ c ∷ []; next_id = s.next_id + 1 }
  | some old ↦
      let c : CreditScore = record old { score = new_score } in
      record s { scores = update_row score_key c s.scores }
]

-- `BigInt(text || '0')`
unfoldable pub amount_of : Text → Result ℤ
unfolding big_int_of
amount_of s = big_int_of (if is_blank s then codes "0" else s)

unfoldable pub handle_collateral_deposited : Chain → Text → ℕ → Action Vault (Unit {0})
unfolding amount_of new_collateral
handle_collateral_deposited chain user amount = do
  found ← gets (find_collateral user none)
  elim found [
    | none ↦
        save_collateral chain.column none
          (record (new_collateral user none) { available_balance = print_ℤ (pos amount) })
    | some c ↦ do
      current ← lift (amount_of c.available_balance)
      save_collateral chain.column (some c)
          (record c { available_balance = print_ℤ (current +ℤ pos amount) })
  ]

unfoldable pub handle_collateral_locked : Chain → Text → ℕ → Action Vault (Unit {0})
unfolding amount_of
handle_collateral_locked chain user amount = do
  found ← gets (find_collateral user none)
  elim found [
    | none ↦ pure tt
    | some c ↦ do
      available ← lift (amount_of c.available_balance)
      locked ← lift (amount_of c.locked_amount)
      save_collateral chain.column (some c) (record c {
        available_balance = print_ℤ (available -ℤ pos amount);
        locked_amount = print_ℤ (locked +ℤ pos amount);
      })
  ]

unfoldable pub handle_collateral_slashed : Chain → Text → ℕ → Action Index (Unit {0})
unfolding amount_of
handle_collateral_slashed chain user amount = do
  found ← gets (λ s. find_collateral user none s.vault)
  elim found [
    | none ↦ pure tt
    | some c ↦ do
      locked ← lift (amount_of c.locked_amount)
      slashed ← lift (amount_of c.slashed_amount)
      let actual = print_ℤ (actual_slash locked (pos amount))
      on_vault (
          save_collateral chain.column (some c) (record c {
            locked_amount = print_ℤ (locked -ℤ actual_slash locked (pos amount));
            slashed_amount = print_ℤ (slashed +ℤ actual_slash locked (pos amount));
          }))
      emit_notification user NotificationType.collateral_slashed
          (codes "collateral_slashed" ∷ user ∷ actual ∷ print_ℤ slashed ∷ [])
  ]

-- A `Transfer` event of a token contract.
pub record TransferLog : Type 0 where
  pub from : Text
  pub to : Text
  pub value : ℕ
  pub transaction_hash : Option Text
  pub block_number : ℕ

abbrev pub has_hash : Text → TokenTransfer → Bool
has_hash hash t = text_eq t.tx_hash hash

-- `saveTokenTransfer`; a transaction whose hash is stored is not stored again.
unfoldable pub save_token_transfer : Chain → Text → Text → ℕ → TransferLog → Index → Index
save_token_transfer chain symbol token_address decimals e s = elim e.transaction_hash [
  | none ↦ s
  | some hash ↦
      let transfer : TokenTransfer = record {
        id = s.next_id;
        tx_hash = hash;
        from = to_lower e.from;
        to = to_lower e.to;
        amount = chain.format_units e.value decimals;
        raw_amount = print_ℤ (pos e.value);
        token = to_upper symbol;
        token_address = token_address;
        block_number = e.block_number;
        timestamp = elim (chain.block_time e.block_number) [
          | none ↦ none
          | some t ↦ some (t * 1000)
        ];
      } in
      if is_blank hash || any (has_hash hash) s.transfers
      then s
      else record s { transfers = s.transfers ++ transfer ∷ []; next_id = s.next_id + 1 }
]
