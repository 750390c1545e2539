-- ===== src/Indexer/Events.antt =====
-- The events of the contracts, and the contracts that the indexer follows.
use diaspora_equb_product.Common.{ℕ, Bool, Option, List, [], ◌∷◌, Text, codes, ℤ}

pub data ContractName : Type 0 where
  equb_pool payout_stream credit_registry collateral_vault identity_registry equb_governor :
      ContractName

-- An event with its arguments, in the order of its declaration.
pub data ChainEvent : Type 0 where
  pool_created : ℕ → ℕ → ℕ → Text → ChainEvent
  joined_pool : ℕ → Text → ChainEvent
  contribution_received : ℕ → Text → ℕ → ChainEvent
  round_closed : ℕ → ℕ → ChainEvent
  default_triggered : ℕ → Text → ℕ → ChainEvent
  rules_updated : ℕ → ChainEvent
  stream_created : ℕ → Text → ℕ → ℕ → ℕ → ℕ → ChainEvent
  round_released : ℕ → Text → ℕ → ChainEvent
  stream_frozen : ℕ → Text → ChainEvent
  score_updated : Text → ℤ → ChainEvent
  collateral_deposited : Text → ℕ → ChainEvent
  collateral_locked : Text → ℕ → ChainEvent
  collateral_slashed : Text → ℕ → ChainEvent
  identity_bound : Text → Text → ChainEvent
  proposal_created : ℕ → ℕ → Text → Text → Text → ℕ → ChainEvent
  vote_cast : ℕ → Text → Bool → ChainEvent
  proposal_executed : ℕ → ChainEvent
  proposal_cancelled : ℕ → ChainEvent

-- The names of the events, each with a number to tell them apart.
abbrev pub event_number : ChainEvent → ℕ
event_number (ChainEvent.pool_created _ _ _ _) = 0
event_number (ChainEvent.joined_pool _ _) = 1
event_number (ChainEvent.contribution_received _ _ _) = 2
event_number (ChainEvent.round_closed _ _) = 3
event_number (ChainEvent.default_triggered _ _ _) = 4
event_number (ChainEvent.rules_updated _) = 5
event_number (ChainEvent.stream_created _ _ _ _ _ _) = 6
event_number (ChainEvent.round_released _ _ _) = 7
event_number (ChainEvent.stream_frozen _ _) = 8
event_number (ChainEvent.score_updated _ _) = 9
event_number (ChainEvent.collateral_deposited _ _) = 10
event_number (ChainEvent.collateral_locked _ _) = 11
event_number (ChainEvent.collateral_slashed _ _) = 12
event_number (ChainEvent.identity_bound _ _) = 13
event_number (ChainEvent.proposal_created _ _ _ _ _ _) = 14
event_number (ChainEvent.vote_cast _ _ _) = 15
event_number (ChainEvent.proposal_executed _) = 16
event_number (ChainEvent.proposal_cancelled _) = 17

-- `getContractEventNames`
unfoldable pub get_contract_event_names : ContractName → List ℕ
get_contract_event_names ContractName.equb_pool = 0 ∷ 1 ∷ 2 ∷ 3 ∷ 4 ∷ 5 ∷ []
get_contract_event_names ContractName.payout_stream = 6 ∷ 7 ∷ 8 ∷ []
get_contract_event_names ContractName.credit_registry = 9 ∷ []
get_contract_event_names ContractName.collateral_vault = 10 ∷ 11 ∷ 12 ∷ []
get_contract_event_names ContractName.identity_registry = 13 ∷ []
get_contract_event_names ContractName.equb_governor = 14 ∷ 15 ∷ 16 ∷ 17 ∷ []

-- In the order of `catchUp`.
abbrev pub all_contracts : List ContractName
all_contracts =
    ContractName.equb_pool ∷ ContractName.payout_stream ∷ ContractName.credit_registry
    ∷ ContractName.collateral_vault ∷ ContractName.identity_registry ∷ ContractName.equb_governor
    ∷ []

-- The contract's name in the table of indexed blocks.
abbrev pub contract_text : ContractName → Text
contract_text ContractName.equb_pool = codes "EqubPool"
contract_text ContractName.payout_stream = codes "PayoutStream"
contract_text ContractName.credit_registry = codes "CreditRegistry"
contract_text ContractName.collateral_vault = codes "CollateralVault"
contract_text ContractName.identity_registry = codes "IdentityRegistry"
contract_text ContractName.equb_governor = codes "EqubGovernor"

-- An event in its place on the chain: the block, and the log's index in the block.
pub record EventLog : Type 0 where
  pub block_number : ℕ
  pub index : ℕ
  pub transaction_hash : Option Text
  pub event : ChainEvent

abbrev pub log_key : EventLog → ℕ × ℕ
log_key e = (e.block_number, e.index)
