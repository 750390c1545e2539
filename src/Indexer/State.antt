-- ===== src/Indexer/State.antt =====
-- The tables that the indexer writes, what it reads of the chain, and the notifications it sends.
use diaspora_equb_product.Common.{
  ℕ, ◌+◌, ◌-◌, Option, none, some, List, [], ◌∷◌, ◌++◌, Text, text_eq, find_one, update_row, ok,
  Action,
}
use diaspora_equb_product.Pools.Entities.{Db}
use diaspora_equb_product.Notifications.{NotificationType}
use diaspora_equb_product.Rules.{RawRules}
use diaspora_equb_product.Collateral.Store.{Vault}
use diaspora_equb_product.Credit.{Scores}

pub data ProposalStatus : Type 0 where
  active executed cancelled : ProposalStatus

-- `none` as the pool stands for the zero uuid.
pub record Proposal : Type 0 where
  pub id : ℕ
  pub on_chain_proposal_id : ℕ
  pub pool_id : Option ℕ
  pub on_chain_equb_id : ℕ
  pub proposer : Text
  pub rule_hash : Text
  pub description : Text
  pub yes_votes : ℕ
  pub no_votes : ℕ
  pub deadline : ℕ
  pub status : ProposalStatus

pub data BindingStatus : Type 0 where
  unbound bound queued_for_onchain onchain : BindingStatus

pub record Identity : Type 0 where
  pub id : ℕ
  pub identity_hash : Text
  pub wallet_address : Option Text
  pub binding_status : BindingStatus

pub record IndexedBlock : Type 0 where
  pub id : ℕ
  pub contract_name : Text
  pub last_block_number : ℕ

pub record TokenTransfer : Type 0 where
  pub id : ℕ
  pub tx_hash : Text
  pub from : Text
  pub to : Text
  pub amount : Text
  pub raw_amount : Text
  pub token : Text
  pub token_address : Text
  pub block_number : ℕ
  pub timestamp : Option ℕ

-- A call of `notifications.create`: the wallet, the type and the idempotency key.
pub record Notice : Type 0 where
  pub wallet : Text
  pub type : NotificationType
  pub key : Text

pub record Index : Type 0 where
  pub db : Db
  pub vault : Vault
  pub scores : Scores
  pub proposals : List Proposal
  pub identities : List Identity
  pub blocks : List IndexedBlock
  pub transfers : List TokenTransfer
  pub notices : List Notice
  pub indexed_event_count : ℕ
  pub next_id : ℕ

-- The transaction of a `PoolCreated` event: its sender, and the fourth argument of its call, where
-- the call can be parsed.
pub record Transaction : Type 0 where
  pub from : Option Text
  pub treasury : Option Text

-- What the indexer reads and calls outside: the provider, the contract's rules, `ethers`, the
-- numeric columns, and the text of a row's key.
pub record Chain : Type 0 where
  pub transaction : Text → Option Transaction
  pub read_rules : ℕ → Option RawRules
  pub block_time : ℕ → Option ℕ
  pub get_address : Text → Option Text
  pub format_units : ℕ → ℕ → Text
  pub column : Text → Option Text
  pub print_id : ℕ → Text

abbrev pub on_db : {A : Type 0} → Action Db A → Action Index A
on_db m s = let (r, db) = m s.db in (r, record s { db = db })

abbrev pub on_vault : {A : Type 0} → Action Vault A → Action Index A
on_vault m s = let (r, vault) = m s.vault in (r, record s { vault = vault })

-- `catch` with a log line only: what was written before stays.
abbrev pub caught : {S A : Type 0} → Action S A → Action S (Unit {0})
caught m s = let (r, s') = m s in (ok tt, s')

abbrev pub joined : List Text → Text
joined [] = []
joined (p ∷ []) = p
joined (p ∷ q ∷ ps) = p ++ b':' ∷ joined (q ∷ ps)

-- `emitNotification`
abbrev pub emit_notification : Text → NotificationType → List Text → Action Index (Unit {0})
emit_notification wallet type parts s = (
  ok tt,
  record s {
    notices = s.notices ++ record { wallet = wallet; type = type; key = joined parts } ∷ [];
  },
)

abbrev pub proposal_key : Proposal → ℕ
proposal_key p = p.id

abbrev pub identity_key : Identity → ℕ
identity_key i = i.id

abbrev pub block_key : IndexedBlock → ℕ
block_key b = b.id

abbrev pub find_block : Text → Index → Option IndexedBlock
find_block name s = find_one (λ b. text_eq b.contract_name name) s.blocks

-- `getLastIndexedBlock`; `head` is the chain's block number, `none` where the read fails.
unfoldable pub get_last_indexed_block : Option ℕ → Text → Index → ℕ
get_last_indexed_block head name s = elim (find_block name s) [
  | some b ↦ b.last_block_number
  | none ↦ elim head [ some n ↦ n - 100_000 | none ↦ 0 ]
]

unfoldable pub set_last_indexed_block : Text → ℕ → Index → Index
set_last_indexed_block name n s = elim (find_block name s) [
  | none ↦
      let b : IndexedBlock = record {
        id = s.next_id;
        contract_name = name;
        last_block_number = n;
      } in
      record s { blocks = s.blocks ++ b ∷ []; next_id = s.next_id + 1 }
  | some b ↦ record s {
    blocks = update_row block_key (record b { last_block_number = n }) s.blocks;
  }
]
