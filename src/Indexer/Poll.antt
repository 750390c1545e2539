-- ===== src/Indexer/Poll.antt =====
-- A poll: every contract and token catches up to the current block. The source starts them together
-- with `Promise.all`; here they run one after the other, in its order. Then `reindex` and
-- `getTransfersForWallet`.
pub mod Stills
pub mod Cursors
pub mod Reached
pub mod Again
pub mod Whole
pub mod Votes
use diaspora_equb_product.Common.{
  ℕ, ◌+◌, Bool, not, ◌&&◌, ◌||◌, Option, none, some, List, [], ◌∷◌, ◌++◌, map, Text, codes,
  filter_by, or_else, text_eq, to_lower, to_upper, is_blank, sort_by,
}
use diaspora_equb_product.Pools.Season.{zero_address}
use diaspora_equb_product.Indexer.Events.{ContractName, all_contracts}
use diaspora_equb_product.Indexer.State.{Index, Chain, IndexedBlock, TokenTransfer}
use diaspora_equb_product.Indexer.Money.{TransferLog, save_token_transfer}
use diaspora_equb_product.Indexer.CatchUp.{Query, catch_up_key, catch_up_contract}

-- A configured token: its symbol and its address.
abbrev pub Token : Type 0
Token = Text × Text

-- What a poll reads: the head of the chain where a cursor is missing, the events, the decimals of a
-- token and its `Transfer` events; `none` is a call that fails.
pub record Access : Type 0 where
  pub head : Option ℕ
  pub query : ContractName → Query
  pub decimals : Text → Option ℕ
  pub transfers : Text → ℕ → ℕ → Option (List TransferLog)

unfoldable pub get_token_contracts : List Token → List Token
get_token_contracts = filter_by (λ t. not (is_blank t.1) && not (text_eq t.1 zero_address))

unfoldable pub save_transfers : Chain → Text → Text → ℕ → List TransferLog → Index → Index
save_transfers chain symbol address decimals [] s = s
save_transfers chain symbol address decimals (e ∷ es) s =
    let t = save_token_transfer chain symbol address decimals e s in
    save_transfers chain symbol address decimals es
      (record t { indexed_event_count = t.indexed_event_count + 1 })

unfoldable pub process_transfers : Chain → Access → Token → List (ℕ × ℕ) → Index → Index
process_transfers chain access token [] s = s
process_transfers chain access token ((start, end) ∷ cs) s =
    let events = or_else (access.transfers token.1 start end) [] in
    process_transfers chain access token cs
      (save_transfers chain token.0 token.1 (or_else (access.decimals token.1) 6) events s)

abbrev pub token_key : Token → Text
token_key token = codes "TokenTransfer_" ++ token.0

unfoldable pub catch_up_tokens : Chain → Access → List Token → ℕ → Index → Option Index
catch_up_tokens chain access [] current s = some s
catch_up_tokens chain access (token ∷ tokens) current s =
    elim (catch_up_key (process_transfers chain access token) access.head (token_key token) current
      s) [ none ↦ none | some t ↦ catch_up_tokens chain access tokens current t ]

unfoldable pub catch_up_contracts : Chain → Access → List ContractName → ℕ → Index → Option Index
catch_up_contracts chain access [] current s = some s
catch_up_contracts chain access (name ∷ names) current s =
    elim (catch_up_contract chain (access.query name) access.head name current s) [
      | none ↦ none
      | some t ↦ catch_up_contracts chain access names current t
    ]

unfoldable pub catch_up : Chain → Access → List Token → ℕ → Index → Option Index
unfolding get_token_contracts
catch_up chain access tokens current s =
    elim (catch_up_contracts chain access all_contracts current s) [
      | none ↦ none
      | some t ↦ catch_up_tokens chain access (get_token_contracts tokens) current t
    ]

abbrev moved_to : ℕ → IndexedBlock → IndexedBlock
moved_to n b = record b { last_block_number = n }

-- What `reindex` stores; it restarts the polls afterwards.
unfoldable pub reindex : ℕ → Index → Index
reindex from s = record s { blocks = map (moved_to from) s.blocks }
