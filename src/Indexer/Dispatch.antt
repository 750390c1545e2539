-- ===== src/Indexer/Dispatch.antt =====
-- `handleEvent`: an event goes to its handler, and what the handler throws is logged and dropped.
use diaspora_equb_product.Common.{Option, Text, Action, modify}
use diaspora_equb_product.Indexer.Events.{ChainEvent, EventLog}
use diaspora_equb_product.Indexer.State.{Index, Chain, on_db, on_vault, caught}
use diaspora_equb_product.Indexer.Handlers.{
  handle_pool_created, handle_rules_updated, handle_joined_pool, handle_contribution_received,
  handle_round_closed, handle_default_triggered, handle_stream_created, handle_round_released,
  handle_stream_frozen,
}
use diaspora_equb_product.Indexer.Money.{
  handle_score_updated, handle_collateral_deposited, handle_collateral_locked,
  handle_collateral_slashed,
}
use diaspora_equb_product.Indexer.Governance.{
  handle_proposal_created, handle_vote_cast, handle_proposal_executed, handle_proposal_cancelled,
  handle_identity_bound,
}

-- The handler of an event with the hash of its transaction.
unfoldable pub dispatch : Chain → ChainEvent → Option Text → Action Index (Unit {0})
dispatch chain (ChainEvent.pool_created id amount members token) hash =
    on_db (handle_pool_created chain id amount members hash)
dispatch chain (ChainEvent.joined_pool id member) hash = handle_joined_pool chain id member hash
dispatch chain (ChainEvent.contribution_received id member round) hash =
    handle_contribution_received chain id member round hash
dispatch chain (ChainEvent.round_closed id round) hash = handle_round_closed chain id round
dispatch chain (ChainEvent.default_triggered id member round) hash =
    handle_default_triggered chain id member round
dispatch chain (ChainEvent.rules_updated id) hash = on_db (handle_rules_updated chain id)
dispatch chain (ChainEvent.stream_created id who total upfront amount rounds) hash =
    on_db (handle_stream_created chain id who total upfront amount rounds)
dispatch chain (ChainEvent.round_released id who amount) hash =
    handle_round_released chain id who amount
dispatch chain (ChainEvent.stream_frozen id who) hash = handle_stream_frozen chain id who
dispatch chain (ChainEvent.score_updated user score) hash =
    modify (λ s. record s { scores = handle_score_updated user score s.scores })
dispatch chain (ChainEvent.collateral_deposited user amount) hash =
    on_vault (handle_collateral_deposited chain user amount)
dispatch chain (ChainEvent.collateral_locked user amount) hash =
    on_vault (handle_collateral_locked chain user amount)
dispatch chain (ChainEvent.collateral_slashed user amount) hash =
    handle_collateral_slashed chain user amount
dispatch chain (ChainEvent.identity_bound wallet identity) hash =
    modify (handle_identity_bound wallet identity)
dispatch chain (ChainEvent.proposal_created id equb proposer rules text deadline) hash =
    modify (handle_proposal_created id equb proposer rules text deadline)
dispatch chain (ChainEvent.vote_cast id voter support) hash = modify (handle_vote_cast id support)
dispatch chain (ChainEvent.proposal_executed id) hash = modify (handle_proposal_executed id)
dispatch chain (ChainEvent.proposal_cancelled id) hash = modify (handle_proposal_cancelled id)

unfoldable pub handle_event : Chain → EventLog → Index → Index
handle_event chain e s = (caught (dispatch chain e.event e.transaction_hash) s).1
