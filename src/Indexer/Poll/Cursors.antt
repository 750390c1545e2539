-- ===== src/Indexer/Poll/Cursors.antt =====
-- What the handlers and the polls do to the cursors, the numbers of the last indexed blocks.
use diaspora_equb_product.Common.{
  ℕ, ◌+◌, refl, arith, Option, Text, List, [], ◌∷◌, sort_by, or_else,
}
use diaspora_equb_product.Indexer.Events.{ChainEvent, EventLog, log_key}
use diaspora_equb_product.Indexer.State.{Index, Chain}
use diaspora_equb_product.Indexer.Money.{TransferLog, save_token_transfer}
use diaspora_equb_product.Indexer.Dispatch.{dispatch, handle_event}
use diaspora_equb_product.Indexer.CatchUp.{Query, query_all, handle_all, process_chunks}
use diaspora_equb_product.Indexer.Poll.{Access, Token, save_transfers, process_transfers}
use diaspora_equb_product.Indexer.Poll.Stills.{
  Still, Still-trans, joined_pool-Still, round_closed-Still, contribution_received-Still,
  default_triggered-Still, round_released-Still, stream_frozen-Still, collateral_slashed-Still,
  proposal_created-Still, vote_cast-Still, proposal_executed-Still, proposal_cancelled-Still,
  identity_bound-Still,
}

dispatch-Still :
    (chain : Chain) (e : ChainEvent) (hash : Option Text) (s : Index)
    → Still s (dispatch chain e hash s).1
unfolding dispatch
dispatch-Still chain (ChainEvent.pool_created id amount members token) hash s = (refl, omega arith)
dispatch-Still chain (ChainEvent.joined_pool id member) hash s =
    joined_pool-Still chain id member hash s
dispatch-Still chain (ChainEvent.contribution_received id member round) hash s =
    contribution_received-Still chain id member round hash s
dispatch-Still chain (ChainEvent.round_closed id round) hash s = round_closed-Still chain id round s
dispatch-Still chain (ChainEvent.default_triggered id member round) hash s =
    default_triggered-Still chain id member round s
dispatch-Still chain (ChainEvent.rules_updated id) hash s = (refl, omega arith)
dispatch-Still chain (ChainEvent.stream_created id who total upfront amount rounds) hash s =
    (refl, omega arith)
dispatch-Still chain (ChainEvent.round_released id who amount) hash s =
    round_released-Still chain id who amount s
dispatch-Still chain (ChainEvent.stream_frozen id who) hash s = stream_frozen-Still chain id who s
dispatch-Still chain (ChainEvent.score_updated user score) hash s = (refl, omega arith)
dispatch-Still chain (ChainEvent.collateral_deposited user amount) hash s = (refl, omega arith)
dispatch-Still chain (ChainEvent.collateral_locked user amount) hash s = (refl, omega arith)
dispatch-Still chain (ChainEvent.collateral_slashed user amount) hash s =
    collateral_slashed-Still chain user amount s
dispatch-Still chain (ChainEvent.identity_bound wallet identity) hash s =
    identity_bound-Still wallet identity s
dispatch-Still chain (ChainEvent.proposal_created id equb proposer rules text deadline) hash s =
    proposal_created-Still id equb proposer rules text deadline s
dispatch-Still chain (ChainEvent.vote_cast id voter support) hash s = vote_cast-Still id support s
dispatch-Still chain (ChainEvent.proposal_executed id) hash s = proposal_executed-Still id s
dispatch-Still chain (ChainEvent.proposal_cancelled id) hash s = proposal_cancelled-Still id s

handle_event-Still : (chain : Chain) (e : EventLog) (s : Index) → Still s (handle_event chain e s)
unfolding handle_event
handle_event-Still chain e s = dispatch-Still chain e.event e.transaction_hash s

handle_all-Still :
    (chain : Chain) (es : List EventLog) (s : Index) → Still s (handle_all chain es s)
unfolding handle_all
handle_all-Still chain [] s = (refl, omega arith)
handle_all-Still chain (e ∷ es) s =
    let t = handle_event chain e s in
    Still-trans s t (handle_all chain (e ∷ es) s) (handle_event-Still chain e s)
      (handle_all-Still chain es (record t { indexed_event_count = t.indexed_event_count + 1 }))

pub process_chunks-Still :
    (chain : Chain) (query : Query) (names : List ℕ) (cs : List (ℕ × ℕ)) (s : Index)
    → Still s (process_chunks chain query names cs s)
unfolding process_chunks
process_chunks-Still chain query names [] s = (refl, omega arith)
process_chunks-Still chain query names ((start, end) ∷ cs) s =
    let es = sort_by log_key (query_all query names start end) in
    let t = handle_all chain es s in
    Still-trans s t (process_chunks chain query names cs t) (handle_all-Still chain es s)
      (process_chunks-Still chain query names cs t)

save_token_transfer-Still :
    (chain : Chain) (symbol address : Text) (decimals : ℕ) (e : TransferLog) (s : Index)
    → Still s (save_token_transfer chain symbol address decimals e s)
unfolding save_token_transfer
save_token_transfer-Still chain symbol address decimals e s = (ground arith, ground arith)

save_transfers-Still :
    (chain : Chain) (symbol address : Text) (decimals : ℕ) (es : List TransferLog) (s : Index)
    → Still s (save_transfers chain symbol address decimals es s)
unfolding save_transfers
save_transfers-Still chain symbol address decimals [] s = (refl, omega arith)
save_transfers-Still chain symbol address decimals (e ∷ es) s =
    let t = save_token_transfer chain symbol address decimals e s in
    Still-trans s t (save_transfers chain symbol address decimals (e ∷ es) s)
      (save_token_transfer-Still chain symbol address decimals e s)
      (save_transfers-Still chain symbol address decimals es
        (record t { indexed_event_count = t.indexed_event_count + 1 }))

pub process_transfers-Still :
    (chain : Chain) (access : Access) (token : Token) (cs : List (ℕ × ℕ)) (s : Index)
    → Still s (process_transfers chain access token cs s)
unfolding process_transfers
process_transfers-Still chain access token [] s = (refl, omega arith)
process_transfers-Still chain access token ((start, end) ∷ cs) s =
    let es = or_else (access.transfers token.1 start end) [] in
    let decimals = or_else (access.decimals token.1) 6 in
    let t = save_transfers chain token.0 token.1 decimals es s in
    Still-trans s t (process_transfers chain access token cs t)
      (save_transfers-Still chain token.0 token.1 decimals es s)
      (process_transfers-Still chain access token cs t)
