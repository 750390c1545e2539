-- ===== src/Indexer/Keeps/Catching.antt =====
-- Events and the catch-up of a contract, against `Kept`.
use diaspora_equb_product.Common.{
  ℕ, ◌+◌, ◌≡◌, ap, ◌∙◌, Bool, arith, some, Option, Text, List, [], ◌∷◌, Option-cases, Bool-cases,
  inl, inr, leb, sort_by,
}
use diaspora_equb_product.Pools.Consistent.{IsConsistent}
use diaspora_equb_product.Indexer.Events.{
  ChainEvent, EventLog, ContractName, contract_text, get_contract_event_names, log_key,
}
use diaspora_equb_product.Indexer.State.{
  Index, Chain, get_last_indexed_block, set_last_indexed_block,
}
use diaspora_equb_product.Indexer.Money.{handle_collateral_slashed}
use diaspora_equb_product.Indexer.Governance.{
  handle_proposal_created, handle_vote_cast, handle_proposal_executed, handle_proposal_cancelled,
  handle_identity_bound,
}
use diaspora_equb_product.Indexer.Dispatch.{dispatch, handle_event}
use diaspora_equb_product.Indexer.CatchUp.{
  Query, chunks, query_all, handle_all, process_chunks, catch_up_contract,
}
use diaspora_equb_product.Indexer.Keeps.{Kept, Keeps, Keeps-refl, Keeps-trans}
use diaspora_equb_product.Indexer.Keeps.Stores.{Keeps-of_equal}
use diaspora_equb_product.Indexer.Keeps.Handlers.{
  pool_created-Keeps, rules_updated-Keeps, joined_pool-Keeps, round_closed-Keeps,
  default_triggered-Keeps, stream_created-Keeps, round_released-Keeps, stream_frozen-Keeps,
}
use diaspora_equb_product.Indexer.Keeps.Contributions.{contribution_received-Keeps}

collateral_slashed_db :
    (chain : Chain) (user : Text) (amount : ℕ) (s : Index)
    → (handle_collateral_slashed chain user amount s).1.db ≡ s.db
unfolding handle_collateral_slashed
collateral_slashed_db chain user amount s = ground arith

proposal_created_db :
    (id equb : ℕ) (proposer rules text : Text) (deadline : ℕ) (s : Index)
    → (handle_proposal_created id equb proposer rules text deadline s).db ≡ s.db
unfolding handle_proposal_created
proposal_created_db id equb proposer rules text deadline s = ground arith

vote_cast_db : (id : ℕ) (support : Bool) (s : Index) → (handle_vote_cast id support s).db ≡ s.db
unfolding handle_vote_cast
vote_cast_db id support s = ground arith

proposal_executed_db : (id : ℕ) (s : Index) → (handle_proposal_executed id s).db ≡ s.db
unfolding handle_proposal_executed
proposal_executed_db id s = ground arith

proposal_cancelled_db : (id : ℕ) (s : Index) → (handle_proposal_cancelled id s).db ≡ s.db
unfolding handle_proposal_cancelled
proposal_cancelled_db id s = ground arith

identity_bound_db :
    (wallet identity : Text) (s : Index) → (handle_identity_bound wallet identity s).db ≡ s.db
unfolding handle_identity_bound
identity_bound_db wallet identity s = ground arith

dispatch-Keeps :
    (chain : Chain) (e : ChainEvent) (hash : Option Text) (s : Index)
    → Keeps s.db (dispatch chain e hash s).1.db
unfolding dispatch
dispatch-Keeps chain (ChainEvent.pool_created id amount members token) hash s =
    pool_created-Keeps chain id amount members hash s.db
dispatch-Keeps chain (ChainEvent.joined_pool id member) hash s =
    joined_pool-Keeps chain id member hash s
dispatch-Keeps chain (ChainEvent.contribution_received id member round) hash s =
    contribution_received-Keeps chain id member round hash s
dispatch-Keeps chain (ChainEvent.round_closed id round) hash s = round_closed-Keeps chain id round s
dispatch-Keeps chain (ChainEvent.default_triggered id member round) hash s =
    default_triggered-Keeps chain id member round s
dispatch-Keeps chain (ChainEvent.rules_updated id) hash s = rules_updated-Keeps chain id s.db
dispatch-Keeps chain (ChainEvent.stream_created id who total upfront amount rounds) hash s =
    stream_created-Keeps chain id who total upfront amount rounds s.db
dispatch-Keeps chain (ChainEvent.round_released id who amount) hash s =
    round_released-Keeps chain id who amount s
dispatch-Keeps chain (ChainEvent.stream_frozen id who) hash s = stream_frozen-Keeps chain id who s
dispatch-Keeps chain (ChainEvent.score_updated user score) hash s = Keeps-refl s.db
dispatch-Keeps chain (ChainEvent.collateral_deposited user amount) hash s = Keeps-refl s.db
dispatch-Keeps chain (ChainEvent.collateral_locked user amount) hash s = Keeps-refl s.db
dispatch-Keeps chain (ChainEvent.collateral_slashed user amount) hash s =
    Keeps-of_equal s.db _ s.db (collateral_slashed_db chain user amount s) (Keeps-refl s.db)
dispatch-Keeps chain (ChainEvent.identity_bound wallet identity) hash s =
    Keeps-of_equal s.db _ s.db (identity_bound_db wallet identity s) (Keeps-refl s.db)
dispatch-Keeps chain (ChainEvent.proposal_created id equb proposer rules text deadline) hash s =
    Keeps-of_equal s.db _ s.db (proposal_created_db id equb proposer rules text deadline s)
      (Keeps-refl s.db)
dispatch-Keeps chain (ChainEvent.vote_cast id voter support) hash s =
    Keeps-of_equal s.db _ s.db (vote_cast_db id support s) (Keeps-refl s.db)
dispatch-Keeps chain (ChainEvent.proposal_executed id) hash s =
    Keeps-of_equal s.db _ s.db (proposal_executed_db id s) (Keeps-refl s.db)
dispatch-Keeps chain (ChainEvent.proposal_cancelled id) hash s =
    Keeps-of_equal s.db _ s.db (proposal_cancelled_db id s) (Keeps-refl s.db)

handle_event-Keeps :
    (chain : Chain) (e : EventLog) (s : Index) → Keeps s.db (handle_event chain e s).db
unfolding handle_event
handle_event-Keeps chain e s = dispatch-Keeps chain e.event e.transaction_hash s

handle_all-Keeps :
    (chain : Chain) (es : List EventLog) (s : Index) → Keeps s.db (handle_all chain es s).db
unfolding handle_all
handle_all-Keeps chain [] s = Keeps-refl s.db
handle_all-Keeps chain (e ∷ es) s =
    let t = handle_event chain e s in
    Keeps-trans s.db t.db (handle_all chain (e ∷ es) s).db (handle_event-Keeps chain e s)
      (handle_all-Keeps chain es (record t { indexed_event_count = t.indexed_event_count + 1 }))

process_chunks-Keeps :
    (chain : Chain) (query : Query) (names : List ℕ) (cs : List (ℕ × ℕ)) (s : Index)
    → Keeps s.db (process_chunks chain query names cs s).db
unfolding process_chunks
process_chunks-Keeps chain query names [] s = Keeps-refl s.db
process_chunks-Keeps chain query names ((start, end) ∷ cs) s =
    let es = sort_by log_key (query_all query names start end) in
    let t = handle_all chain es s in
    Keeps-trans s.db t.db (process_chunks chain query names cs t).db (handle_all-Keeps chain es s)
      (process_chunks-Keeps chain query names cs t)

pub set_last_indexed_block_db :
    (name : Text) (n : ℕ) (s : Index) → (set_last_indexed_block name n s).db ≡ s.db
unfolding set_last_indexed_block
set_last_indexed_block_db name n s = ground arith

-- From consistent tables of PoolsService, whatever the chain answers, a contract that catches up
-- leaves them consistent; the seasons, rounds and idempotency keys are untouched, a pool that is
-- found by its number on the chain is found in the same row, and a member that is found is found
-- unchanged.
pub catch_up_contract-Kept :
    (chain : Chain) (query : Query) (head : Option ℕ) (name : ContractName) (current : ℕ)
    (s s' : Index)
    → IsConsistent s.db
    → catch_up_contract chain query head name current s ≡ some s'
    → Kept s.db s'.db
unfolding catch_up_contract
catch_up_contract-Kept chain query head name current s s' c h =
    let from = get_last_indexed_block head (contract_text name) s + 1 in
    elim (Bool-cases (leb from current)) [
      | inr e ↦ Keeps-of_equal s.db s'.db s.db (ground arith) (Keeps-refl s.db) c
      | inl e ↦ elim (Option-cases (chunks (current + 1) from current)) [
        | inl g ↦ absurd (ground arith)
        | inr (cs, g) ↦
            let t = process_chunks chain query (get_contract_event_names name) cs s in
            let same = set_last_indexed_block_db (contract_text name) current t in
            let end : s' ≡ set_last_indexed_block (contract_text name) current t = ground arith in
            Keeps-of_equal s.db s'.db t.db (ap (λ w. w.db) end ∙ same)
              (process_chunks-Keeps chain query (get_contract_event_names name) cs s) c
      ]
    ]
