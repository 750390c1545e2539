-- ===== src/Indexer/Poll/Votes/Tally.antt =====
-- The events of the EqubGovernor contract and the votes of the stored proposals.
use diaspora_equb_product.Common.{ℕ, ◌+◌, refl, arith, true, false, Option, Text, List, [], ◌∷◌}
use diaspora_equb_product.Indexer.Events.{ChainEvent, EventLog}
use diaspora_equb_product.Indexer.State.{Index, Chain, ProposalStatus}
use diaspora_equb_product.Indexer.Governance.{
  handle_vote_cast, handle_proposal_executed, handle_proposal_cancelled,
}
use diaspora_equb_product.Indexer.Dispatch.{dispatch, handle_event}
use diaspora_equb_product.Indexer.CatchUp.{handle_all}
use diaspora_equb_product.Indexer.Poll.Votes.{
  IsGovernor, AreGovernor, vote_of, votes, AreProposed, IsTallied, change_tally, change_tally_0,
  created_tally,
}

-- One event of EqubGovernor.
dispatch_tally :
    (chain : Chain) (x : ChainEvent) (hash : Option Text) (id given refused : ℕ) (s : Index)
    → IsGovernor x
    → AreProposed s
    → IsTallied id given refused s
    → let t = (dispatch chain x hash s).1 in
      AreProposed t × IsTallied id (given + vote_of id true x) (refused + vote_of id false x) t
unfolding dispatch handle_vote_cast handle_proposal_executed handle_proposal_cancelled
dispatch_tally chain (ChainEvent.proposal_created n equb proposer rules text deadline) hash id given
      refused s g k t =
    let (k', (p, f, y, o)) =
      created_tally id n equb proposer rules text deadline given refused s k t in
    (k', (p, f, omega arith, omega arith))
dispatch_tally chain (ChainEvent.vote_cast n voter true) hash id given refused s g k t =
    change_tally id n (λ p. record p { yes_votes = p.yes_votes + 1 }) 1 0 given refused s
      (λ q. (refl, refl)) (λ q. (omega arith, omega arith)) k t
dispatch_tally chain (ChainEvent.vote_cast n voter false) hash id given refused s g k t =
    change_tally id n (λ p. record p { no_votes = p.no_votes + 1 }) 0 1 given refused s
      (λ q. (refl, refl)) (λ q. (omega arith, omega arith)) k t
dispatch_tally chain (ChainEvent.proposal_executed n) hash id given refused s g k t =
    change_tally_0 id n (λ p. record p { status = ProposalStatus.executed }) given refused s
      (λ q. (refl, refl)) (λ q. (refl, refl)) k t
dispatch_tally chain (ChainEvent.proposal_cancelled n) hash id given refused s g k t =
    change_tally_0 id n (λ p. record p { status = ProposalStatus.cancelled }) given refused s
      (λ q. (refl, refl)) (λ q. (refl, refl)) k t
dispatch_tally chain (ChainEvent.pool_created _ _ _ _) hash id given refused s g k t = elim g [ ]
dispatch_tally chain (ChainEvent.joined_pool _ _) hash id given refused s g k t = elim g [ ]
dispatch_tally chain (ChainEvent.contribution_received _ _ _) hash id given refused s g k t =
    elim g [ ]
dispatch_tally chain (ChainEvent.round_closed _ _) hash id given refused s g k t = elim g [ ]
dispatch_tally chain (ChainEvent.default_triggered _ _ _) hash id given refused s g k t = elim g [ ]
dispatch_tally chain (ChainEvent.rules_updated _) hash id given refused s g k t = elim g [ ]
dispatch_tally chain (ChainEvent.stream_created _ _ _ _ _ _) hash id given refused s g k t =
    elim g [ ]
dispatch_tally chain (ChainEvent.round_released _ _ _) hash id given refused s g k t = elim g [ ]
dispatch_tally chain (ChainEvent.stream_frozen _ _) hash id given refused s g k t = elim g [ ]
dispatch_tally chain (ChainEvent.score_updated _ _) hash id given refused s g k t = elim g [ ]
dispatch_tally chain (ChainEvent.collateral_deposited _ _) hash id given refused s g k t =
    elim g [ ]
dispatch_tally chain (ChainEvent.collateral_locked _ _) hash id given refused s g k t = elim g [ ]
dispatch_tally chain (ChainEvent.collateral_slashed _ _) hash id given refused s g k t = elim g [ ]
dispatch_tally chain (ChainEvent.identity_bound _ _) hash id given refused s g k t = elim g [ ]

-- After events of EqubGovernor, among them any number of `VoteCast` events of a proposal that is
-- stored, its counts have grown by exactly these votes, for it and against it; the proposals'
-- keys are distinct and issued by the database.
pub handle_all_tally :
    (chain : Chain) (es : List EventLog) (id given refused : ℕ) (s : Index)
    → AreGovernor es
    → AreProposed s
    → IsTallied id given refused s
    → let t = handle_all chain es s in
      AreProposed t × IsTallied id (given + votes id true es) (refused + votes id false es) t
unfolding handle_all handle_event
handle_all_tally chain [] id given refused s g k (p, f, y, n) =
    (k, (p, f, omega arith, omega arith))
handle_all_tally chain (e ∷ es) id given refused s (g, gs) k t =
    let (k', t') = dispatch_tally chain e.event e.transaction_hash id given refused s g k t in
    let mid = (dispatch chain e.event e.transaction_hash s).1 in
    let a = vote_of id true e.event in
    let b = vote_of id false e.event in
    let (k'', (p, f, y, n)) =
      handle_all_tally chain es id (given + a) (refused + b)
        (record mid { indexed_event_count = mid.indexed_event_count + 1 }) gs k' t' in
    (k'', (p, f, ground arith, ground arith))
