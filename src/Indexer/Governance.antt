-- ===== src/Indexer/Governance.antt =====
-- The handlers of the events of EqubGovernor and IdentityRegistry.
use diaspora_equb_product.Common.{
  ℕ, ◌+◌, ◌*◌, Bool, false, Option, none, some, [], ◌∷◌, ◌++◌, Text, ◌==◌, if◌then◌else◌, text_eq,
  find_one, update_row,
}
use diaspora_equb_product.Pools.Store.{find_on_chain}
use diaspora_equb_product.Indexer.State.{
  Index, Proposal, ProposalStatus, Identity, BindingStatus, proposal_key, identity_key,
}

abbrev pub find_proposal : ℕ → Index → Option Proposal
find_proposal on_chain_id s = find_one (λ p. p.on_chain_proposal_id == on_chain_id) s.proposals

abbrev pub pool_of : ℕ → Index → Option ℕ
pool_of on_chain_id s = elim (find_on_chain on_chain_id s.db) [ none ↦ none | some p ↦ some p.id ]

-- The row of a new proposal, under the next key.
unfoldable pub created_proposal : ℕ → ℕ → Text → Text → Text → ℕ → Index → Proposal
created_proposal on_chain_id equb_id proposer rule_hash description deadline s = record {
  id = s.next_id;
  on_chain_proposal_id = on_chain_id;
  pool_id = pool_of equb_id s;
  on_chain_equb_id = equb_id;
  proposer = proposer;
  rule_hash = rule_hash;
  description = description;
  yes_votes = 0;
  no_votes = 0;
  deadline = deadline * 1000;
  status = ProposalStatus.active;
}

unfoldable pub handle_proposal_created : ℕ → ℕ → Text → Text → Text → ℕ → Index → Index
unfolding created_proposal
handle_proposal_created on_chain_id equb_id proposer rule_hash description deadline s =
    elim (find_proposal on_chain_id s) [
      | some p ↦ s
      | none ↦ record s {
        proposals =
            s.proposals
            ++ created_proposal on_chain_id equb_id proposer rule_hash description deadline s ∷ [];
        next_id = s.next_id + 1;
      }
    ]

-- A change of a stored proposal.
abbrev pub change_proposal : ℕ → (Proposal → Proposal) → Index → Index
change_proposal on_chain_id f s = elim (find_proposal on_chain_id s) [
  | none ↦ s
  | some p ↦ record s { proposals = update_row proposal_key (f p) s.proposals }
]

unfoldable pub handle_vote_cast : ℕ → Bool → Index → Index
handle_vote_cast on_chain_id support = change_proposal on_chain_id (λ p.
    if support
    then record p { yes_votes = p.yes_votes + 1 }
    else record p { no_votes = p.no_votes + 1 })

unfoldable pub handle_proposal_executed : ℕ → Index → Index
handle_proposal_executed on_chain_id =
    change_proposal on_chain_id (λ p. record p { status = ProposalStatus.executed })

unfoldable pub handle_proposal_cancelled : ℕ → Index → Index
handle_proposal_cancelled on_chain_id =
    change_proposal on_chain_id (λ p. record p { status = ProposalStatus.cancelled })

abbrev pub has_wallet : Text → Identity → Bool
has_wallet wallet i = elim i.wallet_address [ none ↦ false | some w ↦ text_eq w wallet ]

-- By the wallet, or else by the hash.
unfoldable pub find_identity : Text → Text → Index → Option Identity
find_identity wallet identity_hash s = elim (find_one (has_wallet wallet) s.identities) [
  | some i ↦ some i
  | none ↦ find_one (λ i. text_eq i.identity_hash identity_hash) s.identities
]

unfoldable pub handle_identity_bound : Text → Text → Index → Index
unfolding find_identity
handle_identity_bound wallet identity_hash s = elim (find_identity wallet identity_hash s) [
  | some i ↦
      let row : Identity = record i {
        wallet_address = some wallet;
        binding_status = BindingStatus.onchain;
      } in
      record s { identities = update_row identity_key row s.identities }
  | none ↦
      let i : Identity = record {
        id = s.next_id;
        identity_hash = identity_hash;
        wallet_address = some wallet;
        binding_status = BindingStatus.onchain;
      } in
      record s { identities = s.identities ++ i ∷ []; next_id = s.next_id + 1 }
]
