-- ===== src/Indexer/Poll/Votes.antt =====
-- What the events of the EqubGovernor contract do to the stored proposals.
pub mod Tally
use diaspora_equb_product.Common.{
  ℕ, ◌+◌, ◌≡◌, ◌<◌, refl, ap, sym, subst, ◌∙◌, arith, Bool, true, false, Option, none, some, Text,
  List, [], ◌∷◌, ◌++◌, ◌==◌, ==_self, if◌then◌else◌, Option-cases, Bool-cases, inl, inr, find_one,
  find_one_passes, find_one-append_some, find_one-update_some, find_one-update_passes,
  find_one-has_id, has_id, update_row, IsKeyed, append-IsKeyed, update_row-IsKeyed,
}
use diaspora_equb_product.Indexer.Events.{ChainEvent, EventLog}
use diaspora_equb_product.Indexer.State.{Index, Chain, Proposal, ProposalStatus, proposal_key}
use diaspora_equb_product.Indexer.Governance.{
  find_proposal, created_proposal, change_proposal, handle_proposal_created, handle_vote_cast,
  handle_proposal_executed, handle_proposal_cancelled,
}
use diaspora_equb_product.Indexer.Dispatch.{dispatch, handle_event}
use diaspora_equb_product.Indexer.CatchUp.{handle_all}

-- The events of EqubGovernor.
abbrev pub IsGovernor : ChainEvent → Type 0
IsGovernor (ChainEvent.proposal_created id equb proposer rules text deadline) = Unit {0}
IsGovernor (ChainEvent.vote_cast id voter support) = Unit {0}
IsGovernor (ChainEvent.proposal_executed id) = Unit {0}
IsGovernor (ChainEvent.proposal_cancelled id) = Unit {0}
IsGovernor _ = ⊥

abbrev pub AreGovernor : List EventLog → Type 0
AreGovernor [] = Unit {0}
AreGovernor (e ∷ es) = IsGovernor e.event × AreGovernor es

abbrev same_vote : Bool → Bool → ℕ
same_vote true true = 1
same_vote false false = 1
same_vote _ _ = 0

-- How many votes for it, or against it, an event is.
abbrev pub vote_of : ℕ → Bool → ChainEvent → ℕ
vote_of id support (ChainEvent.vote_cast n voter given) =
    if n == id then same_vote support given else 0
vote_of id support _ = 0

abbrev pub votes : ℕ → Bool → List EventLog → ℕ
votes id support [] = 0
votes id support (e ∷ es) = vote_of id support e.event + votes id support es

-- The proposals have distinct keys that the database has issued.
abbrev pub AreProposed : Index → Type 0
AreProposed s = (0 < s.next_id) × IsKeyed proposal_key s.next_id s.proposals

-- The proposal is stored with so many votes.
abbrev pub IsTallied : ℕ → ℕ → ℕ → Index → Type 0
IsTallied id given refused s =
    (p : Proposal) × (find_proposal id s ≡ some p) × (p.yes_votes ≡ given) × (p.no_votes ≡ refused)

change_missing :
    (n : ℕ) (f : Proposal → Proposal) (s : Index)
    → find_proposal n s ≡ none
    → change_proposal n f s ≡ s
change_missing n f s e = ground arith

change_stored :
    (n : ℕ) (f : Proposal → Proposal) (s : Index) (p : Proposal)
    → find_proposal n s ≡ some p
    → change_proposal n f s ≡ record s { proposals = update_row proposal_key (f p) s.proposals }
change_stored n f s p e = ground arith

-- A change that keeps the key and the number.
abbrev IsChange : (Proposal → Proposal) → Type 0
IsChange f =
    (q : Proposal) → ((f q).id ≡ q.id) × ((f q).on_chain_proposal_id ≡ q.on_chain_proposal_id)

change_proposal-AreProposed :
    (n : ℕ) (f : Proposal → Proposal) (s : Index)
    → AreProposed s
    → AreProposed (change_proposal n f s)
change_proposal-AreProposed n f s (z, k) = elim (Option-cases (find_proposal n s)) [
  | inl e ↦ subst AreProposed (sym (change_missing n f s e)) (z, k)
  | inr (p, e) ↦
      subst AreProposed (sym (change_stored n f s p e))
        (z, update_row-IsKeyed proposal_key s.next_id (f p) s.proposals k)
]

abbrev is_proposal : ℕ → Proposal → Bool
is_proposal id p = p.on_chain_proposal_id == id

-- What becomes of a proposal when one is changed.
changed_proposal :
    (id n : ℕ) (f : Proposal → Proposal) (s : Index) (p : Proposal)
    → AreProposed s
    → IsChange f
    → find_proposal id s ≡ some p
    → find_proposal id (change_proposal n f s) ≡ some (if n == id then f p else p)
changed_proposal id n f s p (z, k) c h = elim (Option-cases (find_proposal n s)) [
  | inl e ↦ elim (Bool-cases (n == id)) [
    | inl same ↦
        let number : n ≡ id = ground arith in
        absurd (ground (arith, sym (ap (λ m. find_proposal m s) number) ∙ e))
    | inr other ↦ ground (arith, change_missing n f s e)
  ]
  | inr (x, e) ↦
      let (i, o) = c x in
      let stored = find_one-has_id proposal_key (is_proposal n) s.next_id s.proposals k e in
      let passes = find_one_passes (is_proposal n) s.proposals e in
      elim (Bool-cases (n == id)) [
        | inl same ↦
            let number : n ≡ id = ground arith in
            let found : find_one (is_proposal id) s.proposals ≡ some x =
              sym (ap (λ m. find_proposal m s) number) ∙ e in
            let new =
              find_one-update_passes proposal_key (is_proposal id) (f x) x s.proposals
                (ground arith) found (sym i) in
            ground (arith, change_stored n f s x e)
        | inr other ↦
            elim (find_one-update_some proposal_key (is_proposal id) (f x) x s.proposals
              (ap (λ m. find_one (has_id proposal_key m) s.proposals) i ∙ stored)
              (ap (λ m. m == id) o) h) [
                | inl found ↦ ground (arith, change_stored n f s x e)
                | inr (found, m) ↦
                    let number =
                      find_one_passes (is_proposal id) (update_row proposal_key (f x) s.proposals)
                        found in
                    absurd (ground arith)
              ]
      ]
]

pub change_tally :
    (id n : ℕ) (f : Proposal → Proposal) (a b given refused : ℕ) (s : Index)
    → IsChange f
    → ((q : Proposal) → ((f q).yes_votes ≡ q.yes_votes + a) × ((f q).no_votes ≡ q.no_votes + b))
    → AreProposed s
    → IsTallied id given refused s
    → AreProposed (change_proposal n f s)
      × IsTallied id
          (given + (if n == id then a else 0))
          (refused + (if n == id then b else 0))
          (change_proposal n f s)
change_tally id n f a b given refused s c d k (p, e, y, o) =
    let kept = change_proposal-AreProposed n f s k in
    let found = changed_proposal id n f s p k c e in
    let (yd, nd) = d p in (kept, ((if n == id then f p else p), found, ground arith, ground arith))

-- A change that keeps the votes.
pub change_tally_0 :
    (id n : ℕ) (f : Proposal → Proposal) (given refused : ℕ) (s : Index)
    → IsChange f
    → ((q : Proposal) → ((f q).yes_votes ≡ q.yes_votes) × ((f q).no_votes ≡ q.no_votes))
    → AreProposed s
    → IsTallied id given refused s
    → AreProposed (change_proposal n f s)
      × IsTallied id (given + 0) (refused + 0) (change_proposal n f s)
change_tally_0 id n f given refused s c d k (p, e, y, o) =
    let found = changed_proposal id n f s p k c e in
    let (yd, nd) = d p in
    (
      change_proposal-AreProposed n f s k,
      ((if n == id then f p else p), found, ground arith, ground arith),
    )

-- A proposal that is not stored yet.
stored_proposal :
    (id equb : ℕ) (proposer rules text : Text) (deadline : ℕ) (s : Index)
    → find_proposal id s ≡ none
    → handle_proposal_created id equb proposer rules text deadline s ≡ record s {
      proposals = s.proposals ++ created_proposal id equb proposer rules text deadline s ∷ [];
      next_id = s.next_id + 1;
    }
unfolding handle_proposal_created
stored_proposal id equb proposer rules text deadline s e = ground arith

pub created_tally :
    (id n equb : ℕ) (proposer rules text : Text) (deadline given refused : ℕ) (s : Index)
    → AreProposed s
    → IsTallied id given refused s
    → AreProposed (handle_proposal_created n equb proposer rules text deadline s)
      × IsTallied id given refused (handle_proposal_created n equb proposer rules text deadline s)
unfolding handle_proposal_created created_proposal
created_tally id n equb proposer rules text deadline given refused s (z, k) (p, f, y, o) =
    elim (Option-cases (find_proposal n s)) [
      | inr (q, e) ↦
          let same : handle_proposal_created n equb proposer rules text deadline s ≡ s =
            ground arith in
          subst (λ t. AreProposed t × IsTallied id given refused t) (sym same)
            ((z, k), (p, f, y, o))
      | inl e ↦
          let new = created_proposal n equb proposer rules text deadline s in
          let found = find_one-append_some (is_proposal id) new s.proposals f in
          subst (λ t. AreProposed t × IsTallied id given refused t)
            (sym (stored_proposal n equb proposer rules text deadline s e))
            (
              (omega arith, append-IsKeyed proposal_key s.next_id new s.proposals z refl k),
              (p, found, y, o),
            )
    ]
