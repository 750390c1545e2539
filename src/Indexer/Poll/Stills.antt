-- ===== src/Indexer/Poll/Stills.antt =====
-- The handlers and the cursors, the numbers of the last indexed blocks.
use diaspora_equb_product.Common.{
  ℕ, ◌+◌, ◌≤◌, ◌≡◌, refl, ◌∙◌, Bool, arith, Option, Text, List, [], ◌∷◌, Option-cases, inl, inr,
  find_one, Action, bind_related, ◌>>◌, codes, print_ℕ, or_else,
}
use diaspora_equb_product.Pools.Entities.{Pool, PoolMember, Contribution, PoolStatus, RowStatus}
use diaspora_equb_product.Pools.Store.{
  find_on_chain, same_contribution, insert_contribution, save_pool,
}
use diaspora_equb_product.Pools.Winner.{pool_members}
use diaspora_equb_product.Indexer.State.{Index, Chain, on_db, emit_notification}
use diaspora_equb_product.Notifications.{NotificationType}
use diaspora_equb_product.Indexer.Handlers.{
  confirm_contribution, reopen_pool, chain_contribution, given_address, handle_joined_pool,
  notify_all_contributed, receive_again, receive_first, handle_contribution_received,
  notify_members, handle_round_closed, handle_default_triggered, handle_round_released,
  handle_stream_frozen,
}
use diaspora_equb_product.Indexer.Money.{handle_collateral_slashed}
use diaspora_equb_product.Indexer.Governance.{
  handle_proposal_created, handle_vote_cast, handle_proposal_executed, handle_proposal_cancelled,
  handle_identity_bound,
}

-- A step that moves no cursor; keys may be issued.
abbrev pub Still : Index → Index → Type 0
Still s t = (t.blocks ≡ s.blocks) × (s.next_id ≤ t.next_id)

pub Still-trans : (a b c : Index) → Still a b → Still b c → Still a c
Still-trans a b c (e, l) (f, m) = (f ∙ e, omega arith)

pub notify_all_contributed-Still :
    (chain : Chain) (p : Pool) (round : ℕ) (s : Index)
    → Still s (notify_all_contributed chain p round s).1
unfolding notify_all_contributed
notify_all_contributed-Still chain p round s = (ground arith, ground arith)

pub joined_pool-Still :
    (chain : Chain) (id : ℕ) (member : Text) (hash : Option Text) (s : Index)
    → Still s (handle_joined_pool chain id member hash s).1
unfolding handle_joined_pool
joined_pool-Still chain id member hash s = (ground arith, ground arith)

pub notify_members-Still :
    (chain : Chain) (id round : ℕ) (ms : List PoolMember) (s : Index)
    → Still s (notify_members chain id round ms s).1
unfolding notify_members
notify_members-Still chain id round [] s = (refl, omega arith)
notify_members-Still chain id round (m ∷ ms) s = notify_members-Still chain id round ms _

pub round_closed-Still :
    (chain : Chain) (id round : ℕ) (s : Index) → Still s (handle_round_closed chain id round s).1
unfolding handle_round_closed
round_closed-Still chain id round s = elim (Option-cases (find_on_chain id s.db)) [
  | inl h ↦ (ground arith, ground arith)
  | inr (p, h) ↦
      let mid : Index = record s {
        db =
            (save_pool (record p { current_round = round + 1; status = PoolStatus.round_closed })
              s.db).1;
      } in
      let (b, n) = notify_members-Still chain p.id round (pool_members p.id s.db.members) mid in
      (ground (arith, b), ground (arith, n))
]

pub receive_again-Still :
    (chain : Chain) (p : Pool) (c : Contribution) (round : ℕ) (hash : Option Text) (s : Index)
    → Still s (receive_again chain p c round hash s).1
unfolding receive_again
receive_again-Still chain p c round hash s =
    bind_related Still Still-trans (on_db (confirm_contribution c hash))
      (λ x. on_db (reopen_pool p) >> notify_all_contributed chain p round) s (refl, omega arith)
      (λ a.
        bind_related Still Still-trans (on_db (reopen_pool p))
          (λ x. notify_all_contributed chain p round) (on_db (confirm_contribution c hash) s).1
          (refl, omega arith) (λ b. notify_all_contributed-Still chain p round _))

pub receive_first-Still :
    (chain : Chain) (p : Pool) (member : Text) (round : ℕ) (hash : Option Text) (s : Index)
    → Still s (receive_first chain p member round hash s).1
unfolding receive_first
receive_first-Still chain p member round hash s =
    let new = chain_contribution p.id member round RowStatus.confirmed (given_address hash) in
    let told : Action Index (Unit {0}) =
      emit_notification member NotificationType.contribution_confirmed (
        codes "contribution_confirmed"
        ∷ chain.print_id p.id
        ∷ member
        ∷ print_ℕ round
        ∷ or_else hash (codes "no_tx")
        ∷ []) in
    let end : Action Index (Unit {0}) = told >> notify_all_contributed chain p round in
    bind_related Still Still-trans (on_db (insert_contribution new))
      (λ x. on_db (reopen_pool p) >> end) s (refl, omega arith)
      (λ a.
        bind_related Still Still-trans (on_db (reopen_pool p)) (λ x. end)
          (on_db (insert_contribution new) s).1 (refl, omega arith)
          (λ b.
            notify_all_contributed-Still chain p round
              (told ((on_db (reopen_pool p) (on_db (insert_contribution new) s).1).1)).1))

pub contribution_received-Still :
    (chain : Chain) (id : ℕ) (member : Text) (round : ℕ) (hash : Option Text) (s : Index)
    → Still s (handle_contribution_received chain id member round hash s).1
unfolding handle_contribution_received
contribution_received-Still chain id member round hash s =
    elim (Option-cases (find_on_chain id s.db)) [
      | inl h ↦ (ground arith, ground arith)
      | inr (p, h) ↦
          elim (Option-cases (find_one (same_contribution p.id member round) s.db.contributions)) [
            | inr (c, g) ↦
                let (b, n) = receive_again-Still chain p c round hash s in
                (ground (arith, b), ground (arith, n))
            | inl g ↦
                let (b, n) = receive_first-Still chain p member round hash s in
                (ground (arith, b), ground (arith, n))
          ]
    ]

pub default_triggered-Still :
    (chain : Chain) (id : ℕ) (member : Text) (round : ℕ) (s : Index)
    → Still s (handle_default_triggered chain id member round s).1
unfolding handle_default_triggered
default_triggered-Still chain id member round s = (ground arith, ground arith)

pub round_released-Still :
    (chain : Chain) (id : ℕ) (who : Text) (amount : ℕ) (s : Index)
    → Still s (handle_round_released chain id who amount s).1
unfolding handle_round_released
round_released-Still chain id who amount s = (ground arith, ground arith)

pub stream_frozen-Still :
    (chain : Chain) (id : ℕ) (who : Text) (s : Index)
    → Still s (handle_stream_frozen chain id who s).1
unfolding handle_stream_frozen
stream_frozen-Still chain id who s = (ground arith, ground arith)

pub collateral_slashed-Still :
    (chain : Chain) (user : Text) (amount : ℕ) (s : Index)
    → Still s (handle_collateral_slashed chain user amount s).1
unfolding handle_collateral_slashed
collateral_slashed-Still chain user amount s = (ground arith, ground arith)

pub proposal_created-Still :
    (id equb : ℕ) (proposer rules text : Text) (deadline : ℕ) (s : Index)
    → Still s (handle_proposal_created id equb proposer rules text deadline s)
unfolding handle_proposal_created
proposal_created-Still id equb proposer rules text deadline s = (ground arith, ground arith)

pub vote_cast-Still :
    (id : ℕ) (support : Bool) (s : Index) → Still s (handle_vote_cast id support s)
unfolding handle_vote_cast
vote_cast-Still id support s = (ground arith, ground arith)

pub proposal_executed-Still : (id : ℕ) (s : Index) → Still s (handle_proposal_executed id s)
unfolding handle_proposal_executed
proposal_executed-Still id s = (ground arith, ground arith)

pub proposal_cancelled-Still : (id : ℕ) (s : Index) → Still s (handle_proposal_cancelled id s)
unfolding handle_proposal_cancelled
proposal_cancelled-Still id s = (ground arith, ground arith)

pub identity_bound-Still :
    (wallet identity : Text) (s : Index) → Still s (handle_identity_bound wallet identity s)
unfolding handle_identity_bound
identity_bound-Still wallet identity s = (ground arith, ground arith)
