-- ===== src/Indexer/Handlers.antt =====
-- The handlers of the events of EqubPool and PayoutStream.
mod Creation
mod Streams
unfoldable pub use Creation.*
unfoldable pub use Streams.*
use diaspora_equb_product.Common.{
  written, ℕ, ◌+◌, Bool, true, false, not, ◌&&◌, Option, none, some, List, [], ◌∷◌, Text, codes,
  ◌==◌, leb, length, filter_by, if◌then◌else◌, or_else, text_eq, to_lower, trim, is_blank, find_one,
  Result, ok, err, Action, Fault, gets, pure, lift, ◌>>=◌, ◌>>◌, ℤ, pos, ◌+ℤ◌, print_ℤ, big_int,
  print_ℕ,
}
use diaspora_equb_product.Pools.Entities.{Pool, PoolStatus, PoolMember, Contribution, RowStatus, Db}
use diaspora_equb_product.Pools.Store.{
  find_on_chain, save_pool, insert_pool, find_member, insert_member, same_contribution,
  insert_contribution, update_contribution, find_stream, insert_stream, update_stream,
}
use diaspora_equb_product.Pools.Season.{zero_address}
use diaspora_equb_product.Pools.Lifecycle.{known_creator}
use diaspora_equb_product.Pools.Winner.{pool_members}
use diaspora_equb_product.Pools.Membership.{new_member}
use diaspora_equb_product.Pools.Streams.{upfront_part}
use diaspora_equb_product.Rules.{fetch_rules_from_chain, upsert_rules_from_chain}
use diaspora_equb_product.Indexer.State.{Index, Chain, on_db, caught, emit_notification}
use diaspora_equb_product.Notifications.{NotificationType}

unfoldable pub handle_joined_pool : Chain → ℕ → Text → Option Text → Action Index (Unit {0})
unfolding new_member
handle_joined_pool chain on_chain_id member tx_hash = do
  found ← gets (λ s. find_on_chain on_chain_id s.db)
  elim found [
    | none ↦ pure tt
    | some pool ↦ do
      existing ← gets (λ s. find_member pool.id member s.db)
      elim existing [
        | some m ↦ pure tt
        | none ↦ do
          on_db (insert_member (new_member pool.id member))
          emit_notification member NotificationType.pool_joined (
              codes "pool_joined"
              ∷ chain.print_id pool.id
              ∷ member
              ∷ or_else tx_hash (codes "no_tx")
              ∷ [])
      ]
  ]

abbrev is_pending : RowStatus → Bool
is_pending RowStatus.pending_onchain = true
is_pending _ = false

abbrev pub is_round_closed : PoolStatus → Bool
is_round_closed PoolStatus.round_closed = true
is_round_closed _ = false

-- A closed round opens again with a contribution.
unfoldable pub reopen_pool : Pool → Action Db (Unit {0})
reopen_pool pool =
    if is_round_closed pool.status
    then save_pool (record pool { status = PoolStatus.active }) >> pure tt
    else pure tt

-- How many contributions the round has, of any status.
abbrev pub contribution_count : ℕ → ℕ → Db → ℕ
contribution_count pool_id round db =
    length (filter_by (λ c. c.pool_id == pool_id && c.round == round) db.contributions)

-- The creator is told when the round has as many contributions as the pool has members.
unfoldable pub notify_all_contributed : Chain → Pool → ℕ → Action Index (Unit {0})
unfolding pool_members
notify_all_contributed chain pool round = do
  members ← gets (λ s. length (pool_members pool.id s.db.members))
  count ← gets (λ s. contribution_count pool.id round s.db)
  elim (known_creator pool) [
    | none ↦ pure tt
    | some creator ↦
        if not (members == 0) && leb members count
        then emit_notification creator NotificationType.all_contributed
            (codes "all_contributed" ∷ chain.print_id pool.id ∷ print_ℕ round ∷ [])
        else pure tt
  ]

-- A hash that is empty or missing is stored as `null`.
unfoldable pub confirm_contribution : Contribution → Option Text → Action Db (Unit {0})
confirm_contribution c tx_hash =
    if is_pending c.status
    then update_contribution
        (record c { status = RowStatus.confirmed; tx_hash = given_address tx_hash })
      >> pure tt
    else pure tt

unfoldable pub chain_contribution : ℕ → Text → ℕ → RowStatus → Option Text → Contribution
chain_contribution pool_id member round status tx_hash = record {
  id = 0;
  pool_id = pool_id;
  wallet_address = member;
  round = round;
  status = status;
  tx_hash = tx_hash;
}

-- A contribution that is stored already.
unfoldable pub receive_again :
    Chain → Pool → Contribution → ℕ → Option Text → Action Index (Unit {0})
unfolding confirm_contribution reopen_pool
receive_again chain pool c round tx_hash = do
  on_db (confirm_contribution c tx_hash)
  on_db (reopen_pool pool)
  notify_all_contributed chain pool round

-- A contribution that is not stored.
unfoldable pub receive_first : Chain → Pool → Text → ℕ → Option Text → Action Index (Unit {0})
unfolding reopen_pool chain_contribution
receive_first chain pool member round tx_hash = do
  on_db (
      insert_contribution
        (chain_contribution pool.id member round RowStatus.confirmed (given_address tx_hash)))
  on_db (reopen_pool pool)
  emit_notification member NotificationType.contribution_confirmed (
      codes "contribution_confirmed"
      ∷ chain.print_id pool.id
      ∷ member
      ∷ print_ℕ round
      ∷ or_else tx_hash (codes "no_tx")
      ∷ [])
  notify_all_contributed chain pool round

unfoldable pub handle_contribution_received :
    Chain → ℕ → Text → ℕ → Option Text → Action Index (Unit {0})
unfolding receive_again receive_first
handle_contribution_received chain on_chain_id member round tx_hash = do
  found ← gets (λ s. find_on_chain on_chain_id s.db)
  elim found [
    | none ↦ pure tt
    | some pool ↦ do
      existing ← gets (λ s. find_one (same_contribution pool.id member round) s.db.contributions)
      elim existing [
        | some c ↦ receive_again chain pool c round tx_hash
        | none ↦ receive_first chain pool member round tx_hash
      ]
  ]

unfoldable pub notify_members : Chain → ℕ → ℕ → List PoolMember → Action Index (Unit {0})
notify_members chain pool_id round [] = pure tt
notify_members chain pool_id round (m ∷ ms) =
    emit_notification m.wallet_address NotificationType.round_closed
      (codes "round_closed" ∷ chain.print_id pool_id ∷ print_ℕ round ∷ m.wallet_address ∷ [])
    >> notify_members chain pool_id round ms

unfoldable pub handle_round_closed : Chain → ℕ → ℕ → Action Index (Unit {0})
unfolding notify_members pool_members
handle_round_closed chain on_chain_id round = do
  found ← gets (λ s. find_on_chain on_chain_id s.db)
  elim found [
    | none ↦ pure tt
    | some pool ↦ do
      on_db
          (save_pool (record pool { current_round = round + 1; status = PoolStatus.round_closed }))
      members ← gets (λ s. pool_members pool.id s.db.members)
      notify_members chain pool.id round members
  ]

unfoldable pub handle_default_triggered : Chain → ℕ → Text → ℕ → Action Index (Unit {0})
unfolding chain_contribution
handle_default_triggered chain on_chain_id member round = do
  found ← gets (λ s. find_on_chain on_chain_id s.db)
  elim found [
    | none ↦ pure tt
    | some pool ↦ do
      existing ← gets (λ s. find_one (same_contribution pool.id member round) s.db.contributions)
      elim existing [
        | some c ↦ on_db (update_contribution (record c { status = RowStatus.defaulted }))
        | none ↦
            on_db (
              insert_contribution
                (chain_contribution pool.id member round RowStatus.defaulted none))
      ]
      emit_notification member NotificationType.default_triggered
          (codes "default_triggered" ∷ chain.print_id pool.id ∷ member ∷ print_ℕ round ∷ [])
  ]
