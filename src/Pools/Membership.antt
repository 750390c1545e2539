-- ===== src/Pools/Membership.antt =====
-- `joinPool`, `recordContribution`, the legacy `closeRound`, `createPool` and the read methods
-- `getEligibleWinners`, `listPools` and `getPoolToken`. These calls are not transactions: what was
-- saved before a throw stays saved.
pub mod Capacity
pub mod Rounds
pub mod Closing
use diaspora_equb_product.Common.{
  ℕ, ◌+◌, Bool, true, false, not, ◌&&◌, Option, none, some, List, [], ◌∷◌, ◌++◌, Text, ◌==◌, ltb,
  leb, any, is_empty, length, filter_by, map, if◌then◌else◌, text_eq, ok, err, Action, Fault, gets,
  pure, throw, some_or, throw_if, ◌>>=◌, ◌>>◌,
}
use diaspora_equb_product.Pools.Entities.{
  Pool, PoolMember, PoolStatus, Contribution, RowStatus, Season, Db,
}
use diaspora_equb_product.Pools.Store.{
  find_pool, find_member, save_pool, insert_member, insert_contribution, same_contribution,
}
use diaspora_equb_product.Pools.Season.{zero_address, ensure_season_state, assert_season_active}
use diaspora_equb_product.Pools.Winner.{pool_members, eligible_members}

unfoldable pub new_member : ℕ → Text → PoolMember
new_member pool_id wallet = record { id = 0; pool_id = pool_id; wallet_address = wallet }

unfoldable pub new_contribution : ℕ → Text → ℕ → Contribution
new_contribution pool_id wallet round = record {
  id = 0;
  pool_id = pool_id;
  wallet_address = wallet;
  round = round;
  status = RowStatus.pending_onchain;
  tx_hash = none;
}

-- Gives the `memberCount` of the response.
unfoldable pub join_pool : ℕ → Text → Action Db ℕ
unfolding pool_members new_member
join_pool pool_id wallet = do
  pool ← some_or (← gets (find_pool pool_id)) Fault.not_found
  members ← gets (λ db. pool_members pool_id db.members)
  throw_if (leb pool.max_members (length members)) Fault.conflict
  existing ← gets (find_member pool_id wallet)
  elim existing [
    | some m ↦ throw Fault.conflict
    | none ↦ do insert_member (new_member pool_id wallet); pure (length members + 1)
  ]

unfoldable pub record_contribution : ℕ → Text → ℕ → Action Db (Unit {0})
unfolding new_member new_contribution
record_contribution pool_id wallet round = do
  pool ← some_or (← gets (find_pool pool_id)) Fault.not_found
  found ← gets (find_member pool_id wallet)
  member ← elim found [ some m ↦ pure m | none ↦ insert_member (new_member pool_id wallet) ]
  throw_if (← gets (λ db. any (same_contribution pool_id wallet round) db.contributions))
      Fault.conflict
  insert_contribution (new_contribution pool_id wallet round)
  pure tt

-- `contributedAddresses.has(wallet)`, over the contributions of one round of the pool.
unfoldable pub has_contributed : List Contribution → ℕ → ℕ → Text → Bool
has_contributed contributions pool_id round wallet =
    any (λ c. text_eq c.wallet_address wallet)
      (filter_by (λ c. c.pool_id == pool_id && c.round == round) contributions)

-- The loop of `closeRound` over the members: contributors and defaulters.
unfoldable pub split_members : (Text → Bool) → List PoolMember → List Text × List Text
split_members contributed [] = ([], [])
split_members contributed (m ∷ ms) =
    let (contributors, defaulters) = split_members contributed ms in
    if contributed m.wallet_address
    then (m.wallet_address ∷ contributors, defaulters)
    else (contributors, m.wallet_address ∷ defaulters)

pub record CloseRoundResponse : Type 0 where
  pub contributors : List Text
  pub defaulters : List Text
  pub next_round : ℕ
  pub status : PoolStatus
  pub season : Season

unfoldable pub close_round : ℕ → ℕ → ℕ → Action Db CloseRoundResponse
close_round now pool_id round = do
  found ← some_or (← gets (find_pool pool_id)) Fault.not_found
  (active_season, pool) ← assert_season_active now found
  members ← gets (λ db. pool_members pool_id db.members)
  split ← gets (λ db. split_members (has_contributed db.contributions pool_id round) members)
  let completed = ltb pool.max_members (round + 1)
  let status = if completed then PoolStatus.completed else PoolStatus.round_closed
  let closed : Pool = record pool { current_round = round + 1; status = status }
  save_pool closed
  (season, synced) ← ensure_season_state now closed
  pure (record {
    contributors = split.0;
    defaulters = split.1;
    next_round = round + 1;
    status = status;
    season = season;
  })

unfoldable pub create_pool : ℕ → Text → ℕ → Text → Action Db Pool
create_pool tier contribution_amount max_members treasury db =
    let pool : Pool = record {
      id = db.next_id;
      on_chain_pool_id = none;
      tier = tier;
      contribution_amount = contribution_amount;
      max_members = max_members;
      current_round = 1;
      treasury = treasury;
      token = zero_address;
      status = PoolStatus.pending_onchain;
      tx_hash = none;
      active_season_id = none;
      active_round_id = none;
      created_by = none;
      equb_type = none;
      frequency = none;
    } in
    (ok pool, record db { pools = db.pools ++ pool ∷ []; next_id = db.next_id + 1 })

-- The wallets that may still win; the second half is the season's number, which a pool without
-- members leaves out.
unfoldable pub get_eligible_winners : ℕ → ℕ → Action Db (List Text × Option ℕ)
unfolding ensure_season_state eligible_members pool_members
get_eligible_winners now pool_id = do
  found ← some_or (← gets (find_pool pool_id)) Fault.not_found
  (season, pool) ← ensure_season_state now found
  members ← gets (λ db. pool_members pool_id db.members)
  eligible ← gets (λ db. eligible_members pool_id season.id db.members db.rounds)
  if is_empty members
      then pure ([], none)
      else pure (map (λ m. m.wallet_address) eligible, some season.season_number)

-- Most recent first; a tier that is no number is no filter.
unfoldable pub list_pools : Option ℕ → Db → List Pool
list_pools none db = mathlib.Core.List.reverse db.pools
list_pools (some tier) db = mathlib.Core.List.reverse (filter_by (λ p. p.tier == tier) db.pools)
