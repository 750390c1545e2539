-- ===== src/Pools/NextSeason.antt =====
-- `createNextSeason`: the admin opens the season after a completed one.
pub mod Steps
pub mod Reopened
use diaspora_equb_product.Common.{
  ℕ, ◌+◌, Bool, not, Option, none, some, Text, if◌then◌else◌, or_else, ok, err, Result, Action,
  Fault, gets, pure, lift, some_or, throw_if, transaction, ◌>>=◌, ◌>>◌,
}
use diaspora_equb_product.Pools.Entities.{Pool, PoolStatus, Season, SeasonStatus, Db, is_completed}
use diaspora_equb_product.Pools.Store.{find_pool, save_pool, insert_season}
use diaspora_equb_product.Pools.Season.{zero_address, ensure_season_state}
use diaspora_equb_product.Pools.Lifecycle.{known_creator, same_wallet}

pub record CreateSeasonDto : Type 0 where
  pub caller : Text
  pub contribution_amount : Option Text
  pub payout_split_pct : Option ℕ
  pub cadence : Option Text

-- `ethers.getAddress` outside a `try`.
unfoldable pub checked_address : (Text → Option Text) → Text → Result Text
checked_address get_address s = elim (get_address s) [
  | none ↦ err Fault.invalid_address
  | some a ↦ ok a
]

unfoldable pub next_season : ℕ → Pool → Season → CreateSeasonDto → Season
next_season now pool latest dto = record {
  id = 0;
  pool_id = pool.id;
  season_number = latest.season_number + 1;
  status = SeasonStatus.active;
  total_rounds = pool.max_members;
  completed_rounds = 0;
  contribution_amount = or_else dto.contribution_amount latest.contribution_amount;
  token = zero_address;
  payout_split_pct = or_else dto.payout_split_pct latest.payout_split_pct;
  cadence = elim dto.cadence [ none ↦ latest.cadence | some c ↦ some c ];
  started_at = now;
  completed_at = none;
}

-- The first round of the response is not stored: the next lifecycle call opens it.
unfoldable pub restart_pool : Pool → Season → Pool
restart_pool pool season = record pool {
  current_round = 1;
  status = PoolStatus.active;
  contribution_amount = season.contribution_amount;
  token = zero_address;
}

unfoldable pub create_next_season :
    (Text → Option Text) → ℕ → ℕ → CreateSeasonDto → Action Db (Pool × Season)
create_next_season get_address now pool_id dto = transaction (do
  found ← some_or (← gets (find_pool pool_id)) Fault.not_found
  creator ← some_or (known_creator found) Fault.not_pool_admin
  caller ← lift (checked_address get_address dto.caller)
  throw_if (not (same_wallet caller creator)) Fault.not_pool_admin
  (latest, pool) ← ensure_season_state now found
  throw_if (not (is_completed latest.status)) Fault.season_not_completed
  season ← insert_season (next_season now pool latest dto)
  saved ← save_pool (restart_pool pool season)
  pure (saved, season))
