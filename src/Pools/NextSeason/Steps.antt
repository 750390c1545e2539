-- ===== src/Pools/NextSeason/Steps.antt =====
-- When `createNextSeason` opens a season.
use diaspora_equb_product.Common.{
  ℕ, ◌≡◌, inl, inr, true, Option, some, [], ◌∷◌, ◌++◌, Text, arith, ok, update_row, outcome_cases,
  Option-cases,
}
use diaspora_equb_product.Pools.Entities.{Pool, Season, Db, is_completed, pool_key}
use diaspora_equb_product.Pools.Store.{find_pool}
use diaspora_equb_product.Pools.Season.{ensure_season_state}
use diaspora_equb_product.Pools.Lifecycle.{known_creator, same_wallet}
use diaspora_equb_product.Pools.NextSeason.{
  CreateSeasonDto, checked_address, next_season, restart_pool, create_next_season,
}

-- The steps of a call that opened `season`, which has the key that the database issued.
pub record NextSeasonSteps (get_address : Text → Option Text) (now pool_id : ℕ)
    (dto : CreateSeasonDto) (db : Db) (pool : Pool) (season : Season) (db' : Db) : Type 0 where
  pub found : Pool
  pub creator : Text
  pub caller : Text
  pub synced : Pool
  pub latest : Season
  pub mid : Db
  pub is_found : find_pool pool_id db ≡ some found
  pub created : known_creator found ≡ some creator
  pub called : get_address dto.caller ≡ some caller
  pub admin : same_wallet caller creator ≡ true
  pub season_step : ensure_season_state now found db ≡ (ok (latest, synced), mid)
  pub ended : is_completed latest.status ≡ true
  pub opened : season ≡ record (next_season now synced latest dto) { id = (mid).next_id }
  pub restarted : pool ≡ restart_pool synced season
  pub seasons : db'.seasons ≡ (mid).seasons ++ season ∷ []
  pub pools : db'.pools ≡ update_row pool_key pool (mid).pools

-- The last part of the transaction, on the rows that `ensureSeasonState` gave.
record OpenSteps (now : ℕ) (dto : CreateSeasonDto) (latest : Season) (synced : Pool) (mid : Db)
    (pool : Pool) (season : Season) (db' : Db) : Type 0 where
  ended : is_completed latest.status ≡ true
  opened : season ≡ record (next_season now synced latest dto) { id = mid.next_id }
  restarted : pool ≡ restart_pool synced season
  seasons : db'.seasons ≡ mid.seasons ++ season ∷ []
  pools : db'.pools ≡ update_row pool_key pool mid.pools

module _ (get_address : Text → Option Text) (now pool_id : ℕ) (dto : CreateSeasonDto)
    (db : Db) where
  pub create_next_season-steps :
      {pool : Pool} {season : Season} {db' : Db}
      → create_next_season get_address now pool_id dto db ≡ (ok (pool, season), db')
      → NextSeasonSteps get_address now pool_id dto db pool season db'
  unfolding create_next_season checked_address
  create_next_season-steps {pool} {season} {db'} h = elim (Option-cases (find_pool pool_id db)) [
    | inl e ↦ absurd (ground arith)
    | inr (found, e) ↦ elim (Option-cases (known_creator found)) [
      | inl f ↦ absurd (ground arith)
      | inr (creator, f) ↦ elim (Option-cases (get_address dto.caller)) [
        | inl g ↦ absurd (ground arith)
        | inr (caller, g) ↦ elim (outcome_cases (ensure_season_state now found db)) [
          | inr (x, t, k) ↦ absurd (ground arith)
          | inl ((latest, synced), mid, k) ↦
              let steps : OpenSteps now dto latest synced mid pool season db' = ground arith in
              record {
                found = found;
                creator = creator;
                caller = caller;
                synced = synced;
                latest = latest;
                mid = mid;
                is_found = e;
                created = f;
                called = g;
                admin = ground arith;
                season_step = k;
                ended = steps.ended;
                opened = steps.opened;
                restarted = steps.restarted;
                seasons = steps.seasons;
                pools = steps.pools;
              }
        ]
      ]
    ]
  ]
