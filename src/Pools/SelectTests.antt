-- ===== src/Pools/SelectTests.antt =====
-- A winner selection of the sample pool.
use diaspora_equb_product.Common.{false, none, some, [], codes, text_eq, to_lower, trim, Result}
use diaspora_equb_product.Pools.Season.{
  ensure_season_state, sync_season, derive_completed_rounds, first_season, assert_season_active,
}
use diaspora_equb_product.Pools.Lifecycle.{same_wallet}
use diaspora_equb_product.Pools.NextSeason.{checked_address}
use diaspora_equb_product.Pools.Cooldown.{guard_key, enforce_cooldown, prune, is_cooling}
use diaspora_equb_product.Pools.SelectWinner.{
  Read, WinnerReads, SelectWinnerDto, SelectWinnerResponse, ServiceState, read_winner,
  fallback_winner, check_provided, build_schedule, build_close_round, authorize_selection,
  build_close, schedule_response, build_select_winner,
}
use diaspora_equb_product.Pools.Sample.{admin, alice, closed_db, same_address}

-- The chain has drawn a winner for round 1 and not scheduled the payout.
abbrev reads : WinnerReads
reads = record {
  last_closed = Read.value (1, alice);
  current_round = Read.not_ready;
  round_winner = λ n. Read.not_ready;
  winner_scheduled = λ n. Read.value false;
}

abbrev request : SelectWinnerDto
request = record {
  phase = none;
  winner = some alice;
  total = codes "1000";
  upfront_percent = 20;
  total_rounds = 4;
  caller = some admin;
}

abbrev selected : Result SelectWinnerResponse × ServiceState
selected =
    build_select_winner same_address reads 9000 1 (codes "1") request
      (record { db = closed_db; guard = [] })

evaluation : Unit {0}
unfolding build_select_winner ensure_season_state sync_season derive_completed_rounds first_season
    assert_season_active same_wallet checked_address guard_key enforce_cooldown prune is_cooling
    read_winner fallback_winner check_provided build_schedule build_close_round authorize_selection
    build_close schedule_response text_eq to_lower trim
evaluation = tt
