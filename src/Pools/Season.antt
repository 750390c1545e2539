-- ===== src/Pools/Season.antt =====
-- The season of a pool, derived from the pool's round counter (`ensureSeasonState`,
-- `assertSeasonActive`), and its active round (`ensureActiveRound`). The source changes the pool
-- object that it is given, so the calls give the pool back.
pub mod Derived
pub mod Latest
use diaspora_equb_product.Common.{
  ℕ, ◌+◌, ◌-◌, min, max, Bool, true, false, not, ◌&&◌, ◌||◌, Option, none, some, List, [], ◌∷◌,
  Text, codes, ◌==◌, ltb, leb, if◌then◌else◌, or_else, ok, err, Action, Fault, find_one, gets, pure,
  throw_if, ◌>>=◌, ◌>>◌,
}
use diaspora_equb_product.Pools.Entities.{
  Pool, PoolStatus, Season, SeasonStatus, Round, RoundStatus, Db, is_completed, is_pool_completed,
}
use diaspora_equb_product.Pools.Store.{save_pool, save_season, insert_round}

abbrev pub zero_address : Text
zero_address = codes "0x0000000000000000000000000000000000000000"

-- `Math.min(Math.max(currentRound - 1, 0), totalRounds)`; `-` on ℕ stops at 0 as the `max` does.
unfoldable pub derive_completed_rounds : ℕ → ℕ → ℕ
derive_completed_rounds current_round total_rounds = min (current_round - 1) total_rounds

abbrev later_season : ℕ → Season → Option Season → Option Season
later_season pool_id s none = if s.pool_id == pool_id then some s else none
later_season pool_id s (some t) =
    if s.pool_id == pool_id && not (ltb s.season_number t.season_number) then some s else some t

-- `findOne({ where: { poolId }, order: { seasonNumber: 'DESC' } })`
abbrev pub latest_season : ℕ → List Season → Option Season
latest_season pool_id [] = none
latest_season pool_id (s ∷ ss) = later_season pool_id s (latest_season pool_id ss)

unfoldable pub first_season : ℕ → Pool → Season
first_season now pool = record {
  id = 0;
  pool_id = pool.id;
  season_number = 1;
  status = SeasonStatus.active;
  total_rounds = pool.max_members;
  completed_rounds = 0;
  contribution_amount = pool.contribution_amount;
  token = pool.token;
  payout_split_pct = 20;
  cadence = none;
  started_at = now;
  completed_at = none;
}

-- The three assignments of `ensureSeasonState`, each with the `changed` flag.
unfoldable pub sync_rounds : ℕ → Season × Bool → Season × Bool
sync_rounds completed (s, changed) =
    if s.completed_rounds == completed
    then (s, changed)
    else (record s { completed_rounds = completed }, true)

unfoldable pub sync_complete : ℕ → Bool → Season × Bool → Season × Bool
sync_complete now should_complete (s, changed) =
    if should_complete && not (is_completed s.status)
    then (
      record s {
        status = SeasonStatus.completed;
        completed_at = some (or_else s.completed_at now);
      },
      true,
    )
    else (s, changed)

unfoldable pub sync_reopen : Bool → Season × Bool → Season × Bool
sync_reopen should_complete (s, changed) =
    if not should_complete && is_completed s.status
    then (record s { status = SeasonStatus.active; completed_at = none }, true)
    else (s, changed)

-- `shouldComplete`
abbrev pub should_complete : Pool → Season → Bool
should_complete pool s =
    leb s.total_rounds (derive_completed_rounds pool.current_round s.total_rounds)

unfoldable pub sync_season : ℕ → Pool → Season → Season × Bool
unfolding sync_rounds sync_complete sync_reopen
sync_season now pool s =
    let completed = derive_completed_rounds pool.current_round s.total_rounds in
    let should = should_complete pool s in
    sync_reopen should (sync_complete now should (sync_rounds completed (s, false)))

unfoldable pub ensure_season_state : ℕ → Pool → Action Db (Season × Pool)
ensure_season_state now pool = do
  found ← gets (λ db. latest_season pool.id db.seasons)
  let latest = or_else found (first_season now pool)
  let (synced, changed) = sync_season now pool latest
  season ← (if changed || synced.id == 0 then save_season synced else pure synced)
  let completed_pool : Pool = record pool { status = PoolStatus.completed }
  (if should_complete pool latest && not (is_pool_completed pool.status)
      then save_pool completed_pool >> pure (season, completed_pool)
      else pure (season, pool))

unfoldable pub assert_season_active : ℕ → Pool → Action Db (Season × Pool)
assert_season_active now pool = do
  result ← ensure_season_state now pool
  throw_if (is_completed (result.0).status) Fault.season_complete
  pure result

-- `toRoundStatus`
unfoldable pub to_round_status : PoolStatus → RoundStatus
to_round_status PoolStatus.winner_picked = RoundStatus.winner_picked
to_round_status PoolStatus.closed = RoundStatus.closed
to_round_status PoolStatus.round_closed = RoundStatus.closed
to_round_status _ = RoundStatus.open_round

abbrev pub is_round : ℕ → ℕ → ℕ → Round → Bool
is_round round_id pool_id season_id r =
    r.id == round_id && r.pool_id == pool_id && r.season_id == season_id

abbrev pub is_numbered : ℕ → ℕ → ℕ → Round → Bool
is_numbered pool_id season_id number r =
    r.pool_id == pool_id && r.season_id == season_id && r.round_number == number

-- The round that the pool points to.
abbrev pub pointed_round : Pool → Season → Db → Option Round
pointed_round pool season db = elim pool.active_round_id [
  | none ↦ none
  | some round_id ↦ find_one (is_round round_id pool.id season.id) db.rounds
]

unfoldable pub target_round_number : Pool → Season → ℕ
target_round_number pool season =
    if ltb 0 pool.current_round then pool.current_round else season.completed_rounds + 1

unfoldable pub new_round : ℕ → ℕ → ℕ → RoundStatus → Round
new_round pool_id season_id number status = record {
  id = 0;
  pool_id = pool_id;
  season_id = season_id;
  round_number = number;
  status = status;
  closed_at = none;
  winner_picked_at = none;
  winner_wallet = none;
}

-- The branch where the pool's pointer names no round of the season.
unfoldable pub adopt_round : Pool → Season → Action Db (Round × Pool)
unfolding target_round_number new_round to_round_status
adopt_round pool season = do
  let number = target_round_number pool season
  found ← gets (λ db. find_one (is_numbered pool.id season.id number) db.rounds)
  round ← elim found [
    | none ↦ insert_round (new_round pool.id season.id number (to_round_status pool.status))
    | some r ↦ pure r
  ]
  let pointed : Pool = record pool {
    active_round_id = some round.id;
    current_round = round.round_number;
  }
  save_pool pointed
  pure (round, pointed)

unfoldable pub ensure_active_round : Pool → Season → Action Db (Round × Pool)
ensure_active_round pool season = do
  found ← gets (pointed_round pool season)
  elim found [ none ↦ adopt_round pool season | some r ↦ pure (r, pool) ]
