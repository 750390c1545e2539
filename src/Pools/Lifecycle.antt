-- ===== src/Pools/Lifecycle.antt =====
-- The lifecycle of a round: `closeActiveRound`, `pickWinnerForActiveRound` and `createNextSeason`.
-- Each runs in one database transaction. `get_address` is ethers' `getAddress` (`none` where it
-- throws), `hash` the SHA-256 digest and `random_int` node's `randomInt`. Telemetry and websocket
-- events go out of the program and are left aside.
pub mod Lock
pub mod Close
use diaspora_equb_product.Common.{
  ℕ, ◌+◌, Bool, true, false, not, ◌&&◌, Option, none, some, List, [], ◌∷◌, ◌++◌, Text, codes, ◌==◌,
  leb, any, is_empty, length, get_elem?, filter_by, if◌then◌else◌, or_else, text_eq, to_lower, trim,
  is_blank, Result, ok, err, Action, Fault, find_one, gets, pure, throw, lift, some_or, throw_if,
  transaction, ◌>>=◌, ◌>>◌,
}
use diaspora_equb_product.Pools.Entities.{
  Pool, PoolMember, PoolStatus, Season, SeasonStatus, Round, RoundStatus, StateResponse,
  IdempotencyKey, Db, is_completed, is_open, is_picked,
}
use diaspora_equb_product.Pools.Store.{
  find_pool, find_round, save_pool, save_season, insert_season, insert_round, update_round,
  insert_key, has_key,
}
use diaspora_equb_product.Pools.Season.{
  zero_address, assert_season_active, ensure_season_state, ensure_active_round, new_round,
}

-- Equality of two addresses without regard to letter case.
unfoldable pub same_wallet : Text → Text → Bool
same_wallet a b = text_eq (to_lower a) (to_lower b)

-- `normalizeWallet`; `!wallet` holds of a missing and of an empty text.
unfoldable pub normalize_wallet : (Text → Option Text) → Option Text → Result Text
normalize_wallet get_address none = err Fault.not_pool_admin
normalize_wallet get_address (some []) = err Fault.not_pool_admin
normalize_wallet get_address (some (c ∷ s)) = elim (get_address (c ∷ s)) [
  | none ↦ err Fault.not_pool_admin
  | some a ↦ ok a
]

-- The creator, unless it is missing or empty.
abbrev pub known_creator : Pool → Option Text
known_creator pool = elim pool.created_by [
  | none ↦ none
  | some a ↦ if is_blank a then none else some a
]

-- The test of `assertAdmin`.
unfoldable pub is_admin : Pool → Text → Bool
unfolding same_wallet
is_admin pool caller = elim (known_creator pool) [ none ↦ false | some a ↦ same_wallet a caller ]

unfoldable pub build_state_response : Pool → Season → Round → StateResponse
build_state_response pool season round = record {
  pool = record pool {
    active_season_id = some season.id;
    active_round_id = some round.id;
    current_round = round.round_number;
  };
  season = season;
  round = round;
  winner_picked_at = if is_picked round.status then round.winner_picked_at else none;
  winner_wallet = if is_picked round.status then round.winner_wallet else none;
  winner = none;
}

-- The rows that a lifecycle call works on.
pub record Locked : Type 0 where
  pub pool : Pool
  pub season : Season
  pub round : Round

-- The common beginning of `closeActiveRound` and `pickWinnerForActiveRound`, within the
-- transaction: the pool, its admin, the active season and the locked active round.
unfoldable pub lock_active_round : ℕ → ℕ → Text → Action Db Locked
lock_active_round now pool_id caller = do
  pool ← some_or (← gets (find_pool pool_id)) Fault.not_found
  throw_if (not (is_admin pool caller)) Fault.not_pool_admin
  (season, synced) ← assert_season_active now pool
  (active, pointed) ← ensure_active_round synced season
  round ← some_or (← gets (find_round active.id)) Fault.not_found
  pure (record { pool = pointed; season = season; round = round })

unfoldable pub close_locked : ℕ → Locked → Action Db StateResponse
unfolding build_state_response
close_locked now l = do
  throw_if (not (is_open (l.round).status)) Fault.round_not_open
  let closed : Round = record (l.round) { status = RoundStatus.closed; closed_at = some now }
  let pool : Pool = record (l.pool) { status = PoolStatus.round_closed }
  update_round closed
  save_pool pool
  pure (build_state_response pool l.season closed)

-- Each repository of the callback is that of the transaction's `manager`, so that every write of it
-- is one that `transaction` takes back.
unfoldable pub close_active_round :
    (Text → Option Text) → ℕ → ℕ → Option Text → Action Db StateResponse
close_active_round get_address now pool_id caller_raw = do
  caller ← lift (normalize_wallet get_address caller_raw)
  transaction (do l ← lock_active_round now pool_id caller; close_locked now l)
