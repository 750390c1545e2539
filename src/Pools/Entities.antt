-- ===== src/Pools/Entities.antt =====
-- The rows of the pool tables (backend/src/entities: pool, pool-member, contribution,
-- payout-stream, season, round, idempotency-key), and the database as the program's state.
-- Keys (UUIDs) are numbers that the database issues; a created row that is not saved yet has key 0,
-- where the source has `undefined`. Times are milliseconds. A table holds its rows in the order of
-- their creation, so that an order by `joinedAt` or `createdAt` is the table's.
use diaspora_equb_product.Common.{ℕ, Bool, true, false, Option, List, Text}

pub data PoolStatus : Type 0 where
  pending_onchain active completed cancelled round_closed closed winner_picked : PoolStatus

pub data SeasonStatus : Type 0 where
  active completed config_pending : SeasonStatus

pub data RoundStatus : Type 0 where
  open_round closed winner_picked : RoundStatus

pub data RowStatus : Type 0 where
  pending_onchain confirmed failed defaulted : RowStatus

pub record Pool : Type 0 where
  pub id : ℕ
  pub on_chain_pool_id : Option ℕ
  pub tier : ℕ
  pub contribution_amount : Text
  pub max_members : ℕ
  pub current_round : ℕ
  pub treasury : Text
  pub token : Text
  pub status : PoolStatus
  pub tx_hash : Option Text
  pub active_season_id : Option ℕ
  pub active_round_id : Option ℕ
  pub created_by : Option Text
  pub equb_type : Option ℕ
  pub frequency : Option ℕ

pub record PoolMember : Type 0 where
  pub id : ℕ
  pub pool_id : ℕ
  pub wallet_address : Text

pub record Contribution : Type 0 where
  pub id : ℕ
  pub pool_id : ℕ
  pub wallet_address : Text
  pub round : ℕ
  pub status : RowStatus
  pub tx_hash : Option Text

pub record PayoutStream : Type 0 where
  pub id : ℕ
  pub pool_id : ℕ
  pub beneficiary : Text
  pub total : Text
  pub upfront_percent : ℕ
  pub round_amount : Text
  pub total_rounds : ℕ
  pub released_rounds : ℕ
  pub released : Text
  pub frozen : Bool

pub record Season : Type 0 where
  pub id : ℕ
  pub pool_id : ℕ
  pub season_number : ℕ
  pub status : SeasonStatus
  pub total_rounds : ℕ
  pub completed_rounds : ℕ
  pub contribution_amount : Text
  pub token : Text
  pub payout_split_pct : ℕ
  pub cadence : Option Text
  pub started_at : ℕ
  pub completed_at : Option ℕ

pub record Round : Type 0 where
  pub id : ℕ
  pub pool_id : ℕ
  pub season_id : ℕ
  pub round_number : ℕ
  pub status : RoundStatus
  pub closed_at : Option ℕ
  pub winner_picked_at : Option ℕ
  pub winner_wallet : Option Text

-- What `buildStateResponse` gives, with the winner that `pickWinnerForActiveRound` adds.
pub record StateResponse : Type 0 where
  pub pool : Pool
  pub season : Season
  pub round : Round
  pub winner_picked_at : Option ℕ
  pub winner_wallet : Option Text
  pub winner : Option Text

pub record IdempotencyKey : Type 0 where
  pub id : ℕ
  pub route : Text
  pub key : Text
  pub request_hash : Text
  pub response_body : StateResponse

-- The fields of the rules of a pool, as the contract and the requests give them.
pub record EqubRules : Type 0 where
  pub equb_type : ℕ
  pub frequency : ℕ
  pub payout_method : ℕ
  pub grace_period_seconds : ℕ
  pub penalty_severity : ℕ
  pub round_duration_seconds : ℕ
  pub late_fee_percent : ℕ

pub record EqubRulesEntity : Type 0 where
  pub id : ℕ
  pub pool_id : ℕ
  pub rules : EqubRules

pub record Db : Type 0 where
  pub pools : List Pool
  pub members : List PoolMember
  pub contributions : List Contribution
  pub streams : List PayoutStream
  pub seasons : List Season
  pub rounds : List Round
  pub idempotency_keys : List IdempotencyKey
  pub rules : List EqubRulesEntity
  pub next_id : ℕ

abbrev pub is_completed : SeasonStatus → Bool
is_completed SeasonStatus.completed = true
is_completed _ = false

abbrev pub is_open : RoundStatus → Bool
is_open RoundStatus.open_round = true
is_open _ = false

abbrev pub is_picked : RoundStatus → Bool
is_picked RoundStatus.winner_picked = true
is_picked _ = false

abbrev pub is_pool_completed : PoolStatus → Bool
is_pool_completed PoolStatus.completed = true
is_pool_completed _ = false

abbrev pub pool_key : Pool → ℕ
pool_key p = p.id

abbrev pub season_key : Season → ℕ
season_key s = s.id

abbrev pub rules_key : EqubRulesEntity → ℕ
rules_key r = r.id

abbrev pub round_key : Round → ℕ
round_key r = r.id
