-- ===== src/Pools/Winner.antt =====
-- `pickWinnerForActiveRound`: the draw among the members that have not won in the season, the
-- round that follows, and the replay of a request under its idempotency key.
pub mod Draw
pub mod Distinct
pub mod Settle
pub mod Steps
pub mod Replay
pub mod NoRepeat
use diaspora_equb_product.Common.{
  ℕ, ◌+◌, Bool, true, false, not, ◌&&◌, Option, none, some, List, [], ◌∷◌, ◌++◌, Text, codes, ◌==◌,
  leb, any, is_empty, length, get_elem?, filter_by, if◌then◌else◌, or_else, text_eq, to_lower, trim,
  is_blank, Result, ok, err, Action, Fault, find_one, gets, pure, throw, lift, some_or, throw_if,
  transaction, ◌>>=◌, ◌>>◌,
}
use diaspora_equb_product.Pools.Entities.{
  Pool, PoolMember, PoolStatus, Season, SeasonStatus, Round, RoundStatus, StateResponse,
  IdempotencyKey, Db, is_completed, is_open, is_picked,
}
use diaspora_equb_product.Pools.Store.{
  save_pool, save_season, insert_round, update_round, insert_key, has_key,
}
use diaspora_equb_product.Pools.Season.{new_round}
use diaspora_equb_product.Pools.Lifecycle.{
  Locked, normalize_wallet, lock_active_round, build_state_response,
}

-- `priorWinners`: the rounds of the season that have a winner.
abbrev pub is_won_in : ℕ → ℕ → Round → Bool
is_won_in pool_id season_id r =
    r.pool_id == pool_id && r.season_id == season_id && is_picked r.status

-- A round's winner is the wallet, but for letter case; a missing or empty winner is none's.
unfoldable pub was_won_by : Text → Round → Bool
was_won_by wallet r = elim r.winner_wallet [
  | none ↦ false
  | some w ↦ not (is_blank w) && text_eq (to_lower w) (to_lower wallet)
]

-- `priorWinnerWallets.has(member.walletAddress.toLowerCase())`
unfoldable pub has_won : List Round → ℕ → ℕ → Text → Bool
unfolding was_won_by
has_won rounds pool_id season_id wallet =
    any (was_won_by wallet) (filter_by (is_won_in pool_id season_id) rounds)

abbrev pub is_of_pool : ℕ → PoolMember → Bool
is_of_pool pool_id m = m.pool_id == pool_id

unfoldable pub pool_members : ℕ → List PoolMember → List PoolMember
pool_members pool_id members = filter_by (is_of_pool pool_id) members

-- The test of the filter that gives `eligibleMembers`.
abbrev pub may_win : List Round → ℕ → ℕ → PoolMember → Bool
may_win rounds pool_id season_id m = not (has_won rounds pool_id season_id m.wallet_address)

unfoldable pub eligible_members : ℕ → ℕ → List PoolMember → List Round → List PoolMember
unfolding has_won pool_members
eligible_members pool_id season_id members rounds =
    filter_by (may_win rounds pool_id season_id) (pool_members pool_id members)

-- `pickRandomIndex`
unfoldable pub pick_random_index : (ℕ → ℕ) → ℕ → Result ℕ
pick_random_index random_int max_exclusive =
    if leb max_exclusive 0 then err Fault.validation_error else ok (random_int max_exclusive)

-- `ethers.getAddress(eligibleMembers[winnerIndex].walletAddress)`
unfoldable pub member_at : (Text → Option Text) → List PoolMember → ℕ → Result Text
member_at get_address members index = elim (get_elem? members index) [
  | none ↦ err Fault.type_error
  | some m ↦ elim (get_address m.wallet_address) [
    | none ↦ err Fault.invalid_address
    | some a ↦ ok a
  ]
]

unfoldable pub draw_winner : (Text → Option Text) → (ℕ → ℕ) → Locked → Action Db Text
unfolding eligible_members pool_members pick_random_index member_at
draw_winner get_address random_int l = do
  members ← gets (λ db. pool_members (l.pool).id db.members)
  throw_if (is_empty members) Fault.validation_error
  eligible ← gets (λ db. eligible_members (l.pool).id (l.season).id db.members db.rounds)
  throw_if (is_empty eligible) Fault.no_eligible_winner
  index ← lift (pick_random_index random_int (length eligible))
  lift (member_at get_address eligible index)

unfoldable pub picked_round : ℕ → Text → Round → Round
picked_round now winner round = record round {
  status = RoundStatus.winner_picked;
  winner_wallet = some winner;
  winner_picked_at = some now;
}

-- The last round of the season: the pool keeps pointing to it.
unfoldable pub finish_season : ℕ → Season → Pool → Round → Season × Pool × Round
finish_season now season pool round = (
  record season {
    status = SeasonStatus.completed;
    completed_at = some (or_else season.completed_at now);
  },
  record pool {
    status = PoolStatus.completed;
    active_season_id = some season.id;
    active_round_id = some round.id;
  },
  round,
)

-- An earlier round: the next one is opened.
unfoldable pub start_next_round : Season → Pool → Round → Action Db (Season × Pool × Round)
unfolding new_round
start_next_round season pool round = do
  next ← insert_round (new_round pool.id season.id (round.round_number + 1) RoundStatus.open_round)
  let pointed : Pool = record pool {
    active_round_id = some next.id;
    current_round = next.round_number;
    status = PoolStatus.active;
    active_season_id = some season.id;
  }
  pure (season, pointed, next)

unfoldable pub settle_winner : ℕ → Locked → Text → Action Db StateResponse
unfolding picked_round finish_season start_next_round build_state_response
settle_winner now l winner = do
  let picked = picked_round now winner l.round
  update_round picked
  let counted : Season = record (l.season) { completed_rounds = (l.season).completed_rounds + 1 }
  (season, pool, response_round) ←
      if leb counted.total_rounds counted.completed_rounds
      then pure (finish_season now counted l.pool picked)
      else start_next_round counted l.pool picked
  save_season season
  save_pool pool
  let state = build_state_response pool season response_round
  let response : StateResponse = record state { winner = some winner }
  pure response

-- The rest of the transaction once the round is locked.
unfoldable pub pick_locked : (Text → Option Text) → (ℕ → ℕ) → ℕ → Locked → Action Db StateResponse
pick_locked get_address random_int now l = do
  throw_if (is_open (l.round).status) Fault.winner_before_close
  throw_if (is_picked (l.round).status) Fault.round_already_picked
  winner ← draw_winner get_address random_int l
  settle_winner now l winner

abbrev quoted : Text → Text
quoted s = b'"' ∷ (s ++ b'"' ∷ [])

-- `JSON.stringify({ mode })`; the mode is the keyword `auto`, which needs no escapes.
unfoldable pub request_body : Text → Text
request_body mode =
    codes "{" ++ (quoted (codes "mode") ++ (codes ":" ++ (quoted mode ++ codes "}")))

-- `POST:/pools/${params.poolId}/rounds/active/pick-winner`
unfoldable pub route_of : Text → Text
route_of pool_id = codes "POST:/pools/" ++ (pool_id ++ codes "/rounds/active/pick-winner")

unfoldable pub stored_key : Text → Text → Text → StateResponse → IdempotencyKey
stored_key route key request_hash response = record {
  id = 0;
  route = route;
  key = key;
  request_hash = request_hash;
  response_body = response;
}

-- The transaction, with the route, the trimmed key and the digest of the request.
unfoldable pub pick_in_transaction :
    (Text → Option Text) → (ℕ → ℕ) → ℕ → ℕ → Text → Text → Text → Text → Action Db StateResponse
pick_in_transaction get_address random_int now pool_id caller route key request_hash = do
  replay ← gets (λ db. find_one (has_key route key) db.idempotency_keys)
  elim replay [
    | some k ↦ do
      throw_if (not (text_eq k.request_hash request_hash)) Fault.idempotency_replay_conflict
      pure k.response_body
    | none ↦ do
      l ← lock_active_round now pool_id caller
      response ← pick_locked get_address random_int now l
      insert_key (stored_key route key request_hash response)
      pure response
  ]

-- `print_id` gives the text of the pool's key.
unfoldable pub pick_winner_for_active_round :
    (Text → Option Text)
    → (ℕ → ℕ)
    → (Text → Text)
    → (ℕ → Text)
    → ℕ
    → ℕ
    → Text
    → Option Text
    → Option Text
    → Action Db StateResponse
pick_winner_for_active_round get_address random_int hash print_id now pool_id mode key_raw
      caller_raw =
    do
      caller ← lift (normalize_wallet get_address caller_raw)
      let key = trim (or_else key_raw [])
      throw_if (is_blank key) Fault.validation_error
      transaction (
          pick_in_transaction get_address random_int now pool_id caller
            (route_of (print_id pool_id)) key (hash (request_body mode)))
