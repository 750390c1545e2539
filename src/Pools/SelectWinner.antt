-- ===== src/Pools/SelectWinner.antt =====
-- `buildSelectWinner`: the unsigned transactions that close a round on the chain and schedule its
-- winner's payout. What the contracts answer is an argument; an encoded call is named by its
-- function and arguments.
pub mod Scheduled
use diaspora_equb_product.Common.{
  ℕ, ◌-◌, Bool, true, false, not, ◌&&◌, Option, none, some, [], ◌∷◌, Text, ltb, ◌==◌, if◌then◌else◌,
  text_eq, to_lower, is_blank, ok, err, Result, Action, Fault, gets, pure, lift, some_or, find_one,
  opt_eq, ◌>>=◌, ◌>>◌,
}
use diaspora_equb_product.Pools.Entities.{Pool, Db}
use diaspora_equb_product.Pools.Store.{find_pool}
use diaspora_equb_product.Pools.Season.{zero_address, assert_season_active}
use diaspora_equb_product.Pools.Lifecycle.{known_creator, same_wallet}
use diaspora_equb_product.Pools.NextSeason.{checked_address}
use diaspora_equb_product.Pools.Cooldown.{Guard, guard_key, enforce_cooldown}

pub data Phase : Type 0 where
  auto close schedule : Phase

-- The answer of a contract call: a value, a revert that means "not ready", any other failure.
pub data Read (A : Type 0) : Type 0 where
  value : A → Read A
  not_ready unavailable : Read A

pub record WinnerReads : Type 0 where
  pub last_closed : Read (ℕ × Text)
  pub current_round : Read ℕ
  pub round_winner : ℕ → Read Text
  pub winner_scheduled : ℕ → Read Bool

pub record SelectWinnerDto : Type 0 where
  pub phase : Option Phase
  pub winner : Option Text
  pub total : Text
  pub upfront_percent : ℕ
  pub total_rounds : ℕ
  pub caller : Option Text

-- The calls that the service encodes.
pub data UnsignedCall : Type 0 where
  close_round : ℕ → UnsignedCall
  schedule_payout_stream : ℕ → Text → Text → ℕ → ℕ → UnsignedCall

pub data NextAction : Type 0 where
  sign_schedule_tx sign_close_tx_then_requery_or_upgrade_contract : NextAction
  await_close_confirmation_then_requery_schedule sign_close_tx_then_requery_for_schedule :
      NextAction

pub record SelectWinnerResponse : Type 0 where
  pub close_tx : Option UnsignedCall
  pub schedule_tx : Option UnsignedCall
  pub winner : Option Text
  pub round : ℕ
  pub warning : Bool
  pub next_action : NextAction

-- The service's state that the call touches.
pub record ServiceState : Type 0 where
  pub db : Db
  pub guard : Guard

abbrev on_db : {A : Type 0} → Action Db A → Action ServiceState A
on_db m s = let (r, db) = m s.db in (r, record s { db = db })

abbrev on_guard : {A : Type 0} → Action Guard A → Action ServiceState A
on_guard m s = let (r, guard) = m s.guard in (r, record s { guard = guard })

-- `closedRound`, `winnerRaw` and `winnerViewUnavailable`.
pub record ClosedWinner : Type 0 where
  pub closed_round : ℕ
  pub winner_raw : Text
  pub view_unavailable : Bool

abbrev no_winner : Bool → ClosedWinner
no_winner failed = record { closed_round = 0; winner_raw = zero_address; view_unavailable = failed }

-- The fallback by `currentRound` and `roundWinner`.
unfoldable pub fallback_winner : WinnerReads → Bool → ClosedWinner
fallback_winner reads failed = elim reads.current_round [
  | value current ↦
      if ltb 0 (current - 1)
      then (elim (reads.round_winner (current - 1)) [
        | value w ↦ record { closed_round = current - 1; winner_raw = w; view_unavailable = false }
        | _ ↦ no_winner failed
      ])
      else no_winner failed
  | _ ↦ no_winner failed
]

unfoldable pub read_winner : WinnerReads → ClosedWinner
unfolding fallback_winner
read_winner reads = elim reads.last_closed [
  | value (round, w) ↦ record { closed_round = round; winner_raw = w; view_unavailable = false }
  | not_ready ↦ fallback_winner reads false
  | unavailable ↦ fallback_winner reads true
]

abbrev is_true : Read Bool → Bool
is_true (value b) = b
is_true _ = false

-- A provided winner must be the one that the chain selected.
unfoldable pub check_provided : (Text → Option Text) → Option Text → Text → Result (Unit {0})
unfolding checked_address same_wallet
check_provided get_address none winner = ok tt
check_provided get_address (some []) winner = ok tt
check_provided get_address (some (c ∷ s)) winner = elim (checked_address get_address (c ∷ s)) [
  | err e ↦ err e
  | ok provided ↦ if same_wallet provided winner then ok tt else err Fault.bad_request
]

-- `scheduleTx` and `winner`.
unfoldable pub build_schedule :
    (Text → Option Text)
    → WinnerReads
    → ClosedWinner
    → SelectWinnerDto
    → ℕ
    → Result (Option (Text × UnsignedCall))
unfolding check_provided checked_address
build_schedule get_address reads closed dto on_chain_id =
    if ltb 0 closed.closed_round
      && not (text_eq (to_lower closed.winner_raw) zero_address)
      && not (is_true (reads.winner_scheduled closed.closed_round))
    then (elim (checked_address get_address closed.winner_raw) [
      | err e ↦ err e
      | ok winner ↦ elim (check_provided get_address dto.winner winner) [
        | err e ↦ err e
        | ok _ ↦ ok (
            some (
              winner,
              schedule_payout_stream on_chain_id winner dto.total dto.upfront_percent
                  dto.total_rounds,
            ))
      ]
    ])
    else ok none

-- `buildCloseRound`
unfoldable pub build_close_round : ℕ → ℕ → Action Db UnsignedCall
build_close_round now on_chain_id = do
  found ← gets (λ db. find_one (λ p. opt_eq p.on_chain_pool_id on_chain_id) db.pools)
  elim found [
    | none ↦ pure (close_round on_chain_id)
    | some pool ↦ do assert_season_active now pool; pure (close_round on_chain_id)
  ]

-- Pool creator, caller and chain pool, checked in this order; gives the caller and the chain's key.
unfoldable pub authorize_selection :
    (Text → Option Text) → Pool → SelectWinnerDto → Result (Text × ℕ)
unfolding checked_address same_wallet
authorize_selection get_address pool dto = elim (known_creator pool) [
  | none ↦ err Fault.bad_request
  | some creator ↦ elim dto.caller [
    | none ↦ err Fault.bad_request
    | some caller_raw ↦
        if is_blank caller_raw
        then err Fault.bad_request
        else (elim (checked_address get_address caller_raw) [
          | err e ↦ err e
          | ok caller ↦
              if not (same_wallet caller creator)
              then err Fault.bad_request
              else (elim pool.on_chain_pool_id [
                | none ↦ err Fault.bad_request
                | some k ↦ if k == 0 then err Fault.bad_request else ok (caller, k)
              ])
        ])
  ]
]

abbrev is_schedule : Phase → Bool
is_schedule schedule = true
is_schedule _ = false

abbrev is_close : Phase → Bool
is_close close = true
is_close _ = false

abbrev phase_of : Option Phase → Phase
phase_of none = auto
phase_of (some p) = p

-- `closeTx`, after the cooldown of the caller; the schedule phase builds none.
unfoldable pub build_close : ℕ → Text → Phase → Text → ℕ → Action ServiceState (Option UnsignedCall)
build_close now pool_text phase caller on_chain_id = if is_schedule phase then pure none else (do
  on_guard (enforce_cooldown now (guard_key pool_text caller))
  tx ← on_db (build_close_round now on_chain_id)
  pure (some tx))

abbrev next_action_of : Bool → Bool → Phase → NextAction
next_action_of true failed phase = sign_schedule_tx
next_action_of false true phase = sign_close_tx_then_requery_or_upgrade_contract
next_action_of false false schedule = await_close_confirmation_then_requery_schedule
next_action_of false false _ = sign_close_tx_then_requery_for_schedule

-- The response of the schedule step.
unfoldable pub schedule_response :
    Option UnsignedCall
    → ClosedWinner
    → Option (Text × UnsignedCall)
    → Phase
    → ℕ
    → SelectWinnerResponse
schedule_response close_tx closed built phase current_round = record {
  close_tx = close_tx;
  schedule_tx = elim built [ none ↦ none | some (w, tx) ↦ some tx ];
  winner = elim built [ none ↦ none | some (w, tx) ↦ some w ];
  round = if closed.closed_round == 0 then current_round else closed.closed_round;
  warning = elim built [ none ↦ closed.view_unavailable | some _ ↦ false ];
  next_action = elim built [
    | none ↦ next_action_of false closed.view_unavailable phase
    | some _ ↦ next_action_of true closed.view_unavailable phase
  ];
}

-- `pool_text` is the text of the pool's key.
unfoldable pub build_select_winner :
    (Text → Option Text)
    → WinnerReads
    → ℕ
    → ℕ
    → Text
    → SelectWinnerDto
    → Action ServiceState SelectWinnerResponse
build_select_winner get_address reads now pool_id pool_text dto = do
  found ← some_or (← gets (λ s. find_pool pool_id s.db)) Fault.not_found
  (season, pool) ← on_db (assert_season_active now found)
  (caller, on_chain_id) ← lift (authorize_selection get_address pool dto)
  let phase = phase_of dto.phase
  close_tx ← build_close now pool_text phase caller on_chain_id
  if is_close phase
      then pure (record {
        close_tx = close_tx;
        schedule_tx = none;
        winner = none;
        round = pool.current_round;
        warning = false;
        next_action = sign_close_tx_then_requery_for_schedule;
      })
      else (do
        let closed = read_winner reads
        built ← lift (build_schedule get_address reads closed dto on_chain_id)
        pure (schedule_response close_tx closed built phase pool.current_round))
