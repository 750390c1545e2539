-- ===== src/Pools/Tests.antt =====
-- The pick, the close and the season of a sample pool.
use diaspora_equb_product.Common.{
  ◌≡◌, refl, none, some, [], ◌∷◌, Text, codes, arith, ok, err, Fault, Result, text_eq, trim, map,
  to_lower, print_ℤ,
}
use diaspora_equb_product.Pools.Entities.{PoolMember, Round, RoundStatus, StateResponse, Db}
use diaspora_equb_product.Pools.Season.{
  ensure_season_state, assert_season_active, ensure_active_round, adopt_round, sync_season,
  derive_completed_rounds, first_season,
}
use diaspora_equb_product.Pools.Season.Derived.{IsDerived, ensure_season_state-IsDerived}
use diaspora_equb_product.Pools.Season.Latest.{ensure_season_state_again}
use diaspora_equb_product.Pools.Consistent.{IsConsistent}
use diaspora_equb_product.Pools.Lifecycle.{
  Locked, close_active_round, lock_active_round, close_locked, is_admin, normalize_wallet,
  build_state_response,
}
use diaspora_equb_product.Pools.Lifecycle.Lock.{IsLocked, lock_active_round-IsLocked}
use diaspora_equb_product.Pools.Lifecycle.Close.{Closes, close_active_round-Closes}
use diaspora_equb_product.Pools.Winner.{
  draw_winner, settle_winner, route_of, pick_locked, pick_in_transaction,
  pick_winner_for_active_round, request_body, stored_key, pool_members, finish_season,
}
use diaspora_equb_product.Pools.Winner.Draw.{IsEligible, draw_winner-IsEligible}
use diaspora_equb_product.Pools.Winner.NoRepeat.{NoRepeatedWinner, pick_winner-NoRepeatedWinner}
use diaspora_equb_product.Pools.Winner.Replay.{
  pick_winner_for_active_round_again, pick_winner_for_active_round_conflict,
}
use diaspora_equb_product.Pools.NextSeason.{next_season, restart_pool, checked_address}
use diaspora_equb_product.Pools.Sample.{
  admin, alice, pool, season, round, database, open_db, closed_db, same_address,
  same_address_letters, dice, digest, print_id,
}

database-IsConsistent : (s : RoundStatus) → IsConsistent (database s)
database-IsConsistent s = omega arith

no_winner_yet : (s : RoundStatus) → NoRepeatedWinner (database s).rounds
no_winner_yet s pool_id season_id = (refl, tt)

abbrev picked : Text → Db → Result StateResponse × Db
picked mode db =
    pick_winner_for_active_round same_address dice digest print_id 50 1 mode (some (codes " k1 "))
      (some admin) db

-- Names what the calls below compute with.
evaluation : Unit {0}
unfolding pick_winner_for_active_round pick_in_transaction lock_active_round pick_locked draw_winner
    settle_winner normalize_wallet assert_season_active ensure_season_state sync_season
    ensure_active_round adopt_round is_admin stored_key print_ℤ derive_completed_rounds text_eq
    close_active_round close_locked request_body build_state_response finish_season first_season
    trim to_lower route_of pool_members checked_address next_season restart_pool
evaluation = tt

abbrev first_pick : Db
first_pick = (picked (codes "auto") closed_db).1

pick_again_test : (picked (codes "auto") first_pick).1 ≡ first_pick
unfolding evaluation
pick_again_test = refl

first_winner : map (λ (r : Round). r.winner_wallet) first_pick.rounds ≡ some alice ∷ none ∷ []
unfolding evaluation
first_winner = refl

pick_winner-NoRepeatedWinner_example : NoRepeatedWinner first_pick.rounds
unfolding evaluation
pick_winner-NoRepeatedWinner_example =
    pick_winner-NoRepeatedWinner same_address dice digest print_id 50 1 (codes "auto")
      (some (codes " k1 ")) (some admin) closed_db same_address_letters
      (database-IsConsistent RoundStatus.closed) (refl, (refl, tt))
      (no_winner_yet RoundStatus.closed) refl

pick_winner_for_active_round_again_example :
    picked (codes "auto") first_pick ≡ ((picked (codes "auto") closed_db).0, first_pick)
unfolding evaluation
pick_winner_for_active_round_again_example =
    pick_winner_for_active_round_again same_address digest print_id 1 dice dice 50 50 (codes "auto")
      (some (codes " k1 ")) (some admin) closed_db refl

pick_winner_for_active_round_conflict_example :
    picked (codes "other") first_pick ≡ (err Fault.idempotency_replay_conflict, first_pick)
unfolding evaluation
pick_winner_for_active_round_conflict_example =
    pick_winner_for_active_round_conflict same_address digest print_id 1 dice dice 50 50
      (codes "auto") (codes "other") (some (codes " k1 ")) (some admin) closed_db refl
      (λ e. absurd (ground arith))

abbrev locked : Locked
locked = record { pool = pool; season = season; round = round RoundStatus.closed }

draw_winner-IsEligible_example :
    (m : PoolMember) × IsEligible 1 2 closed_db.members closed_db.rounds m
    × (same_address m.wallet_address ≡ some alice)
    × (closed_db ≡ closed_db)
unfolding evaluation
draw_winner-IsEligible_example = draw_winner-IsEligible same_address dice locked closed_db refl

lock_active_round-IsLocked_example : IsLocked locked closed_db
unfolding evaluation
lock_active_round-IsLocked_example =
    lock_active_round-IsLocked 50 1 admin closed_db (database-IsConsistent RoundStatus.closed) refl

abbrev closing : Result StateResponse × Db
closing = close_active_round same_address 60 1 (some admin) open_db

abbrev closing_answer : Round
closing_answer = record (round RoundStatus.closed) { closed_at = some 60 }

close_active_round-Closes_example :
    (resp : StateResponse) × Closes same_address 60 1 (some admin) open_db resp closing.1
unfolding evaluation
close_active_round-Closes_example = (
  _,
  close_active_round-Closes same_address 60 1 (some admin) open_db
      (database-IsConsistent RoundStatus.open_round) refl,
)

ensure_season_state-IsDerived_example : IsDerived pool season
unfolding evaluation
ensure_season_state-IsDerived_example = ensure_season_state-IsDerived 50 pool closed_db refl

ensure_season_state_again_example :
    ensure_season_state 70 pool closed_db ≡ (ok (season, pool), closed_db)
unfolding evaluation
ensure_season_state_again_example =
    ensure_season_state_again 50 70 pool closed_db (database-IsConsistent RoundStatus.closed) refl
