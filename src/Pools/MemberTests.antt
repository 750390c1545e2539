-- ===== src/Pools/MemberTests.antt =====
-- Joining, contributing, streams, the cooldown and the next season of a sample pool.
use diaspora_equb_product.Common.{
  ◌++◌, Option, some, sym, some_inj, IsDecimalColumn, written, ◌+◌, ◌-◌, ◌≡◌, refl, ◌≢◌, ◌≤◌, Bool,
  true, false, none, [], ◌∷◌, Text, codes, arith, ok, err, Fault, Result, In, text_eq, trim,
  to_lower, div_ℤ, ◌*ℤ◌, ◌-ℤ◌, print_ℤ, big_int, length,
}
use diaspora_equb_product.Pools.Entities.{RoundStatus, PayoutStream, Db}
use diaspora_equb_product.Pools.Store.{find_member}
use diaspora_equb_product.Pools.Season.{
  ensure_season_state, assert_season_active, sync_season, derive_completed_rounds, first_season,
}
use diaspora_equb_product.Pools.Lifecycle.{same_wallet, Locked}
use diaspora_equb_product.Pools.Winner.{settle_winner, pool_members, finish_season}
use diaspora_equb_product.Pools.Membership.{
  new_member, new_contribution, join_pool, record_contribution, split_members, has_contributed,
  CloseRoundResponse, close_round,
}
use diaspora_equb_product.Pools.Membership.Capacity.{
  join_pool_capacity, join_pool_free, record_contribution_overfills,
}
use diaspora_equb_product.Pools.Membership.Rounds.{record_contribution_again, split_members_sound}
use diaspora_equb_product.Pools.Membership.Closing.{IsSettled, close_round-IsSettled}
use diaspora_equb_product.Pools.NextSeason.{
  CreateSeasonDto, create_next_season, next_season, restart_pool, checked_address,
}
use diaspora_equb_product.Pools.NextSeason.Reopened.{create_next_season-ended, settle_winner_blocks}
use diaspora_equb_product.Pools.Streams.{schedule_stream, upfront_part, parse_total, round_part}
use diaspora_equb_product.Pools.Streams.Split.{Stores, IsSplit, schedule_stream-IsSplit}
use diaspora_equb_product.Pools.Cooldown.{enforce_cooldown, is_cooling, prune}
use diaspora_equb_product.Pools.Cooldown.Holds.{attempts, enforce_cooldown_holds}
use diaspora_equb_product.Pools.Sample.{
  admin, alice, bob, pool, season, round, closed_db, same_address,
}

-- Names what the calls below compute with.
evaluation : Unit {0}
unfolding written print_ℤ text_eq to_lower trim join_pool record_contribution create_next_season
    schedule_stream parse_total round_part upfront_part big_int pool_members checked_address
    next_season restart_pool split_members ensure_season_state sync_season derive_completed_rounds
    first_season settle_winner finish_season new_member new_contribution enforce_cooldown
    assert_season_active close_round has_contributed same_wallet div_ℤ ◌*ℤ◌ ◌-ℤ◌ prune is_cooling
evaluation = tt

abbrev carol : Text
carol = codes "0xC4"

-- The pool with a third place.
abbrev larger : Db
larger = record closed_db { pools = record pool { max_members = 3 } ∷ [] }

abbrev after_joining : Db
after_joining = (join_pool 1 carol larger).1

join_pool_free_test : (join_pool 1 carol larger).0 ≡ ok 3
unfolding evaluation
join_pool_free_test =
    join_pool_free 1 carol larger (record pool { max_members = 3 }) refl (omega arith) refl

join_pool_capacity_example :
    (length (pool_members 1 after_joining.members) ≡ 3)
    × (3 ≡ 2 + 1)
    × (3 ≤ 3)
    × (find_member 1 carol larger ≡ none)
unfolding evaluation
join_pool_capacity_example =
    join_pool_capacity 1 carol larger (record pool { max_members = 3 }) refl refl

record_contribution_overfills_example :
    ((record_contribution 1 carol 1 closed_db).0 ≡ ok tt)
    × (length (pool_members 1 (record_contribution 1 carol 1 closed_db).1.members) ≡ 2 + 1)
unfolding evaluation
record_contribution_overfills_example =
    record_contribution_overfills 1 carol 1 closed_db pool refl refl refl

record_contribution_again_example :
    (record_contribution 1 alice 1 (record_contribution 1 alice 1 closed_db).1).0
    ≡ err Fault.conflict
unfolding evaluation
record_contribution_again_example = record_contribution_again 1 alice 1 closed_db refl

abbrev only_alice : Text → Bool
only_alice w = text_eq w alice

-- The sample round, to which alice contributes and bob does not.
abbrev half_paid : Db
half_paid = (record_contribution 1 alice 1 closed_db).1

abbrev settled : Result CloseRoundResponse × Db
settled = close_round 90 1 1 half_paid

settled_test :
    (resp : CloseRoundResponse) × (settled.0 ≡ ok resp)
    × (resp.contributors ≡ alice ∷ [])
    × (resp.defaulters ≡ bob ∷ [])
unfolding evaluation
settled_test = (_, refl, refl, refl)

close_round-IsSettled_example : (resp : CloseRoundResponse) × IsSettled 1 1 half_paid resp
unfolding evaluation
close_round-IsSettled_example = (_, close_round-IsSettled 90 1 1 half_paid {db' = settled.1} refl)

split_members_sound_test :
    (In bob (alice ∷ []) → only_alice bob ≡ true) × (In bob (bob ∷ []) → only_alice bob ≡ false)
unfolding evaluation
split_members_sound_test = split_members_sound only_alice closed_db.members bob

-- Columns with two decimals.
abbrev column : Text → Option Text
column t = some (t ++ codes ".00")

column_decimals : IsDecimalColumn column
column_decimals = record { decimals = λ z t h. (codes "00", sym (some_inj h)) }

abbrev stream : Result PayoutStream × Db
stream = schedule_stream column 1 alice (codes "1003") 20 4 closed_db

abbrev stored : PayoutStream
stored = record {
  id = 10;
  pool_id = 1;
  beneficiary = alice;
  total = codes "1003.00";
  upfront_percent = 20;
  round_amount = codes "200.00";
  total_rounds = 4;
  released_rounds = 0;
  released = codes "200.00";
  frozen = false;
}

schedule_stream-IsSplit_example :
    Stores column (codes "1003") 1003 20 4 stored
    × IsSplit 1003 20 4
    × (stream.1.streams ≡ stored ∷ [])
unfolding evaluation
schedule_stream-IsSplit_example =
    schedule_stream-IsSplit column 1 alice (codes "1003") 20 4 1003 closed_db column_decimals refl
      refl

enforce_cooldown_holds_example :
    enforce_cooldown 7000 alice (attempts ((3000, bob) ∷ []) ((alice, 1) ∷ []))
    ≡ (err Fault.too_many_requests, attempts ((3000, bob) ∷ []) ((alice, 1) ∷ []))
unfolding evaluation
enforce_cooldown_holds_example =
    enforce_cooldown_holds alice 1 7000 [] ((alice, 1) ∷ []) ((3000, bob) ∷ []) (omega arith) refl
      (omega arith, tt) (omega arith)

-- The pool in the second and last round of its season, and a pool past it.
abbrev last_db : Db
last_db = record closed_db {
  pools = record pool { current_round = 2 } ∷ [];
  seasons = record season { completed_rounds = 1 } ∷ [];
}

abbrev past_db : Db
past_db = record last_db { pools = record pool { current_round = 3 } ∷ [] }

abbrev dto : CreateSeasonDto
dto = record { caller = admin; contribution_amount = none; payout_split_pct = none; cadence = none }

create_next_season-ended_example : 2 ≤ 3 - 1
unfolding evaluation
create_next_season-ended_example =
    create_next_season-ended same_address 90 1 dto past_db (record pool { current_round = 3 })
      (record season { completed_rounds = 1 }) refl refl refl

abbrev last_lock : Locked
last_lock = record {
  pool = record pool { current_round = 2 };
  season = record season { completed_rounds = 1 };
  round = record (round RoundStatus.closed) { round_number = 2 };
}

settle_winner_blocks_example :
    create_next_season same_address 90 1 dto (settle_winner 80 last_lock alice last_db).1
    ≢ (ok (pool, season), last_db)
unfolding evaluation
settle_winner_blocks_example =
    settle_winner_blocks same_address 80 90 dto last_lock alice last_db
      (record pool { current_round = 2 }) (record season { completed_rounds = 1 }) (omega arith)
      (omega arith) (omega arith) refl refl refl (omega arith) refl refl refl (pool, season) last_db
