-- ===== src/Pools/Streams.antt =====
-- `scheduleStream`: how a payout is split into an upfront part and equal rounds. The amounts are
-- BigInt's; the row keeps what its numeric columns store for the total as it was given and for the
-- other amounts as printed integers.
pub mod Split
use diaspora_equb_product.Common.{
  ℕ, ◌+◌, Bool, false, Option, none, some, Text, ◌==◌, ltb, if◌then◌else◌, ok, err, Result, Action,
  Fault, gets, pure, lift, some_or, throw_if, ◌>>=◌, ◌>>◌, ℤ, ◌-ℤ◌, ◌*ℤ◌, div_ℤ, big_int, print_ℤ,
}
use diaspora_equb_product.Pools.Entities.{PayoutStream, Db}
use diaspora_equb_product.Pools.Store.{find_pool, insert_stream}

-- `BigInt(total)`
unfoldable pub parse_total : Text → Result ℤ
parse_total total = elim (big_int total) [ none ↦ err Fault.syntax_error | some z ↦ ok z ]

-- `(totalNum * BigInt(upfrontPercent)) / BigInt(100)`
unfoldable pub upfront_part : ℤ → ℕ → ℤ
upfront_part total upfront_percent = div_ℤ (total *ℤ upfront_percent) 100

-- `remaining / BigInt(totalRounds)`, a RangeError for no rounds.
unfoldable pub round_part : ℤ → ℕ → ℕ → Result ℤ
unfolding upfront_part
round_part total upfront_percent total_rounds =
    if total_rounds == 0
    then err Fault.division_by_zero
    else ok (div_ℤ (total -ℤ upfront_part total upfront_percent) total_rounds)

-- `column` is the database's; the saved row is the answer.
unfoldable pub schedule_stream :
    (Text → Option Text) → ℕ → Text → Text → ℕ → ℕ → Action Db PayoutStream
schedule_stream column pool_id beneficiary total upfront_percent total_rounds = do
  pool ← some_or (← gets (find_pool pool_id)) Fault.not_found
  throw_if (ltb 30 upfront_percent) Fault.bad_request
  amount ← lift (parse_total total)
  per_round ← lift (round_part amount upfront_percent total_rounds)
  insert_stream column (record {
    id = 0;
    pool_id = pool_id;
    beneficiary = beneficiary;
    total = total;
    upfront_percent = upfront_percent;
    round_amount = print_ℤ per_round;
    total_rounds = total_rounds;
    released_rounds = 0;
    released = print_ℤ (upfront_part amount upfront_percent);
    frozen = false;
  })
