-- ===== src/Pools/SelectWinner/Scheduled.antt =====
-- When `buildSelectWinner` builds the transaction that schedules a payout.
use diaspora_equb_product.Common.{
  ℕ, ◌≡◌, ◌≢◌, ◌<◌, true, false, Option, some, Text, to_lower, is_blank,
}
use diaspora_equb_product.Pools.Entities.{Pool, Season}
use diaspora_equb_product.Pools.Season.{zero_address}
use diaspora_equb_product.Pools.Lifecycle.{known_creator, same_wallet}
use diaspora_equb_product.Pools.SelectWinner.{
  WinnerReads, SelectWinnerDto, UnsignedCall, read_winner, value, schedule_payout_stream,
}

-- What a built schedule transaction pays: the winner whom the chain drew for the last closed
-- round, whose payout the chain does not report as scheduled (a read that fails reports nothing),
-- and the one that the request names, where it names one.
pub record IsPayable (get_address : Text → Option Text) (reads : WinnerReads)
    (dto : SelectWinnerDto) (on_chain_id : ℕ) (w : Text) (tx : UnsignedCall) : Type 0 where
  pub closed : 0 < (read_winner reads).closed_round
  pub drawn : get_address (read_winner reads).winner_raw ≡ some w
  pub not_zero : to_lower (read_winner reads).winner_raw ≢ zero_address
  pub not_scheduled : reads.winner_scheduled (read_winner reads).closed_round ≢ value true
  pub as_named :
      (p : Text)
      → dto.winner ≡ some p
      → is_blank p ≡ false
      → (a : Text) × (get_address p ≡ some a) × (same_wallet a w ≡ true)
  pub call :
      tx ≡ schedule_payout_stream on_chain_id w dto.total dto.upfront_percent dto.total_rounds

-- Only the pool's creator is given transactions.
pub record IsCreator (get_address : Text → Option Text) (pool : Pool) (dto : SelectWinnerDto)
    (on_chain_id : ℕ) : Type 0 where
  pub creator : Text
  pub caller_raw : Text
  pub caller : Text
  pub is_creator : known_creator pool ≡ some creator
  pub is_caller : dto.caller ≡ some caller_raw
  pub normalized : get_address caller_raw ≡ some caller
  pub same : same_wallet caller creator ≡ true
  pub linked : pool.on_chain_pool_id ≡ some on_chain_id
