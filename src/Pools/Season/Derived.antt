-- ===== src/Pools/Season/Derived.antt =====
-- What `ensureSeasonState` establishes: the season follows the pool's round counter.
use diaspora_equb_product.Common.{
  ℕ, ◌-◌, ◌≡◌, ◌≢◌, ◌≤◌, min, false, arith, ok, err, Fault, ◌⊎◌, or_else,
}
use diaspora_equb_product.Pools.Entities.{Pool, PoolStatus, Season, SeasonStatus, Db}
use diaspora_equb_product.Pools.Season.{
  ensure_season_state, sync_season, derive_completed_rounds, latest_season, first_season,
}

-- The season's counter is the pool's, and its status says whether the counter is at its end.
pub record IsDerived (pool : Pool) (s : Season) : Type 0 where
  pub counted : s.completed_rounds ≡ min (pool.current_round - 1) s.total_rounds
  pub complete : s.status ≡ SeasonStatus.completed → s.total_rounds ≤ pool.current_round - 1
  pub ended : s.total_rounds ≤ pool.current_round - 1 → s.status ≡ SeasonStatus.completed

pub sync_season-IsDerived :
    (now : ℕ) (pool : Pool) (s : Season) → IsDerived pool (sync_season now pool s).0
unfolding sync_season derive_completed_rounds
sync_season-IsDerived now pool s = ground arith

-- A synchronised season stays as it is.
pub sync_season_of_IsDerived :
    (now : ℕ) (pool : Pool) (s : Season) → IsDerived pool s → sync_season now pool s ≡ (s, false)
unfolding sync_season derive_completed_rounds
sync_season_of_IsDerived now pool s h = ground arith

-- Nothing but the counter, the status and the time of completion changes.
pub sync_season_keeps :
    (now : ℕ) (pool : Pool) (s : Season)
    → let t = (sync_season now pool s).0 in
      (t.id ≡ s.id)
      × (t.pool_id ≡ s.pool_id)
      × (t.season_number ≡ s.season_number)
      × (t.total_rounds ≡ s.total_rounds)
unfolding sync_season
sync_season_keeps now pool s = ground arith

-- `ensureSeasonState` never throws.
pub ensure_season_state-ne-err :
    (now : ℕ) (pool : Pool) (db : Db) (e : Fault) → (ensure_season_state now pool db).0 ≢ err e
unfolding ensure_season_state
ensure_season_state-ne-err now pool db e = ground arith

-- The pool that comes back is the given one, but for its status.
pub ensure_season_state_pool :
    (now : ℕ) (pool : Pool) (db : Db) {db' : Db} {season : Season} {pool' : Pool}
    → ensure_season_state now pool db ≡ (ok (season, pool'), db')
    → (pool' ≡ pool) ⊎ (pool' ≡ record pool { status = PoolStatus.completed })
unfolding ensure_season_state
ensure_season_state_pool now pool db h = ground arith

-- The season that is derived counts the rounds before the pool's current one, up to its total, and
-- is completed exactly where they reach its total.
pub ensure_season_state-IsDerived :
    (now : ℕ) (pool : Pool) (db : Db) {db' : Db} {season : Season} {pool' : Pool}
    → ensure_season_state now pool db ≡ (ok (season, pool'), db')
    → IsDerived pool season
unfolding ensure_season_state
ensure_season_state-IsDerived now pool db h = ground (
  arith,
  sync_season-IsDerived now pool
      (or_else (latest_season pool.id db.seasons) (first_season now pool)),
)
