-- ===== src/Pools/NextSeason/Reopened.antt =====
-- The last pick of a season leaves the pool's round counter where it was, and the next derivation
-- of the season takes the completion back.
use diaspora_equb_product.Common.{
  ℕ, ◌+◌, ◌-◌, ◌≡◌, sym, ◌∙◌, ap, subst, ◌≢◌, ◌<◌, ◌≤◌, true, Option, some, Text, arith, ok,
  or_else, update_row, IsKeyed, find_one-update_row, some_inj,
}
use diaspora_equb_product.Pools.Entities.{
  Pool, Season, SeasonStatus, StateResponse, Db, is_completed, pool_key, season_key,
}
use diaspora_equb_product.Pools.Store.{find_pool}
use diaspora_equb_product.Pools.Season.{latest_season, first_season}
use diaspora_equb_product.Pools.Season.Derived.{IsDerived, ensure_season_state-IsDerived}
use diaspora_equb_product.Pools.Season.Latest.{
  ensure_season_state-total_rounds, latest_season-update_row,
}
use diaspora_equb_product.Pools.Lifecycle.{Locked}
use diaspora_equb_product.Pools.Winner.{settle_winner, finish_season, picked_round}
use diaspora_equb_product.Pools.NextSeason.{CreateSeasonDto, create_next_season}
use diaspora_equb_product.Pools.NextSeason.Steps.{create_next_season-steps}

completed_of : {s : SeasonStatus} → is_completed s ≡ true → s ≡ SeasonStatus.completed
completed_of h = ground arith

-- The next season is opened only where the pool's counter has passed the rounds of the latest one.
pub create_next_season-ended :
    (get_address : Text → Option Text) (now pool_id : ℕ) (dto : CreateSeasonDto) (db : Db)
    (found : Pool) (t : Season) {r : Pool × Season} {db' : Db}
    → find_pool pool_id db ≡ some found
    → latest_season found.id db.seasons ≡ some t
    → create_next_season get_address now pool_id dto db ≡ (ok r, db')
    → t.total_rounds ≤ found.current_round - 1
create_next_season-ended get_address now pool_id dto db found t e f h =
    let s = create_next_season-steps get_address now pool_id dto db h in
    let same : s.found ≡ found = some_inj (sym s.is_found ∙ e) in
    let derived =
      subst (λ p. IsDerived p s.latest) same
        (ensure_season_state-IsDerived now s.found db s.season_step) in
    let total = ensure_season_state-total_rounds now s.found db s.season_step in
    let total' : (s.latest).total_rounds ≡ t.total_rounds =
      total
      ∙ ap (λ o. (or_else o (first_season now s.found)).total_rounds)
          (ap (λ (q : Pool). latest_season q.id db.seasons) same ∙ f) in
    let past = derived.complete (completed_of s.ended) in omega arith

-- The rows that the last pick of a season stores.
abbrev finished : ℕ → Locked → Text → Season × Pool
finished now l w =
    let counted : Season = record (l.season) {
      completed_rounds = (l.season).completed_rounds + 1;
    } in
    let (season, pool, round) = finish_season now counted l.pool (picked_round now w l.round) in
    (season, pool)

pub settle_winner-finished :
    (now : ℕ) (l : Locked) (w : Text) (db : Db) {resp : StateResponse} {db' : Db}
    → (l.season).total_rounds ≤ (l.season).completed_rounds + 1
    → (l.season).id ≢ 0
    → settle_winner now l w db ≡ (ok resp, db')
    → (db'.seasons ≡ update_row season_key (finished now l w).0 db.seasons)
      × (db'.pools ≡ update_row pool_key (finished now l w).1 db.pools)
unfolding settle_winner finish_season picked_round
settle_winner-finished now l w db last i h = ground arith

-- After the pick of a season's last winner, where the pool still counts a round of the season as
-- current and the season is the pool's latest, nobody can open the next season, since the season
-- is derived as active again.
pub settle_winner_blocks :
    (get_address : Text → Option Text) (now now' : ℕ) (dto : CreateSeasonDto) (l : Locked)
    (w : Text) (db : Db) (p : Pool) (t : Season) {resp : StateResponse} {db' : Db}
    → (l.season).total_rounds ≤ (l.season).completed_rounds + 1
    → (l.pool).current_round - 1 < (l.season).total_rounds
    → IsKeyed season_key db.next_id db.seasons
    → find_pool (l.pool).id db ≡ some p
    → latest_season (l.pool).id db.seasons ≡ some t
    → t.id ≡ (l.season).id
    → 0 < t.id
    → t.pool_id ≡ (l.season).pool_id
    → t.season_number ≡ (l.season).season_number
    → settle_winner now l w db ≡ (ok resp, db')
    → (r : Pool × Season) (db'' : Db)
    → create_next_season get_address now' (l.pool).id dto db' ≢ (ok r, db'')
unfolding finish_season
settle_winner_blocks get_address now now' dto l w db p t last behind keyed fp fl i pos pi num h r
      db'' c =
    let (seasons, pools) = settle_winner-finished now l w db last (omega arith) h in
    let (season, pool) = finished now l w in
    let found = find_one-update_row pool_key pool db.pools fp in
    let latest =
      latest_season-update_row (l.pool).id db.next_id season db.seasons keyed fl (sym i) (sym pi)
        (sym num) in
    let ended =
      create_next_season-ended get_address now' (l.pool).id dto _ pool season (rw pools found)
        (rw seasons latest) c in
    absurd (omega arith)
