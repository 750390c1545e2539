-- ===== src/Pools/Consistent.antt =====
-- The invariant of the tables: distinct keys that the database has issued; kept by the season and
-- round steps, with what these steps do to the stored rounds.
use diaspora_equb_product.Common.{
  ℕ, ◌+◌, ◌≡◌, refl, ◌≤◌, ◌<◌, ◌⊎◌, inl, inr, some, [], ◌∷◌, ◌++◌, arith, ok, update_row, find_one,
  or_else, Option-cases, IsKeyed, IsKeyed-mono, append-IsKeyed, update_row-IsKeyed, find_one-has_id,
  find_one-append_next, has_id, find_one_passes,
}
use diaspora_equb_product.Pools.Entities.{
  Pool, PoolStatus, Season, Round, Db, pool_key, season_key, round_key,
}
use diaspora_equb_product.Pools.Season.{
  ensure_season_state, ensure_active_round, adopt_round, pointed_round, is_round, is_numbered,
  new_round, to_round_status, target_round_number, sync_season, latest_season, first_season,
}

pub record IsConsistent (db : Db) : Type 0 where
  pub issued : 0 < db.next_id
  pub pools_keyed : IsKeyed pool_key db.next_id db.pools
  pub seasons_keyed : IsKeyed season_key db.next_id db.seasons
  pub rounds_keyed : IsKeyed round_key db.next_id db.rounds

-- `ensureSeasonState` touches no round, member or idempotency key.
pub ensure_season_state_keeps :
    (now : ℕ) (pool : Pool) (db : Db)
    → let db' = (ensure_season_state now pool db).1 in
      (db'.rounds ≡ db.rounds)
      × (db'.members ≡ db.members)
      × (db'.idempotency_keys ≡ db.idempotency_keys)
      × (db.next_id ≤ db'.next_id)
unfolding ensure_season_state
ensure_season_state_keeps now pool db = ground arith

-- A round that `ensureActiveRound` opens has no winner.
abbrev pub opened_round : ℕ → Pool → Season → Round
opened_round id pool season =
    let r : Round =
      new_round pool.id season.id (target_round_number pool season) (to_round_status pool.status) in
    record r { id = id }

abbrev pub RoundsKept : Pool → Season → Db → Db → Type 0
RoundsKept pool season db db' =
    (db'.rounds ≡ db.rounds) ⊎ (db'.rounds ≡ db.rounds ++ opened_round db.next_id pool season ∷ [])

pub ensure_active_round_rounds :
    (pool : Pool) (season : Season) (db : Db) {r : Round} {pool' : Pool} {db' : Db}
    → ensure_active_round pool season db ≡ (ok (r, pool'), db')
    → RoundsKept pool season db db' × (db'.members ≡ db.members) × (pool'.id ≡ pool.id)
unfolding ensure_active_round adopt_round
ensure_active_round_rounds pool season db h = ground arith

-- A round of the pool and the season, stored under its key.
abbrev pub IsStored : Pool → Season → Db → Round → Type 0
IsStored pool season db r =
    (r.pool_id ≡ pool.id)
    × (r.season_id ≡ season.id)
    × (find_one (has_id round_key r.id) db.rounds ≡ some r)

pointed_round-IsStored :
    (pool : Pool) (season : Season) (db : Db) {r : Round}
    → IsKeyed round_key db.next_id db.rounds
    → pointed_round pool season db ≡ some r
    → IsStored pool season db r
pointed_round-IsStored pool season db {r} k h = elim (Option-cases pool.active_round_id) [
  | inl e ↦ absurd (ground arith)
  | inr (i, e) ↦
      let found : find_one (is_round i pool.id season.id) db.rounds ≡ some r = ground arith in
      let passes = find_one_passes (is_round i pool.id season.id) db.rounds found in
      (ground arith, ground arith, find_one-has_id round_key _ db.next_id db.rounds k found)
]

numbered-IsStored :
    (pool : Pool) (season : Season) (n : ℕ) (db : Db) {r : Round}
    → IsKeyed round_key db.next_id db.rounds
    → find_one (is_numbered pool.id season.id n) db.rounds ≡ some r
    → IsStored pool season db r
numbered-IsStored pool season n db {r} k found =
    let passes = find_one_passes (is_numbered pool.id season.id n) db.rounds found in
    (ground arith, ground arith, find_one-has_id round_key _ db.next_id db.rounds k found)

-- The active round is a round of the pool and the season, and the one stored under its key.
pub ensure_active_round-IsStored :
    (pool : Pool) (season : Season) (db : Db) {r : Round} {pool' : Pool} {db' : Db}
    → IsKeyed round_key db.next_id db.rounds
    → ensure_active_round pool season db ≡ (ok (r, pool'), db')
    → IsStored pool season db' r
unfolding ensure_active_round adopt_round new_round
ensure_active_round-IsStored pool season db {r} {pool'} {db'} k h =
    let number = target_round_number pool season in
    elim (Option-cases (pointed_round pool season db)) [
      | inr (x, e) ↦ ground (arith, pointed_round-IsStored pool season db {r = x} k e)
      | inl e ↦ elim (Option-cases (find_one (is_numbered pool.id season.id number) db.rounds)) [
        | inr (x, f) ↦ ground (arith, numbered-IsStored pool season number db {r = x} k f)
        | inl f ↦ ground (
          arith,
          find_one-append_next round_key db.next_id (opened_round db.next_id pool season) db.rounds
              refl k,
        )
      ]
    ]

pub ensure_season_state-IsConsistent :
    (now : ℕ) (pool : Pool) (db : Db)
    → IsConsistent db
    → IsConsistent (ensure_season_state now pool db).1
unfolding ensure_season_state
ensure_season_state-IsConsistent now pool db c =
    let s =
      (sync_season now pool
        (or_else (latest_season pool.id db.seasons) (first_season now pool))).0 in
    let s' : Season = record s { id = db.next_id } in
    let completed_pool : Pool = record pool { status = PoolStatus.completed } in
    ground (
      arith,
      append-IsKeyed season_key db.next_id s' db.seasons c.issued refl c.seasons_keyed,
      update_row-IsKeyed season_key db.next_id s db.seasons c.seasons_keyed,
      update_row-IsKeyed pool_key db.next_id completed_pool db.pools c.pools_keyed,
      IsKeyed-mono pool_key db.next_id (db.next_id + 1) db.pools,
      IsKeyed-mono pool_key db.next_id (db.next_id + 1)
          (update_row pool_key completed_pool db.pools),
      IsKeyed-mono round_key db.next_id (db.next_id + 1) db.rounds,
    )

abbrev pub pointing : Pool → Round → Pool
pointing pool r = record pool { active_round_id = some r.id; current_round = r.round_number }

adopt_round-IsConsistent :
    (pool : Pool) (season : Season) (db : Db)
    → IsConsistent db
    → IsConsistent (adopt_round pool season db).1
unfolding adopt_round new_round
adopt_round-IsConsistent pool season db c =
    let number = target_round_number pool season in
    let r' = opened_round db.next_id pool season in
    elim (Option-cases (find_one (is_numbered pool.id season.id number) db.rounds)) [
      | inr (x, f) ↦
          ground
            (arith, update_row-IsKeyed pool_key db.next_id (pointing pool x) db.pools c.pools_keyed)
      | inl f ↦ ground (
        arith,
        append-IsKeyed round_key db.next_id r' db.rounds c.issued refl c.rounds_keyed,
        update_row-IsKeyed pool_key db.next_id (pointing pool r') db.pools c.pools_keyed,
        IsKeyed-mono pool_key db.next_id (db.next_id + 1)
            (update_row pool_key (pointing pool r') db.pools),
        IsKeyed-mono season_key db.next_id (db.next_id + 1) db.seasons,
      )
    ]

pub ensure_active_round-IsConsistent :
    (pool : Pool) (season : Season) (db : Db)
    → IsConsistent db
    → IsConsistent (ensure_active_round pool season db).1
unfolding ensure_active_round
ensure_active_round-IsConsistent pool season db c =
    elim (Option-cases (pointed_round pool season db)) [
      | inl e ↦ ground (arith, adopt_round-IsConsistent pool season db c)
      | inr (x, e) ↦ ground arith
    ]
