-- ===== src/Pools/Season/Latest.antt =====
-- The latest season of a pool under the saves of `ensureSeasonState`, and that deriving it a second
-- time changes nothing.
use diaspora_equb_product.Common.{
  ℕ, ◌≡◌, ap, subst, ◌≢◌, ◌<◌, ◌⊎◌, inl, inr, Bool, true, false, none, some, List, [], ◌∷◌, ◌++◌,
  arith, ok, or_else, update_row, NoKey, IsKeyed, Option-cases,
}
use diaspora_equb_product.Pools.Entities.{Pool, Season, Db, season_key, is_pool_completed}
use diaspora_equb_product.Pools.Consistent.{IsConsistent, ensure_season_state-IsConsistent}
use diaspora_equb_product.Pools.Season.{
  ensure_season_state, sync_season, latest_season, first_season, should_complete,
}
use diaspora_equb_product.Pools.Season.Derived.{
  IsDerived, sync_season_keeps, sync_season_of_IsDerived, ensure_season_state-IsDerived,
  ensure_season_state_pool,
}

latest_season-ne-key :
    (pool_id k : ℕ) (ss : List Season) {t : Season}
    → latest_season pool_id ss ≡ some t
    → NoKey season_key k ss
    → t.id ≢ k
latest_season-ne-key pool_id k [] e d = absurd (ground arith)
latest_season-ne-key pool_id k (x ∷ xs) {t} e d = elim (Option-cases (latest_season pool_id xs)) [
  | inl n ↦ ground arith
  | inr (u, n) ↦ ground (arith, latest_season-ne-key pool_id k xs {t = u} n d.1)
]

pub latest_season_row :
    (pool_id n : ℕ) (ss : List Season) {t : Season}
    → IsKeyed season_key n ss
    → latest_season pool_id ss ≡ some t
    → (t.pool_id ≡ pool_id) × (0 < t.id)
latest_season_row pool_id n [] k e = absurd (ground arith)
latest_season_row pool_id n (x ∷ xs) {t} k e = elim (Option-cases (latest_season pool_id xs)) [
  | inl f ↦ ground arith
  | inr (u, f) ↦ ground (arith, latest_season_row pool_id n xs {t = u} k.3 f)
]

pub latest_season-update_row :
    (pool_id n : ℕ) (s : Season) (ss : List Season) {t : Season}
    → IsKeyed season_key n ss
    → latest_season pool_id ss ≡ some t
    → s.id ≡ t.id
    → s.pool_id ≡ t.pool_id
    → s.season_number ≡ t.season_number
    → latest_season pool_id (update_row season_key s ss) ≡ some s
latest_season-update_row pool_id n s [] k e i p q = absurd (ground arith)
latest_season-update_row pool_id n s (x ∷ xs) {t} k e i p q =
    elim (Option-cases (latest_season pool_id xs)) [
      | inl f ↦ ground arith
      | inr (u, f) ↦ ground (
        arith,
        latest_season-ne-key pool_id x.id xs {t = u} f k.2,
        latest_season-update_row pool_id n s xs {t = u} k.3 f,
      )
    ]

pub latest_season-append :
    (pool_id : ℕ) (s : Season) (ss : List Season)
    → latest_season pool_id ss ≡ none
    → s.pool_id ≡ pool_id
    → latest_season pool_id (ss ++ s ∷ []) ≡ some s
latest_season-append pool_id s [] e p = ground arith
latest_season-append pool_id s (x ∷ xs) e p = elim (Option-cases (latest_season pool_id xs)) [
  | inl f ↦ ground (arith, latest_season-append pool_id s xs f p)
  | inr (u, f) ↦ absurd (ground arith)
]

sync_season_unchanged :
    (now : ℕ) (pool : Pool) (s : Season)
    → (sync_season now pool s).1 ≡ false
    → (sync_season now pool s).0 ≡ s
unfolding sync_season
sync_season_unchanged now pool s = ground arith

-- The synchronised season before it is saved.
abbrev synced_season : ℕ → Pool → Db → Season × Bool
synced_season now pool db =
    sync_season now pool (or_else (latest_season pool.id db.seasons) (first_season now pool))

-- How the season is saved: not at all, as a new row, or over its row.
abbrev Saved : Season × Bool → Db → Season → List Season → Type 0
Saved (s, changed) db season seasons =
    ((changed ≡ false) × (s.id ≢ 0) × (season ≡ s) × (seasons ≡ db.seasons))
    ⊎ (((s.id ≡ 0)
          × (season ≡ record s { id = db.next_id })
          × (seasons ≡ db.seasons ++ season ∷ []))
        ⊎ ((s.id ≢ 0) × (season ≡ s) × (seasons ≡ update_row season_key s db.seasons)))

ensure_season_state-Saved :
    (now : ℕ) (pool : Pool) (db : Db) {season : Season} {pool' : Pool} {db' : Db}
    → ensure_season_state now pool db ≡ (ok (season, pool'), db')
    → Saved (synced_season now pool db) db season db'.seasons
unfolding ensure_season_state
ensure_season_state-Saved now pool db h = ground arith

first_season-Saved :
    (now : ℕ) (pool : Pool) (db : Db) (season : Season) (seasons : List Season)
    → latest_season pool.id db.seasons ≡ none
    → Saved (sync_season now pool (first_season now pool)) db season seasons
    → latest_season pool.id seasons ≡ some season
unfolding first_season
first_season-Saved now pool db season seasons e (inl s) =
    ground (arith, sync_season_keeps now pool (first_season now pool))
first_season-Saved now pool db season seasons e (inr (inr s)) =
    ground (arith, sync_season_keeps now pool (first_season now pool))
first_season-Saved now pool db season seasons e (inr (inl s)) = ground (
  arith,
  sync_season_keeps now pool (first_season now pool),
  latest_season-append pool.id season db.seasons e,
)

found_season-Saved :
    (now : ℕ) (pool : Pool) (db : Db) (t season : Season) (seasons : List Season)
    → IsKeyed season_key db.next_id db.seasons
    → latest_season pool.id db.seasons ≡ some t
    → Saved (sync_season now pool t) db season seasons
    → latest_season pool.id seasons ≡ some season
found_season-Saved now pool db t season seasons k e (inl (a, b, c, d)) =
    rw (d, c, sync_season_unchanged now pool t a) e
found_season-Saved now pool db t season seasons k e (inr (inl s)) = absurd (
    ground (
      arith,
      sync_season_keeps now pool t,
      latest_season_row pool.id db.next_id db.seasons {t = t} k e,
    ))
found_season-Saved now pool db t season seasons k e (inr (inr (a, b, c))) =
    let (i, p, q, r) = sync_season_keeps now pool t in
    rw (b, c) (latest_season-update_row pool.id db.next_id _ db.seasons k e i p q)

-- The season that comes back is the latest one that is stored.
pub ensure_season_state-latest :
    (now : ℕ) (pool : Pool) (db : Db) {season : Season} {pool' : Pool} {db' : Db}
    → IsKeyed season_key db.next_id db.seasons
    → ensure_season_state now pool db ≡ (ok (season, pool'), db')
    → latest_season pool.id db'.seasons ≡ some season
ensure_season_state-latest now pool db {season} {pool'} {db'} k h =
    let saved = ensure_season_state-Saved now pool db h in
    elim (Option-cases (latest_season pool.id db.seasons)) [
      | inl e ↦ first_season-Saved now pool db season db'.seasons e (rw e at saved)
      | inr (t, e) ↦ found_season-Saved now pool db t season db'.seasons k e (rw e at saved)
    ]

Saved-total_rounds :
    (now : ℕ) (pool : Pool) (t : Season) (db : Db) (season : Season) (seasons : List Season)
    → Saved (sync_season now pool t) db season seasons
    → season.total_rounds ≡ t.total_rounds
Saved-total_rounds now pool t db season seasons (inl s) =
    ground (arith, sync_season_keeps now pool t)
Saved-total_rounds now pool t db season seasons (inr (inl s)) =
    ground (arith, sync_season_keeps now pool t)
Saved-total_rounds now pool t db season seasons (inr (inr s)) =
    ground (arith, sync_season_keeps now pool t)

-- The number of rounds of the season that comes back is that of the latest stored one.
pub ensure_season_state-total_rounds :
    (now : ℕ) (pool : Pool) (db : Db) {season : Season} {pool' : Pool} {db' : Db}
    → ensure_season_state now pool db ≡ (ok (season, pool'), db')
    → season.total_rounds
      ≡ (or_else (latest_season pool.id db.seasons) (first_season now pool)).total_rounds
ensure_season_state-total_rounds now pool db {season} {pool'} {db'} h =
    Saved-total_rounds now pool _ db season db'.seasons (ensure_season_state-Saved now pool db h)

ensure_season_state-completed :
    (now : ℕ) (pool : Pool) (db : Db) {season : Season} {pool' : Pool} {db' : Db}
    → ensure_season_state now pool db ≡ (ok (season, pool'), db')
    → should_complete pool (or_else (latest_season pool.id db.seasons) (first_season now pool))
      ≡ true
    → is_pool_completed pool'.status ≡ true
unfolding ensure_season_state
ensure_season_state-completed now pool db h c = ground arith

-- A call on a pool and a season that agree writes nothing.
ensure_season_state_settled :
    (now : ℕ) (pool : Pool) (db : Db) (season : Season)
    → latest_season pool.id db.seasons ≡ some season
    → season.id ≢ 0
    → IsDerived pool season
    → (should_complete pool season ≡ true → is_pool_completed pool.status ≡ true)
    → ensure_season_state now pool db ≡ (ok (season, pool), db)
unfolding ensure_season_state
ensure_season_state_settled now pool db season e i d c =
    ground (arith, sync_season_of_IsDerived now pool season d)

same_pool :
    (now : ℕ) (pool : Pool) (db : Db) {season : Season} {pool' : Pool} {db' : Db}
    → ensure_season_state now pool db ≡ (ok (season, pool'), db')
    → (pool'.id ≡ pool.id) × (pool'.current_round ≡ pool.current_round)
same_pool now pool db h = ground (arith, ensure_season_state_pool now pool db h)

-- On consistent tables, deriving the season a second time, at any later time, gives the same
-- season and pool and writes nothing.
pub ensure_season_state_again :
    (now now' : ℕ) (pool : Pool) (db : Db) {season : Season} {pool' : Pool} {db' : Db}
    → IsConsistent db
    → ensure_season_state now pool db ≡ (ok (season, pool'), db')
    → ensure_season_state now' pool' db' ≡ (ok (season, pool'), db')
ensure_season_state_again now now' pool db {season} {pool'} {db'} c h =
    let latest = ensure_season_state-latest now pool db c.seasons_keyed h in
    let derived = ensure_season_state-IsDerived now pool db h in
    let c' : IsConsistent db' =
      subst IsConsistent (ap (λ p. p.1) h) (ensure_season_state-IsConsistent now pool db c) in
    let row = latest_season_row pool.id db'.next_id db'.seasons c'.seasons_keyed latest in
    let (ids, rounds) = same_pool now pool db h in
    let total = ensure_season_state-total_rounds now pool db h in
    let done = ensure_season_state-completed now pool db h in
    ensure_season_state_settled now' pool' db' season (rw ids latest) (omega (arith, row.1))
      (ground (arith, derived)) (ground (arith, done))
