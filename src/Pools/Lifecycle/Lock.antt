-- ===== src/Pools/Lifecycle/Lock.antt =====
-- What holds once `closeActiveRound` or `pickWinnerForActiveRound` has locked the active round.
use diaspora_equb_product.Common.{
  ℕ, ◌≡◌, sym, ◌∙◌, inl, inr, true, false, some, Text, arith, ok, find_one, Option-cases,
  outcome_cases, find_one-append_some, has_id, ap, subst,
}
use diaspora_equb_product.Pools.Entities.{Pool, Round, Db, round_key, is_completed}
use diaspora_equb_product.Pools.Store.{find_pool}
use diaspora_equb_product.Pools.Season.{
  ensure_season_state, assert_season_active, ensure_active_round,
}
use diaspora_equb_product.Pools.Lifecycle.{Locked, is_admin, lock_active_round}
use diaspora_equb_product.Pools.Consistent.{
  IsConsistent, IsStored, ensure_season_state-IsConsistent, ensure_active_round-IsConsistent,
  ensure_active_round-IsStored, ensure_active_round_rounds, ensure_season_state_keeps,
}

-- The steps of `lock_active_round` that went well.
pub record LockSteps (now pool_id : ℕ) (caller : Text) (db : Db) (l : Locked) (db' : Db)
    : Type 0 where
  pub found : Pool
  pub synced : Pool
  pub mid : Db
  pub active : Round
  pub is_found : find_pool pool_id db ≡ some found
  pub admin : is_admin found caller ≡ true
  pub season_step : ensure_season_state now found db ≡ (ok (l.season, synced), mid)
  pub is_active : is_completed (l.season).status ≡ false
  pub round_step : ensure_active_round synced l.season mid ≡ (ok (active, l.pool), db')
  pub locked : find_one (has_id round_key active.id) db'.rounds ≡ some l.round

pub lock_active_round-steps :
    (now pool_id : ℕ) (caller : Text) (db : Db) {l : Locked} {db' : Db}
    → lock_active_round now pool_id caller db ≡ (ok l, db')
    → LockSteps now pool_id caller db l db'
unfolding lock_active_round assert_season_active
lock_active_round-steps now pool_id caller db {l} {db'} h =
    elim (Option-cases (find_pool pool_id db)) [
      | inl e ↦ absurd (ground arith)
      | inr (found, e) ↦ elim (outcome_cases (ensure_season_state now found db)) [
        | inr (x, t, f) ↦ absurd (ground arith)
        | inl ((season, synced), mid, f) ↦
            elim (outcome_cases (ensure_active_round synced season mid)) [
              | inr (x, t, g) ↦ absurd (ground arith)
              | inl ((active, pool), t, g) ↦ record {
                found = found;
                synced = synced;
                mid = mid;
                active = active;
                is_found = e;
                admin = ground arith;
                season_step = ground arith;
                is_active = ground arith;
                round_step = ground arith;
                locked = ground arith;
              }
            ]
      ]
    ]

-- The locked rows belong together, and the round is the stored one.
pub record IsLocked (l : Locked) (db : Db) : Type 0 where
  pub of_pool : (l.round).pool_id ≡ (l.pool).id
  pub of_season : (l.round).season_id ≡ (l.season).id
  pub stored : find_one (has_id round_key (l.round).id) db.rounds ≡ some l.round
  pub tables : IsConsistent db

module _ (now pool_id : ℕ) (caller : Text) {db : Db} {l : Locked} {db' : Db} (c : IsConsistent db)
    (s : LockSteps now pool_id caller db l db') where
  mid-IsConsistent : IsConsistent s.mid
  mid-IsConsistent =
      subst IsConsistent (ap (λ p. p.1) s.season_step)
        (ensure_season_state-IsConsistent now s.found db c)

  end-IsConsistent : IsConsistent db'
  end-IsConsistent =
      subst IsConsistent (ap (λ p. p.1) s.round_step)
        (ensure_active_round-IsConsistent s.synced l.season s.mid mid-IsConsistent)

  active-IsStored : IsStored s.synced l.season db' s.active
  active-IsStored =
      ensure_active_round-IsStored s.synced l.season s.mid mid-IsConsistent.rounds_keyed
        s.round_step

  active-eq-round : s.active ≡ l.round
  active-eq-round = ground (arith, active-IsStored, s.locked)

  LockSteps-IsLocked : IsLocked l db'
  LockSteps-IsLocked =
      let stored = active-IsStored in
      let same = active-eq-round in
      let pool_same = (ensure_active_round_rounds s.synced l.season s.mid s.round_step).2 in
      record {
        of_pool = ap (λ (r : Round). r.pool_id) (sym same) ∙ (stored.0 ∙ sym pool_same);
        of_season = ap (λ (r : Round). r.season_id) (sym same) ∙ stored.1;
        stored = subst (λ r. find_one (has_id round_key r.id) db'.rounds ≡ some r) same stored.2;
        tables = end-IsConsistent;
      }

-- On consistent tables a successful lock leaves consistent tables and gives a pool, a season and a
-- stored round of both.
pub lock_active_round-IsLocked :
    (now pool_id : ℕ) (caller : Text) (db : Db) {l : Locked} {db' : Db}
    → IsConsistent db
    → lock_active_round now pool_id caller db ≡ (ok l, db')
    → IsLocked l db'
lock_active_round-IsLocked now pool_id caller db c h =
    LockSteps-IsLocked now pool_id caller c (lock_active_round-steps now pool_id caller db h)

-- A stored round is still stored once the active round is locked.
pub LockSteps-rounds :
    {now pool_id : ℕ} {caller : Text} {db : Db} {l : Locked} {db' : Db}
    → LockSteps now pool_id caller db l db'
    → (k : ℕ) (x : Round) → find_one (has_id round_key k) db.rounds ≡ some x
    → find_one (has_id round_key k) db'.rounds ≡ some x
LockSteps-rounds {now} {db = db} {l = l} {db' = db'} s k x f =
    let (rounds, _, _, _) = ensure_season_state_keeps now s.found db in
    let mid_rounds : (s.mid).rounds ≡ db.rounds =
      ap (λ p. (p.1).rounds) (sym s.season_step) ∙ rounds in
    elim (ensure_active_round_rounds s.synced l.season s.mid s.round_step).0 [
      | inl e ↦ rw (e ∙ mid_rounds) f
      | inr e ↦ rw e (find_one-append_some (has_id round_key k) _ _ (rw mid_rounds f))
    ]
