-- ===== src/Pools/Lifecycle/Close.antt =====
-- What `closeActiveRound` does when it succeeds.
use diaspora_equb_product.Common.{
  ℕ, ◌≡◌, sym, ◌∙◌, ◌⊎◌, ◌==◌, ==_iff, some_inj, List, inl, inr, true, Option, some, Text, arith,
  ok, Result, find_one, outcome_cases, result_cases, Bool-cases, has_id, ap, subst, update_row,
  find_one-update_row, find_one-update_row_ne, ◌>>=◌,
}
use diaspora_equb_product.Pools.Entities.{
  Pool, PoolStatus, Round, RoundStatus, StateResponse, Db, round_key, pool_key,
}
use diaspora_equb_product.Pools.Lifecycle.{
  is_admin, Locked, normalize_wallet, lock_active_round, close_locked, close_active_round,
}
use diaspora_equb_product.Pools.Store.{find_pool}
use diaspora_equb_product.Pools.Lifecycle.Lock.{
  LockSteps-rounds, lock_active_round-steps, lock_active_round-IsLocked,
}
use diaspora_equb_product.Pools.Consistent.{IsConsistent}

-- The closed form of a round.
abbrev pub closed_round : ℕ → Round → Round
closed_round now r = record r { status = RoundStatus.closed; closed_at = some now }

-- The steps of a successful call.
pub record CloseSteps (get_address : Text → Option Text) (now pool_id : ℕ)
    (caller_raw : Option Text) (db : Db) (resp : StateResponse) (db' : Db) : Type 0 where
  pub caller : Text
  pub l : Locked
  pub mid : Db
  pub normal : normalize_wallet get_address caller_raw ≡ ok caller
  pub lock_step : lock_active_round now pool_id caller db ≡ (ok l, mid)
  pub was_open : (l.round).status ≡ RoundStatus.open_round
  pub answer : resp.round ≡ closed_round now l.round
  pub rounds : db'.rounds ≡ update_row round_key (closed_round now l.round) (mid).rounds
  pub pools :
      db'.pools
      ≡ update_row pool_key (record (l.pool) { status = PoolStatus.round_closed }) (mid).pools

record CloseLocked (now : ℕ) (l : Locked) (mid : Db) (resp : StateResponse) (db' : Db)
    : Type 0 where
  was_open : (l.round).status ≡ RoundStatus.open_round
  answer : resp.round ≡ closed_round now l.round
  rounds : db'.rounds ≡ update_row round_key (closed_round now l.round) mid.rounds
  pools :
      db'.pools
      ≡ update_row pool_key (record (l.pool) { status = PoolStatus.round_closed }) mid.pools

close_locked-steps :
    (now : ℕ) (l : Locked) (mid : Db) {resp : StateResponse} {db' : Db}
    → close_locked now l mid ≡ (ok resp, db')
    → CloseLocked now l mid resp db'
unfolding close_locked
close_locked-steps now l mid h = ground arith

module _ (get_address : Text → Option Text) (now pool_id : ℕ) (caller_raw : Option Text)
    (db : Db) where
  abbrev body : Text → Db → Result StateResponse × Db
  body caller = lock_active_round now pool_id caller >>= close_locked now

  pub close_active_round-steps :
      {resp : StateResponse} {db' : Db}
      → close_active_round get_address now pool_id caller_raw db ≡ (ok resp, db')
      → CloseSteps get_address now pool_id caller_raw db resp db'
  unfolding close_active_round
  close_active_round-steps {resp} {db'} h =
      elim (result_cases (normalize_wallet get_address caller_raw)) [
        | inr (e, n) ↦ absurd (ground arith)
        | inl (caller, n) ↦ elim (outcome_cases (lock_active_round now pool_id caller db)) [
          | inr (e, t, k) ↦ absurd (ground arith)
          | inl (l, mid, k) ↦ elim (outcome_cases (close_locked now l mid)) [
            | inr (e, t, c) ↦ absurd (ground arith)
            | inl (r, t, c) ↦
                let same : (r ≡ resp) × (t ≡ db') = (ground arith, ground arith) in
                let s = close_locked-steps now l mid c in
                record {
                  caller = caller;
                  l = l;
                  mid = mid;
                  normal = n;
                  lock_step = k;
                  was_open = s.was_open;
                  answer =
                      subst (λ (x : StateResponse). x.round ≡ closed_round now l.round) same.0
                        s.answer;
                  rounds =
                      subst
                        (λ (x : Db).
                          x.rounds ≡ update_row round_key (closed_round now l.round) mid.rounds)
                        same.1 s.rounds;
                  pools =
                      subst
                        (λ (x : Db).
                          x.pools
                          ≡ update_row pool_key
                              (record (l.pool) { status = PoolStatus.round_closed }) mid.pools)
                        same.1 s.pools;
                }
          ]
        ]
      ]

  -- The caller administers the pool; the answered round is closed, in the table too; every round
  -- that was stored before is that one, and was open, or is stored as it was.
  pub record Closes (resp : StateResponse) (db' : Db) : Type 0 where
    pub pool : Pool
    pub caller : Text
    pub is_found : find_pool pool_id db ≡ some pool
    pub normal : normalize_wallet get_address caller_raw ≡ ok caller
    pub admin : is_admin pool caller ≡ true
    pub closed : (resp.round).status ≡ RoundStatus.closed
    pub timed : (resp.round).closed_at ≡ some now
    pub stored : find_one (has_id round_key (resp.round).id) db'.rounds ≡ some resp.round
    pub others :
        (k : ℕ) (x : Round)
        → find_one (has_id round_key k) db.rounds ≡ some x
        → ((k ≡ (resp.round).id) × (x.status ≡ RoundStatus.open_round))
          ⊎ (find_one (has_id round_key k) db'.rounds ≡ some x)

  -- Closing the stored round `r` in a table that keeps the rounds of `db`.
  closed_others :
      (r : Round) (mid : Db) (rounds : List Round)
      → r.status ≡ RoundStatus.open_round
      → find_one (has_id round_key r.id) mid.rounds ≡ some r
      → ((k : ℕ) (x : Round)
          → find_one (has_id round_key k) db.rounds ≡ some x
          → find_one (has_id round_key k) mid.rounds ≡ some x)
      → rounds ≡ update_row round_key (closed_round now r) mid.rounds
      → (k : ℕ) (x : Round) → find_one (has_id round_key k) db.rounds ≡ some x
      → ((k ≡ r.id) × (x.status ≡ RoundStatus.open_round))
        ⊎ (find_one (has_id round_key k) rounds ≡ some x)
  closed_others r mid rounds opened stored kept e k x f = elim (Bool-cases (k == r.id)) [
    | inl same ↦
        let eq = (==_iff k r.id).0 same in
        let there : find_one (has_id round_key r.id) mid.rounds ≡ some x =
          subst (λ i. find_one (has_id round_key i) mid.rounds ≡ some x) eq (kept k x f) in
        let row : r ≡ x = some_inj (sym stored ∙ there) in
        inl (eq, ap (λ (y : Round). y.status) (sym row) ∙ opened)
    | inr ne ↦ inr (
        rw e (
          find_one-update_row_ne round_key k (closed_round now r) mid.rounds (ground arith)
          ∙ kept k x f))
  ]

  -- On consistent tables a successful close is the pool admin's; it answers with a closed round,
  -- stamped with the time and stored, and every round stored before is that one, which was open,
  -- or is stored as it was.
  pub close_active_round-Closes :
      {resp : StateResponse} {db' : Db}
      → IsConsistent db
      → close_active_round get_address now pool_id caller_raw db ≡ (ok resp, db')
      → Closes resp db'
  close_active_round-Closes {resp} {db'} c h =
      let s = close_active_round-steps h in
      let steps = lock_active_round-steps now pool_id s.caller db s.lock_step in
      let locked = lock_active_round-IsLocked now pool_id s.caller db c s.lock_step in
      let same = s.answer in
      record {
        pool = steps.found;
        caller = s.caller;
        is_found = steps.is_found;
        normal = s.normal;
        admin = steps.admin;
        closed = ap (λ (r : Round). r.status) same;
        timed = ap (λ (r : Round). r.closed_at) same;
        stored =
            rw (same, s.rounds)
              (find_one-update_row round_key (closed_round now (s.l).round) (s.mid).rounds
                locked.stored);
        others = rw same (
            closed_others (s.l).round s.mid db'.rounds s.was_open locked.stored
              (LockSteps-rounds steps) s.rounds);
      }
