-- ===== src/Pools/Winner/Steps.antt =====
-- The steps of the transaction of `pickWinnerForActiveRound`: a replay of the stored response, or
-- a lock, a pick and the storing of the key.
use diaspora_equb_product.Common.{
  ℕ, ◌+◌, ◌≡◌, ◌⊎◌, inl, inr, Bool, true, false, Option, some, List, [], ◌∷◌, ◌++◌, Text, arith, ok,
  find_one, any, text_eq, outcome_cases, Option-cases, Bool-cases,
}
use diaspora_equb_product.Pools.Entities.{StateResponse, IdempotencyKey, Db}
use diaspora_equb_product.Pools.Store.{has_key}
use diaspora_equb_product.Pools.Lifecycle.{Locked, lock_active_round}
use diaspora_equb_product.Pools.Winner.{pick_locked, pick_in_transaction, stored_key}

-- The database with one more idempotency key.
abbrev pub with_key : Db → IdempotencyKey → Db
with_key db k =
    let k' : IdempotencyKey = record k { id = db.next_id } in
    record db { idempotency_keys = db.idempotency_keys ++ k' ∷ []; next_id = db.next_id + 1 }

module _ (get_address : Text → Option Text) (random_int : ℕ → ℕ) (now pool_id : ℕ)
    (caller route key request_hash : Text) where
  -- A pick that was not a replay.
  pub record PickSteps (db : Db) (resp : StateResponse) (db' : Db) : Type 0 where
    pub l : Locked
    pub locked_db : Db
    pub picked_db : Db
    pub lock_step : lock_active_round now pool_id caller db ≡ (ok l, locked_db)
    pub pick_step : pick_locked get_address random_int now l locked_db ≡ (ok resp, picked_db)
    pub key_step : db' ≡ with_key picked_db (stored_key route key request_hash resp)
    pub key_new : any (has_key route key) (picked_db).idempotency_keys ≡ false

  -- The stored response of the same request.
  pub record IsReplay (db : Db) (resp : StateResponse) (db' : Db) : Type 0 where
    pub row : IdempotencyKey
    pub found : find_one (has_key route key) db.idempotency_keys ≡ some row
    pub same_hash : text_eq row.request_hash request_hash ≡ true
    pub same_response : row.response_body ≡ resp
    pub unchanged : db' ≡ db

  pub pick_in_transaction-steps :
      (db : Db) {resp : StateResponse} {db' : Db}
      → pick_in_transaction get_address random_int now pool_id caller route key request_hash db
        ≡ (ok resp, db')
      → IsReplay db resp db' ⊎ PickSteps db resp db'
  unfolding pick_in_transaction stored_key
  pick_in_transaction-steps db {resp} {db'} h =
      elim (Option-cases (find_one (has_key route key) db.idempotency_keys)) [
        | inr (k, e) ↦ inl (record {
          row = k;
          found = e;
          same_hash = ground arith;
          same_response = ground arith;
          unchanged = ground arith;
        })
        | inl e ↦ elim (outcome_cases (lock_active_round now pool_id caller db)) [
          | inr (x, t, f) ↦ absurd (ground arith)
          | inl (l, t, f) ↦ elim (outcome_cases (pick_locked get_address random_int now l t)) [
            | inr (x, u, g) ↦ absurd (ground arith)
            | inl (r, u, g) ↦ elim (Bool-cases (any (has_key route key) u.idempotency_keys)) [
              | inl old ↦ absurd (ground arith)
              | inr new ↦ inr (record {
                l = l;
                locked_db = t;
                picked_db = u;
                lock_step = f;
                pick_step = ground arith;
                key_step = ground arith;
                key_new = new;
              })
            ]
          ]
        ]
      ]

pub find_one-append_first :
    (p : IdempotencyKey → Bool) (k : IdempotencyKey) (ks : List IdempotencyKey)
    → any p ks ≡ false
    → p k ≡ true
    → find_one p (ks ++ k ∷ []) ≡ some k
find_one-append_first p k [] h e = ground arith
find_one-append_first p k (x ∷ ks) h e = ground (arith, find_one-append_first p k ks)
