-- ===== src/Pools/Winner/Replay.antt =====
-- Idempotency of `pickWinnerForActiveRound`: a request that is sent again under its key.
use diaspora_equb_product.Common.{
  ℕ, ◌≡◌, refl, sym, ◌∙◌, inl, inr, false, Option, some, [], Text, arith, ok, err, Fault, find_one,
  text_eq, text_eq_self, text_eq→eq, text_eq_iff, ◌≢◌, Bool-cases, trim, is_blank, or_else,
  if◌then◌else◌, result_cases, transaction, transaction-ok,
}
use diaspora_equb_product.Pools.Entities.{StateResponse, IdempotencyKey, Db}
use diaspora_equb_product.Pools.Store.{has_key}
use diaspora_equb_product.Pools.Lifecycle.{normalize_wallet}
use diaspora_equb_product.Pools.Winner.{
  pick_in_transaction, stored_key, request_body, route_of, pick_winner_for_active_round,
}
use diaspora_equb_product.Pools.Winner.Steps.{pick_in_transaction-steps, find_one-append_first}

-- A pick leaves its response under the key.
abbrev pub HasStored : Text → Text → Text → StateResponse → Db → Type 0
HasStored route key request_hash resp db =
    (k : IdempotencyKey) × (find_one (has_key route key) db.idempotency_keys ≡ some k)
    × (k.request_hash ≡ request_hash)
    × (k.response_body ≡ resp)

pub pick_in_transaction-HasStored :
    (get_address : Text → Option Text) (random_int : ℕ → ℕ) (now pool_id : ℕ)
    (caller route key request_hash : Text) (db : Db) {resp : StateResponse} {db' : Db}
    → pick_in_transaction get_address random_int now pool_id caller route key request_hash db
      ≡ (ok resp, db')
    → HasStored route key request_hash resp db'
unfolding stored_key
pick_in_transaction-HasStored get_address random_int now pool_id caller route key request_hash db
      {resp} {db'} h =
    elim (pick_in_transaction-steps get_address random_int now pool_id caller route key request_hash
      db h) [
        | inl r ↦ (r.row, rw r.unchanged r.found, text_eq→eq _ _ r.same_hash, r.same_response)
        | inr s ↦
            let k : IdempotencyKey = stored_key route key request_hash resp in
            let k' : IdempotencyKey = record k { id = (s.picked_db).next_id } in
            (
              k',
              rw s.key_step (
                  find_one-append_first (has_key route key) k' (s.picked_db).idempotency_keys
                    s.key_new (ground (arith, text_eq_self route, text_eq_self key))),
              refl,
              refl,
            )
      ]

-- What the call does where a response is stored: it is given back, or the request differs.
pub pick_in_transaction_stored :
    (get_address : Text → Option Text) (random_int : ℕ → ℕ) (now pool_id : ℕ)
    (caller route key request_hash : Text) (db : Db) (k : IdempotencyKey)
    → find_one (has_key route key) db.idempotency_keys ≡ some k
    → pick_in_transaction get_address random_int now pool_id caller route key request_hash db ≡ (
      if text_eq k.request_hash request_hash
          then ok k.response_body
          else err Fault.idempotency_replay_conflict,
      db,
    )
unfolding pick_in_transaction
pick_in_transaction_stored get_address random_int now pool_id caller route key request_hash db k e =
    ground arith

module _ (get_address : Text → Option Text) (hash : Text → Text) (print_id : ℕ → Text)
    (pool_id : ℕ) where
  -- The call is the transaction once the caller and the key are accepted.
  pick_winner_accepted :
      (random_int : ℕ → ℕ) (now : ℕ) (mode : Text) (key_raw caller_raw : Option Text) (db : Db)
      (caller : Text)
      → normalize_wallet get_address caller_raw ≡ ok caller
      → is_blank (trim (or_else key_raw [])) ≡ false
      → pick_winner_for_active_round get_address random_int hash print_id now pool_id mode key_raw
          caller_raw db
        ≡ transaction
            (pick_in_transaction get_address random_int now pool_id caller
              (route_of (print_id pool_id))
              (trim (or_else key_raw []))
              (hash (request_body mode)))
            db
  unfolding pick_winner_for_active_round
  pick_winner_accepted random_int now mode key_raw caller_raw db caller n b = ground arith

  -- An accepted call.
  pub record IsAccepted (random_int : ℕ → ℕ) (now : ℕ) (mode : Text)
      (key_raw caller_raw : Option Text) (db : Db) (resp : StateResponse) (db' : Db) : Type 0 where
    pub caller : Text
    pub normal : normalize_wallet get_address caller_raw ≡ ok caller
    pub keyed : is_blank (trim (or_else key_raw [])) ≡ false
    pub picked :
        pick_in_transaction get_address random_int now pool_id caller
          (route_of (print_id pool_id))
          (trim (or_else key_raw []))
          (hash (request_body mode))
          db
        ≡ (ok resp, db')

  pub pick_winner-IsAccepted :
      (random_int : ℕ → ℕ) (now : ℕ) (mode : Text) (key_raw caller_raw : Option Text) (db : Db)
      {resp : StateResponse} {db' : Db}
      → pick_winner_for_active_round get_address random_int hash print_id now pool_id mode key_raw
          caller_raw db
        ≡ (ok resp, db')
      → IsAccepted random_int now mode key_raw caller_raw db resp db'
  unfolding pick_winner_for_active_round
  pick_winner-IsAccepted random_int now mode key_raw caller_raw db {resp} {db'} h =
      elim (result_cases (normalize_wallet get_address caller_raw)) [
        | inr (e, n) ↦ absurd (ground arith)
        | inl (c, n) ↦ elim (Bool-cases (is_blank (trim (or_else key_raw [])))) [
          | inl b ↦ absurd (ground arith)
          | inr b ↦ record {
            caller = c;
            normal = n;
            keyed = b;
            picked =
                transaction-ok
                  (pick_in_transaction get_address random_int now pool_id c
                    (route_of (print_id pool_id)) (trim (or_else key_raw []))
                    (hash (request_body mode)))
                  db
                  (sym (pick_winner_accepted random_int now mode key_raw caller_raw db c n b) ∙ h);
          }
        ]
      ]

  -- A request that succeeded and is sent again, at any time and whatever the dice say, is answered
  -- with the first response and changes nothing.
  pub pick_winner_for_active_round_again :
      (random_int random_int' : ℕ → ℕ) (now now' : ℕ) (mode : Text)
      (key_raw caller_raw : Option Text) (db : Db) {resp : StateResponse} {db' : Db}
      → pick_winner_for_active_round get_address random_int hash print_id now pool_id mode key_raw
          caller_raw db
        ≡ (ok resp, db')
      → pick_winner_for_active_round get_address random_int' hash print_id now' pool_id mode key_raw
          caller_raw db'
        ≡ (ok resp, db')
  pick_winner_for_active_round_again random_int random_int' now now' mode key_raw caller_raw db
        {resp} {db'} h =
      let a = pick_winner-IsAccepted random_int now mode key_raw caller_raw db h in
      let route = route_of (print_id pool_id) in
      let key = trim (or_else key_raw []) in
      let digest = hash (request_body mode) in
      let (k, found, same_hash, same_response) =
        pick_in_transaction-HasStored get_address random_int now pool_id a.caller route key digest
          db a.picked in
      ground (
        arith,
        pick_winner_accepted random_int' now' mode key_raw caller_raw db' a.caller a.normal a.keyed,
        pick_in_transaction_stored get_address random_int' now' pool_id a.caller route key digest
            db' k found,
        text_eq_self digest,
      )

  -- After a successful request, the same key with a mode whose request has another digest is
  -- refused as a conflict, and changes nothing.
  pub pick_winner_for_active_round_conflict :
      (random_int random_int' : ℕ → ℕ) (now now' : ℕ) (mode mode' : Text)
      (key_raw caller_raw : Option Text) (db : Db) {resp : StateResponse} {db' : Db}
      → pick_winner_for_active_round get_address random_int hash print_id now pool_id mode key_raw
          caller_raw db
        ≡ (ok resp, db')
      → hash (request_body mode) ≢ hash (request_body mode')
      → pick_winner_for_active_round get_address random_int' hash print_id now' pool_id mode'
          key_raw caller_raw db'
        ≡ (err Fault.idempotency_replay_conflict, db')
  pick_winner_for_active_round_conflict random_int random_int' now now' mode mode' key_raw
        caller_raw db {resp} {db'} h ne =
      let a = pick_winner-IsAccepted random_int now mode key_raw caller_raw db h in
      let route = route_of (print_id pool_id) in
      let key = trim (or_else key_raw []) in
      let digest = hash (request_body mode) in
      let digest' = hash (request_body mode') in
      let (k, found, same_hash, same_response) =
        pick_in_transaction-HasStored get_address random_int now pool_id a.caller route key digest
          db a.picked in
      ground (
        arith,
        pick_winner_accepted random_int' now' mode' key_raw caller_raw db' a.caller a.normal
            a.keyed,
        pick_in_transaction_stored get_address random_int' now' pool_id a.caller route key digest'
            db' k found,
        text_eq_iff digest digest',
      )
