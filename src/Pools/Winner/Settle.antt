-- ===== src/Pools/Winner/Settle.antt =====
-- What a picked winner changes: the round, the season's counter, the pool's pointer and the rounds
-- that are stored.
use diaspora_equb_product.Common.{
  ℕ, ◌+◌, ◌≡◌, refl, ◌⊎◌, inl, inr, false, Option, none, some, [], ◌∷◌, ◌++◌, Text, arith, ok,
  outcome_cases, update_row, to_lower, is_blank,
}
use diaspora_equb_product.Pools.Entities.{Round, RoundStatus, StateResponse, Db, round_key}
use diaspora_equb_product.Pools.Season.{new_round}
use diaspora_equb_product.Pools.Lifecycle.{Locked}
use diaspora_equb_product.Pools.Winner.{draw_winner, picked_round, settle_winner, pick_locked}
use diaspora_equb_product.Pools.Winner.Distinct.{winner_key}

-- The row of the round that follows, under the key `id`.
abbrev pub next_round : ℕ → Locked → Round
next_round id l =
    let r : Round =
      new_round (l.pool).id (l.season).id ((l.round).round_number + 1) RoundStatus.open_round in
    record r { id = id }

-- The rounds that are stored after a pick: the picked one is replaced, and if it was not the
-- season's last an open round with the next number is added.
pub settle_winner_rounds :
    (now : ℕ) (l : Locked) (w : Text) (db : Db) {db' : Db} {resp : StateResponse}
    → settle_winner now l w db ≡ (ok resp, db')
    → let rounds = update_row round_key (picked_round now w l.round) db.rounds in
      (db'.rounds ≡ rounds) ⊎ (db'.rounds ≡ rounds ++ next_round db.next_id l ∷ [])
unfolding settle_winner
settle_winner_rounds now l w db h = ground arith

pub winner_key-next_round :
    (pool_id season_id id : ℕ) (l : Locked) → winner_key pool_id season_id (next_round id l) ≡ none
unfolding winner_key new_round
winner_key-next_round pool_id season_id id l = refl

pub winner_key-picked_round :
    (pool_id season_id now : ℕ) (w : Text) (r : Round)
    → r.pool_id ≡ pool_id
    → r.season_id ≡ season_id
    → is_blank w ≡ false
    → winner_key pool_id season_id (picked_round now w r) ≡ some (to_lower w)
unfolding winner_key picked_round
winner_key-picked_round pool_id season_id now w r p q b = ground arith

-- A pick goes through the two tests of the round and the draw.
pub pick_locked_parts :
    (get_address : Text → Option Text) (random_int : ℕ → ℕ) (now : ℕ) (l : Locked) (db : Db)
    {db' : Db} {resp : StateResponse}
    → pick_locked get_address random_int now l db ≡ (ok resp, db')
    → (w : Text) × (t : Db) × ((l.round).status ≡ RoundStatus.closed)
      × (draw_winner get_address random_int l db ≡ (ok w, t))
      × (settle_winner now l w t ≡ (ok resp, db'))
unfolding pick_locked
pick_locked_parts get_address random_int now l db h =
    elim (outcome_cases (draw_winner get_address random_int l db)) [
      | inl (w, t, e) ↦ (w, t, ground arith, e, ground arith)
      | inr (e, t, k) ↦ absurd (ground arith)
    ]
