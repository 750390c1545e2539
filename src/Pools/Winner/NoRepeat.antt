-- ===== src/Pools/Winner/NoRepeat.antt =====
-- No wallet wins twice in a season, through the whole of `pickWinnerForActiveRound`.
use diaspora_equb_product.Common.{
  ℕ, ◌≡◌, refl, sym, ◌∙◌, inl, inr, true, false, ◌&&◌, Option, none, List, [], ◌∷◌, Text, arith, ok,
  In, any, to_lower, is_blank, ◌==◌, ap, subst, Bool-cases, trim, or_else,
}
use diaspora_equb_product.Pools.Entities.{Pool, PoolMember, Season, Round, StateResponse, Db}
use diaspora_equb_product.Pools.Address.{has_hex_prefix, IsChecksum, AllPrefixed}
use diaspora_equb_product.Pools.Season.{new_round}
use diaspora_equb_product.Pools.Lifecycle.{Locked}
use diaspora_equb_product.Pools.Lifecycle.Lock.{
  LockSteps, lock_active_round-steps, IsLocked, lock_active_round-IsLocked,
}
use diaspora_equb_product.Pools.Consistent.{
  IsConsistent, ensure_season_state_keeps, ensure_active_round_rounds, opened_round,
}
use diaspora_equb_product.Pools.Winner.{
  has_won, picked_round, settle_winner, pick_locked, request_body, route_of, stored_key,
  pick_winner_for_active_round,
}
use diaspora_equb_product.Pools.Winner.Draw.{draw_winner-IsEligible}
use diaspora_equb_product.Pools.Winner.Distinct.{
  DistinctWinners, winner_key, clashes, update_row-DistinctWinners, append-DistinctWinners,
  any-clashes_of_has_won, any-clashes_of_none,
}
use diaspora_equb_product.Pools.Winner.Steps.{pick_in_transaction-steps}
use diaspora_equb_product.Pools.Winner.Replay.{pick_winner-IsAccepted}
use diaspora_equb_product.Pools.Winner.Settle.{
  settle_winner_rounds, winner_key-next_round, winner_key-picked_round, pick_locked_parts,
}

-- In no season of any pool has a wallet won two rounds.
abbrev pub NoRepeatedWinner : List Round → Type 0
NoRepeatedWinner rounds = (pool_id season_id : ℕ) → DistinctWinners pool_id season_id rounds

AllPrefixed-In :
    (ms : List PoolMember) (m : PoolMember)
    → AllPrefixed ms
    → In m ms
    → has_hex_prefix m.wallet_address ≡ true
AllPrefixed-In [] m h i = absurd i.1
AllPrefixed-In (x ∷ ms) m h (inl e) = rw e h.0
AllPrefixed-In (x ∷ ms) m h (inr i) = AllPrefixed-In ms m h.1 i

has_won-congr :
    (rs : List Round) (pool_id season_id : ℕ) (v w : Text)
    → to_lower v ≡ to_lower w
    → has_won rs pool_id season_id v ≡ has_won rs pool_id season_id w
unfolding has_won
has_won-congr [] pool_id season_id v w e = refl
has_won-congr (r ∷ rs) pool_id season_id v w e =
    ground (arith, has_won-congr rs pool_id season_id v w e)

-- The winner of a season's round is none of another season's.
winner_key-picked_ne :
    (pool_id season_id now : ℕ) (w : Text) (r : Round)
    → (r.pool_id == pool_id && r.season_id == season_id) ≡ false
    → winner_key pool_id season_id (picked_round now w r) ≡ none
unfolding winner_key picked_round
winner_key-picked_ne pool_id season_id now w r h = ground arith

picked_clashes :
    (now : ℕ) (l : Locked) (w : Text) (db : Db) (pool_id season_id : ℕ)
    → IsLocked l db
    → is_blank w ≡ false
    → has_won db.rounds (l.pool).id (l.season).id w ≡ false
    → any (clashes pool_id season_id (picked_round now w l.round)) db.rounds ≡ false
picked_clashes now l w db pool_id season_id k b fresh =
    elim (Bool-cases ((l.round).pool_id == pool_id && (l.round).season_id == season_id)) [
      | inr e ↦
          any-clashes_of_none _ _ _ db.rounds
            (winner_key-picked_ne pool_id season_id now w l.round e)
      | inl e ↦
          let p : (l.round).pool_id ≡ pool_id = ground arith in
          let q : (l.round).season_id ≡ season_id = ground arith in
          any-clashes_of_has_won _ _ _ w db.rounds (winner_key-picked_round _ _ now w l.round p q b)
            (subst (λ (i : ℕ). has_won db.rounds i season_id w ≡ false) (sym k.of_pool ∙ p)
              (subst (λ (i : ℕ). has_won db.rounds (l.pool).id i w ≡ false) (sym k.of_season ∙ q)
                fresh))
    ]

settle_winner-NoRepeatedWinner :
    (now : ℕ) (l : Locked) (w : Text) (db : Db) {db' : Db} {resp : StateResponse}
    → settle_winner now l w db ≡ (ok resp, db')
    → IsLocked l db
    → is_blank w ≡ false
    → has_won db.rounds (l.pool).id (l.season).id w ≡ false
    → NoRepeatedWinner db.rounds
    → NoRepeatedWinner db'.rounds
settle_winner-NoRepeatedWinner now l w db {db'} h k b fresh d pool_id season_id =
    let kept =
      update_row-DistinctWinners pool_id season_id _ db.rounds
        (picked_clashes now l w db pool_id season_id k b fresh) (d pool_id season_id) in
    elim (settle_winner_rounds now l w db h) [
      | inl e ↦ rw e kept
      | inr e ↦ rw e (
          append-DistinctWinners pool_id season_id _ _ (winner_key-next_round pool_id season_id _ l)
            kept)
    ]

pub pick_locked-NoRepeatedWinner :
    (get_address : Text → Option Text) (random_int : ℕ → ℕ) (now : ℕ) (l : Locked) (db : Db)
    {db' : Db} {resp : StateResponse}
    → pick_locked get_address random_int now l db ≡ (ok resp, db')
    → IsChecksum get_address
    → AllPrefixed db.members
    → IsLocked l db
    → NoRepeatedWinner db.rounds
    → NoRepeatedWinner db'.rounds
pick_locked-NoRepeatedWinner get_address random_int now l db h ck pre k d =
    let (w, t, closed, drawn, settled) = pick_locked_parts get_address random_int now l db h in
    let (m, eligible, addr, same) = draw_winner-IsEligible get_address random_int l db drawn in
    let lower =
      ck.keeps_letters m.wallet_address w (AllPrefixed-In db.members m pre eligible.is_row) addr in
    let fresh =
      has_won-congr db.rounds (l.pool).id (l.season).id w m.wallet_address lower
      ∙ eligible.not_won in
    settle_winner-NoRepeatedWinner now l w db (rw same at settled) k (ck.not_empty _ w addr) fresh d

winner_key-opened_round :
    (pool_id season_id id : ℕ) (pool : Pool) (season : Season)
    → winner_key pool_id season_id (opened_round id pool season) ≡ none
unfolding winner_key new_round
winner_key-opened_round pool_id season_id id pool season = refl

-- Locking the round opens at most a round without a winner, and touches no member.
LockSteps-keeps :
    {now pool_id : ℕ} {caller : Text} {db : Db} {l : Locked} {db' : Db}
    → LockSteps now pool_id caller db l db'
    → (NoRepeatedWinner db.rounds → NoRepeatedWinner db'.rounds) × (db'.members ≡ db.members)
LockSteps-keeps {now} {db = db} {l = l} {db' = db'} s =
    let (rounds, members, keys, ids) = ensure_season_state_keeps now s.found db in
    let mid_rounds : (s.mid).rounds ≡ db.rounds =
      ap (λ p. (p.1).rounds) (sym s.season_step) ∙ rounds in
    let mid_members : (s.mid).members ≡ db.members =
      ap (λ p. (p.1).members) (sym s.season_step) ∙ members in
    let (kept, same_members, _) = ensure_active_round_rounds s.synced l.season s.mid s.round_step in
    (
      λ d pool_id season_id. elim kept [
        | inl e ↦ rw (e ∙ mid_rounds) (d pool_id season_id)
        | inr e ↦ rw e (
            append-DistinctWinners pool_id season_id _ _
              (winner_key-opened_round pool_id season_id _ s.synced l.season)
              (rw mid_rounds (d pool_id season_id)))
      ],
      same_members ∙ mid_members,
    )

-- Where `getAddress` keeps letters, the tables are consistent and every member's address has its
-- `0x`: a successful pick keeps that no season of a pool has two rounds won by the same wallet,
-- letter case aside.
pub pick_winner-NoRepeatedWinner :
    (get_address : Text → Option Text) (random_int : ℕ → ℕ) (hash : Text → Text)
    (print_id : ℕ → Text) (now pool_id : ℕ) (mode : Text) (key_raw caller_raw : Option Text)
    (db : Db) {resp : StateResponse} {db' : Db}
    → IsChecksum get_address
    → IsConsistent db
    → AllPrefixed db.members
    → NoRepeatedWinner db.rounds
    → pick_winner_for_active_round get_address random_int hash print_id now pool_id mode key_raw
        caller_raw db
      ≡ (ok resp, db')
    → NoRepeatedWinner db'.rounds
unfolding stored_key
pick_winner-NoRepeatedWinner get_address random_int hash print_id now pool_id mode key_raw
      caller_raw db {resp} {db'} ck c pre d h =
    let a =
      pick_winner-IsAccepted get_address hash print_id pool_id random_int now mode key_raw
        caller_raw db h in
    elim (pick_in_transaction-steps get_address random_int now pool_id a.caller
      (route_of (print_id pool_id)) (trim (or_else key_raw [])) (hash (request_body mode)) db
      a.picked) [
        | inl r ↦ rw r.unchanged d
        | inr s ↦
            let steps = lock_active_round-steps now pool_id a.caller db s.lock_step in
            let (keeps, same_members) = LockSteps-keeps steps in
            rw s.key_step (
              pick_locked-NoRepeatedWinner get_address random_int now s.l s.locked_db s.pick_step ck
                (rw same_members pre)
                (lock_active_round-IsLocked now pool_id a.caller db c s.lock_step) (keeps d))
      ]
