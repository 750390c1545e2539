-- ===== src/Pools/Winner/Draw.antt =====
-- The draw of `pickWinnerForActiveRound`: who can win, and when a winner is found.
use diaspora_equb_product.Common.{
  ℕ, ◌≡◌, false, Option, some, List, Text, arith, ==_iff, ok, In, In-filter_by, get_elem?-In,
  get_elem?, length, filter_by, Option-cases, not-eq-true, inl, inr,
}
use diaspora_equb_product.Pools.Entities.{PoolMember, Round, Db}
use diaspora_equb_product.Pools.Lifecycle.{Locked}
use diaspora_equb_product.Pools.Winner.{
  has_won, is_of_pool, may_win, pool_members, eligible_members, pick_random_index, member_at,
  draw_winner,
}

-- What it takes to be drawn.
pub record IsEligible (pool_id season_id : ℕ) (members : List PoolMember) (rounds : List Round)
    (m : PoolMember) : Type 0 where
  pub is_row : In m members
  pub of_pool : m.pool_id ≡ pool_id
  pub not_won : has_won rounds pool_id season_id m.wallet_address ≡ false

pub eligible_members-IsEligible :
    (pool_id season_id : ℕ) (members : List PoolMember) (rounds : List Round) {m : PoolMember}
    → In m (eligible_members pool_id season_id members rounds)
    → IsEligible pool_id season_id members rounds m
unfolding eligible_members pool_members
eligible_members-IsEligible pool_id season_id members rounds {m} h =
    let (of_members, fresh) =
      In-filter_by (may_win rounds pool_id season_id) (filter_by (is_of_pool pool_id) members) h in
    let (row, same) = In-filter_by (is_of_pool pool_id) members of_members in
    record { is_row = row; of_pool = (==_iff _ _).0 same; not_won = not-eq-true _ fresh }

member_at-ok :
    (get_address : Text → Option Text) (members : List PoolMember) (i : ℕ) {w : Text}
    → member_at get_address members i ≡ ok w
    → (m : PoolMember) × In m members × (get_address m.wallet_address ≡ some w)
unfolding member_at
member_at-ok get_address members i e = elim (Option-cases (get_elem? members i)) [
  | inl out ↦ absurd (ground arith)
  | inr (m, found) ↦ (m, get_elem?-In members i found, ground arith)
]

-- The pieces of a draw that gave a winner.
draw_winner_parts :
    (get_address : Text → Option Text) (random_int : ℕ → ℕ) (l : Locked) (db : Db) {db' : Db}
    {w : Text}
    → draw_winner get_address random_int l db ≡ (ok w, db')
    → (db' ≡ db)
      × (let eligible = eligible_members (l.pool).id (l.season).id db.members db.rounds in
          member_at get_address eligible (random_int (length eligible)) ≡ ok w)
unfolding draw_winner pick_random_index
draw_winner_parts get_address random_int l db h = ground arith

-- A drawn winner is the checksum address of a member of the pool that has not won a round of the
-- season before, letter case aside, and the draw writes nothing.
pub draw_winner-IsEligible :
    (get_address : Text → Option Text) (random_int : ℕ → ℕ) (l : Locked) (db : Db) {db' : Db}
    {w : Text}
    → draw_winner get_address random_int l db ≡ (ok w, db')
    → (m : PoolMember) × IsEligible (l.pool).id (l.season).id db.members db.rounds m
      × (get_address m.wallet_address ≡ some w)
      × (db' ≡ db)
draw_winner-IsEligible get_address random_int l db h =
    let (same, at) = draw_winner_parts get_address random_int l db h in
    let (m, row, addr) = member_at-ok get_address _ _ at in
    (m, eligible_members-IsEligible _ _ _ _ row, addr, same)
