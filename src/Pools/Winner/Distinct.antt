-- ===== src/Pools/Winner/Distinct.antt =====
-- No wallet wins two rounds of one season: the invariant of the stored rounds, and that the save
-- of a picked round and the opening of the next one keep it.
use diaspora_equb_product.Common.{
  ℕ, ◌≡◌, refl, Bool, false, not, ◌&&◌, Option, none, some, List, [], ◌∷◌, ◌++◌, Text, arith,
  text_eq, text_eq_iff, to_lower, is_blank, any, update_row, if◌then◌else◌,
}
use diaspora_equb_product.Pools.Entities.{Round, round_key}
use diaspora_equb_product.Pools.Winner.{is_won_in, has_won}

text_eq_symm : (a b : Text) → text_eq a b ≡ text_eq b a
text_eq_symm a b = ground (arith, text_eq_iff a b, text_eq_iff b a)

module _ (pool_id season_id : ℕ) where
  -- The lower-case winner of a won round of the season.
  unfoldable pub winner_key : Round → Option Text
  winner_key r = elim r.winner_wallet [
    | none ↦ none
    | some w ↦ if is_won_in pool_id season_id r && not (is_blank w) then some (to_lower w) else none
  ]

  abbrev is_key : Option Text → Text → Bool
  is_key none k = false
  is_key (some j) k = text_eq j k

  -- Both rounds are won, and by the same wallet.
  same_key : Option Text → Option Text → Bool
  same_key none b = false
  same_key (some j) b = is_key b j

  unfoldable pub clashes : Round → Round → Bool
  unfolding same_key winner_key
  clashes r x = same_key (winner_key r) (winner_key x)

  -- No two rounds of the list are won by one wallet.
  abbrev pub DistinctWinners : List Round → Type 0
  DistinctWinners [] = Unit {0}
  DistinctWinners (r ∷ rs) = (any (clashes r) rs ≡ false) × DistinctWinners rs

  same_key_symm : (a b : Option Text) → same_key a b ≡ same_key b a
  unfolding same_key
  same_key_symm none none = refl
  same_key_symm none (some k) = refl
  same_key_symm (some j) none = refl
  same_key_symm (some j) (some k) = text_eq_symm k j

  clashes_symm : (r x : Round) → clashes r x ≡ clashes x r
  unfolding clashes
  clashes_symm r x = same_key_symm (winner_key r) (winner_key x)

  any-clashes-update_row :
      (r a : Round) (rs : List Round)
      → any (clashes r) rs ≡ false
      → clashes r a ≡ false
      → any (clashes r) (update_row round_key a rs) ≡ false
  any-clashes-update_row r a [] h k = refl
  any-clashes-update_row r a (x ∷ rs) h k = ground (arith, any-clashes-update_row r a rs)

  pub update_row-DistinctWinners :
      (a : Round) (rs : List Round)
      → any (clashes a) rs ≡ false
      → DistinctWinners rs
      → DistinctWinners (update_row round_key a rs)
  update_row-DistinctWinners a [] h d = tt
  update_row-DistinctWinners a (x ∷ rs) h d =
      ground
        (arith, update_row-DistinctWinners a rs, any-clashes-update_row x a rs, clashes_symm x a)

  any-clashes-append :
      (r a : Round) (rs : List Round)
      → any (clashes r) rs ≡ false
      → clashes r a ≡ false
      → any (clashes r) (rs ++ a ∷ []) ≡ false
  any-clashes-append r a [] h k = ground arith
  any-clashes-append r a (x ∷ rs) h k = ground (arith, any-clashes-append r a rs)

  clashes_of_none : (x r : Round) → winner_key r ≡ none → clashes x r ≡ false
  unfolding clashes same_key
  clashes_of_none x r h = ground arith

  pub append-DistinctWinners :
      (r : Round) (rs : List Round)
      → winner_key r ≡ none
      → DistinctWinners rs
      → DistinctWinners (rs ++ r ∷ [])
  append-DistinctWinners r [] h d = (refl, tt)
  append-DistinctWinners r (x ∷ rs) h d =
      ground (arith, append-DistinctWinners r rs, any-clashes-append x r rs, clashes_of_none x r)

  -- A wallet that has won no round clashes with none as the winner of another.
  pub any-clashes_of_has_won :
      (a : Round) (w : Text) (rs : List Round)
      → winner_key a ≡ some (to_lower w)
      → has_won rs pool_id season_id w ≡ false
      → any (clashes a) rs ≡ false
  unfolding has_won clashes same_key winner_key
  any-clashes_of_has_won a w [] k h = refl
  any-clashes_of_has_won a w (x ∷ rs) k h = ground (arith, any-clashes_of_has_won a w rs)

  pub any-clashes_of_none :
      (a : Round) (rs : List Round) → winner_key a ≡ none → any (clashes a) rs ≡ false
  unfolding clashes
  any-clashes_of_none a [] k = refl
  any-clashes_of_none a (x ∷ rs) k = ground (arith, any-clashes_of_none a rs)
