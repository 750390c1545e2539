-- ===== src/Credit/Tests.antt =====
-- A wallet's score and tier.
use diaspora_equb_product.Common.{
  ℕ, ◌*◌, ◌≡◌, refl, none, [], Text, codes, pos, ◌+ℤ◌, ◌-ℤ◌, text_eq,
}
use diaspora_equb_product.Credit.{
  Scores, cached_score, get_score, update_score, eligible_tier, get_eligibility,
}
use diaspora_equb_product.Credit.Updates.{update_score-adds}

abbrev wallet : Text
wallet = codes "0xA1"

abbrev empty : Scores
empty = record { scores = []; next_id = 1 }

abbrev scored : Scores
scored = (update_score wallet (pos 20) empty).1

abbrev config : ℕ → ℕ × Text
config tier = (100 * tier, codes "10")

evaluation : Unit {0}
unfolding update_score text_eq get_score eligible_tier get_eligibility ◌+ℤ◌ ◌-ℤ◌
evaluation = tt

second_tier : (get_eligibility none config wallet scored).tier ≡ 2
unfolding evaluation
second_tier = refl

update_score-adds_example :
    (cached_score wallet scored ≡ pos 0 +ℤ pos 20)
    × ((update_score wallet (pos 20) empty).0 ≡ (pos 0, cached_score wallet scored))
unfolding evaluation
update_score-adds_example = update_score-adds wallet (pos 20) empty
