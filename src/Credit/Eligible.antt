-- ===== src/Credit/Eligible.antt =====
-- The tier of a score.
use diaspora_equb_product.Common.{ℕ, ◌+◌, ◌≡◌, ◌≤◌, ◌<◌, true, none, some, ◌≤ℤ◌, ℤ, pos, ltb_ℤ}
use diaspora_equb_product.Credit.{Eligibility, tier_score_requirements, requirement}

-- A score of the response reaches its tier's requirement, where it is not negative, and a negative
-- one has tier 0; it reaches no higher requirement; the next tier and its requirement are offered below the last tier.
pub record IsTierOf (score : ℤ) (e : Eligibility) : Type 0 where
  pub scored : e.credit_score ≡ score
  pub reached :
      (r : ℕ)
      → requirement e.tier tier_score_requirements ≡ some r
      → pos 0 ≤ℤ score
      → pos r ≤ℤ score
  pub negative : ltb_ℤ score (pos 0) ≡ true → e.tier ≡ 0
  pub not_higher :
      (t r : ℕ)
      → e.tier < t
      → requirement t tier_score_requirements ≡ some r
      → ltb_ℤ score (pos r) ≡ true
  pub next :
      e.tier < 3
      → (e.next_tier ≡ some (e.tier + 1))
        × (e.score_for_next_tier ≡ requirement (e.tier + 1) tier_score_requirements)
  pub top : 3 ≤ e.tier → (e.next_tier ≡ none) × (e.score_for_next_tier ≡ none)
