-- ===== src/Credit.antt =====
-- CreditService and TiersService (backend/src/credit/credit.service.ts and
-- backend/src/tiers/tiers.service.ts). What the contracts answer is an argument, `none` where the
-- read fails.
pub mod Updates
pub mod Eligible
mod Tests
use diaspora_equb_product.Common.{
  ℕ, ◌+◌, Bool, true, false, Option, none, some, List, [], ◌∷◌, ◌++◌, Text, if◌then◌else◌, text_eq,
  find_one, update_row, or_else, ℤ, pos, ◌+ℤ◌, ◌-ℤ◌, leb_ℤ, ltb, ◌==◌,
}

pub record CreditScore : Type 0 where
  pub id : ℕ
  pub wallet_address : Text
  pub score : ℤ

pub record Scores : Type 0 where
  pub scores : List CreditScore
  pub next_id : ℕ

abbrev pub score_key : CreditScore → ℕ
score_key c = c.id

abbrev pub find_score : Text → Scores → Option CreditScore
find_score wallet s = find_one (λ c. text_eq c.wallet_address wallet) s.scores

-- The score that the table holds, 0 for a wallet without a row.
abbrev pub cached_score : Text → Scores → ℤ
cached_score wallet s = elim (find_score wallet s) [ none ↦ pos 0 | some c ↦ c.score ]

-- `getScore`, without the source.
unfoldable pub get_score : Option ℤ → Text → Scores → ℤ
get_score on_chain wallet s = or_else on_chain (cached_score wallet s)

-- `updateScore`; gives the previous and the new score of the response.
unfoldable pub update_score : Text → ℤ → Scores → (ℤ × ℤ) × Scores
update_score wallet delta s = elim (find_score wallet s) [
  | none ↦
      let c : CreditScore = record {
        id = s.next_id;
        wallet_address = wallet;
        score = pos 0 +ℤ delta;
      } in
      ((c.score -ℤ delta, c.score), record { scores = s.scores ++ c ∷ []; next_id = s.next_id + 1 })
  | some old ↦
      let c : CreditScore = record old { score = old.score +ℤ delta } in
      ((c.score -ℤ delta, c.score), record s { scores = update_row score_key c s.scores })
]

-- `TIER_SCORE_REQUIREMENTS`, in the order of its keys.
abbrev pub tier_score_requirements : List (ℕ × ℕ)
tier_score_requirements = (0, 0) ∷ (1, 5) ∷ (2, 20) ∷ (3, 50) ∷ []

unfoldable pub eligible_from : ℤ → ℕ → List (ℕ × ℕ) → ℕ
eligible_from score tier [] = tier
eligible_from score tier ((t, required) ∷ rest) =
    eligible_from score (if leb_ℤ (pos required) score then t else tier) rest

-- The highest eligible tier.
unfoldable pub eligible_tier : ℤ → ℕ
unfolding eligible_from
eligible_tier score = eligible_from score 0 tier_score_requirements

abbrev pub requirement : ℕ → List (ℕ × ℕ) → Option ℕ
requirement t [] = none
requirement t ((k, r) ∷ rest) = let other = requirement t rest in if k == t then some r else other

pub record Eligibility : Type 0 where
  pub credit_score : ℤ
  pub tier : ℕ
  pub collateral_rate : ℕ
  pub max_pool_size : Text
  pub next_tier : Option ℕ
  pub score_for_next_tier : Option ℕ

-- `getEligibility`; `config` reads a tier's rate and size, from the chain or from the table.
unfoldable pub get_eligibility : Option ℤ → (ℕ → ℕ × Text) → Text → Scores → Eligibility
get_eligibility on_chain config wallet s =
    let score = get_score on_chain wallet s in
    let tier = eligible_tier score in
    let (rate, size) = config tier in
    record {
      credit_score = score;
      tier = tier;
      collateral_rate = rate;
      max_pool_size = size;
      next_tier = if ltb tier 3 then some (tier + 1) else none;
      score_for_next_tier =
          if ltb tier 3 then requirement (tier + 1) tier_score_requirements else none;
    }
