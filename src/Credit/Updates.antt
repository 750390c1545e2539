-- ===== src/Credit/Updates.antt =====
-- What `updateScore` does to the scores of the wallets.
use diaspora_equb_product.Common.{
  ◌≡◌, refl, Text, arith, text_eq, text_eq_self, find_one_passes, find_one-append_none,
  find_one-update_passes, Option-cases, inl, inr, ℤ, pos, ◌+ℤ◌, ◌-ℤ◌, +ℤ_parts, -ℤ_parts,
  eq_of_parts,
}
use diaspora_equb_product.Credit.{
  CreditScore, Scores, score_key, find_score, cached_score, update_score,
}

given_back : (a d : ℤ) → (a +ℤ d) -ℤ d ≡ a
given_back a d = eq_of_parts _ _ (ground (arith, -ℤ_parts (a +ℤ d) d, +ℤ_parts a d))

zero_first : (d : ℤ) → pos 0 +ℤ d -ℤ d ≡ pos 0
zero_first d = given_back (pos 0) d

-- `updateScore` adds the change to the wallet's score, which is 0 for a wallet without a row, and
-- answers with the score before and after.
pub update_score-adds :
    (wallet : Text) (delta : ℤ) (s : Scores)
    → let (answer, s') = update_score wallet delta s in
      (cached_score wallet s' ≡ cached_score wallet s +ℤ delta)
      × (answer ≡ (cached_score wallet s, cached_score wallet s'))
unfolding update_score
update_score-adds wallet delta s = elim (Option-cases (find_score wallet s)) [
  | inl e ↦
      let c : CreditScore = record {
        id = s.next_id;
        wallet_address = wallet;
        score = pos 0 +ℤ delta;
      } in
      let found =
        find_one-append_none (λ x. text_eq x.wallet_address wallet) c s.scores e
          (text_eq_self wallet) in
      ground (arith, found, zero_first delta)
  | inr (old, e) ↦
      let c : CreditScore = record old { score = old.score +ℤ delta } in
      let found =
        find_one-update_passes score_key (λ x. text_eq x.wallet_address wallet) c old s.scores
          (find_one_passes (λ x. text_eq x.wallet_address wallet) s.scores e) e refl in
      ground (arith, found, given_back old.score delta)
]
