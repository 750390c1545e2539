-- ===== src/Collateral/Release.antt =====
-- What `releaseTokenCollateral` sends and what it takes off the locked amount.
use diaspora_equb_product.Common.{
  IsDecimalColumn, ℕ, ◌≡◌, ◌≢◌, refl, sym, subst, false, Option, none, some, [], ◌∷◌, ◌++◌, Text,
  arith, ok, outcome_cases, result_cases, Option-cases, Bool-cases, inl, inr, ℤ, pos, ◌+ℤ◌, ◌-ℤ◌,
  ◌≤ℤ◌, ltb_ℤ, print_ℤ, +ℤ_parts, -ℤ_parts, eq_of_parts,
}
use diaspora_equb_product.Collateral.Store.{
  Collateral, Transfer, Vault, find_collateral, save_collateral,
}
use diaspora_equb_product.Collateral.{
  parse_amount, TokenChain, get_token_address, send_tokens, release_token_collateral,
}
use diaspora_equb_product.Collateral.Amounts.{
  parse_amount-written, parse_amount-print_ℤ, save_collateral-Saved,
}
use diaspora_equb_product.Collateral.Slash.{Standing, kept_amount, same_passes}

-- A release of `amount`: the transfer that was mined, of the units that `parseUnits` gives, and the
-- whole part `a` of the amount, moved from the locked to the available amount.
pub record Releases (chain : TokenChain) (wallet amount symbol : Text) (s s' : Vault) (l d v a : ℤ)
    : Type 0 where
  pub token : Text
  pub decimals : ℕ
  pub wei : ℤ
  pub configured : get_token_address chain symbol ≡ ok token
  pub has_decimals : chain.decimals token ≡ some decimals
  pub units : chain.parse_units amount decimals ≡ some wei
  pub sent_once : s'.sent ≡ s.sent ++ record { token = token; to = wallet; amount = wei } ∷ []
  pub covered : a ≤ℤ l
  pub standing : Standing (find_collateral wallet none s') (l -ℤ a) d (v +ℤ a)

-- The steps of a release that ends well, up to the save.
record ReleaseSteps (chain : TokenChain) (wallet amount symbol : Text) (column : Text → Option Text)
    (s s' : Vault) (c : Collateral) (l v a : ℤ) : Type 0 where
  pub token : Text
  pub decimals : ℕ
  pub wei : ℤ
  pub configured : get_token_address chain symbol ≡ ok token
  pub has_decimals : chain.decimals token ≡ some decimals
  pub units : chain.parse_units amount decimals ≡ some wei
  pub covered : a ≤ℤ l
  pub saved :
      save_collateral column
        (some c)
        (record c { locked_amount = print_ℤ (l -ℤ a); available_balance = print_ℤ (v +ℤ a) })
        (record s { sent = s.sent ++ record { token = token; to = wallet; amount = wei } ∷ [] })
      ≡ (ok tt, s')

not_above : (l a : ℤ) → ltb_ℤ l a ≡ false → a ≤ℤ l
not_above l a h = ground arith

release_steps :
    (column : Text → Option Text) (chain : TokenChain) (wallet amount symbol : Text) (s : Vault)
    (c : Collateral) (l v a : ℤ) {answer : Text × Text × Text} {s' : Vault}
    → find_collateral wallet none s ≡ some c
    → parse_amount c.locked_amount ≡ ok l
    → parse_amount c.available_balance ≡ ok v
    → parse_amount amount ≡ ok a
    → release_token_collateral column chain wallet amount symbol s ≡ (ok answer, s')
    → ReleaseSteps chain wallet amount symbol column s s' c l v a
unfolding release_token_collateral send_tokens
release_steps column chain wallet amount symbol s c l v a {s' = s'} f pl pv p h =
    elim (Option-cases chain.signer) [
      | inl e ↦ absurd (ground arith)
      | inr (signer, e) ↦ elim (result_cases (get_token_address chain symbol)) [
        | inr (e1, t) ↦ absurd (ground arith)
        | inl (token, t) ↦ elim (Option-cases (chain.decimals token)) [
          | inl z ↦ absurd (ground arith)
          | inr (decimals, z) ↦ elim (Option-cases (chain.parse_units amount decimals)) [
            | inl u ↦ absurd (ground arith)
            | inr (wei, u) ↦ elim (Bool-cases (ltb_ℤ l a)) [
              | inl b ↦ absurd (ground arith)
              | inr b ↦ elim (Option-cases (chain.transfer token wallet wei)) [
                | inl g ↦ absurd (ground arith)
                | inr (hash, g) ↦
                    let mid : Vault = record s {
                      sent = s.sent ++ record { token = token; to = wallet; amount = wei } ∷ [];
                    } in
                    let c' : Collateral = record c {
                      locked_amount = print_ℤ (l -ℤ a);
                      available_balance = print_ℤ (v +ℤ a);
                    } in
                    elim (outcome_cases (save_collateral column (some c) c' mid)) [
                      | inr (e2, w, q) ↦ absurd (ground arith)
                      | inl (tt, w, q) ↦
                          let same : w ≡ s' = ground arith in
                          record {
                            token = token;
                            decimals = decimals;
                            wei = wei;
                            configured = t;
                            has_decimals = z;
                            units = u;
                            covered = not_above l a b;
                            saved =
                                subst (λ x. save_collateral column (some c) c' mid ≡ (ok tt, x))
                                  same q;
                          }
                    ]
              ]
            ]
          ]
        ]
      ]
    ]

release_finds :
    (column : Text → Option Text) (chain : TokenChain) (wallet amount symbol : Text) (s : Vault)
    {answer : Text × Text × Text} {s' : Vault}
    → find_collateral wallet none s ≡ none
    → release_token_collateral column chain wallet amount symbol s ≢ (ok answer, s')
unfolding release_token_collateral
release_finds column chain wallet amount symbol s f h = absurd (ground arith)

nothing_moved : (z : ℤ) → (z -ℤ pos 0 ≡ z) × (z +ℤ pos 0 ≡ z)
nothing_moved z = (
  eq_of_parts _ _ (ground (arith, -ℤ_parts z (pos 0))),
  eq_of_parts _ _ (ground (arith, +ℤ_parts z (pos 0))),
)

-- Where the columns keep integers, a release that ends well sends the units of the amount once,
-- and moves the amount's whole part, which was locked, from the locked to the available amount of
-- the wallet.
pub release_token_collateral-Releases :
    (column : Text → Option Text) (chain : TokenChain) (wallet amount symbol : Text) (s : Vault)
    (l d v a : ℤ) {answer : Text × Text × Text} {s' : Vault}
    → IsDecimalColumn column
    → Standing (find_collateral wallet none s) l d v
    → parse_amount amount ≡ ok a
    → release_token_collateral column chain wallet amount symbol s ≡ (ok answer, s')
    → Releases chain wallet amount symbol s s' l d v a
release_token_collateral-Releases column chain wallet amount symbol s l d v a {s' = s'} dec st p h =
    elim (Option-cases (find_collateral wallet none s)) [
      | inl f ↦ absurd (release_finds column chain wallet amount symbol s f h)
      | inr (c, f) ↦
          let (pl, pd, pv) = subst (λ x. Standing x l d v) f st in
          let r = release_steps column chain wallet amount symbol s c l v a f pl pv p h in
          let w =
            save_collateral-Saved column wallet none (some c) _ _ s' f (λ o e. ground arith)
              (same_passes wallet none s c f [] [] []) r.saved in
          record {
            token = r.token;
            decimals = r.decimals;
            wei = r.wei;
            configured = r.configured;
            has_decimals = r.has_decimals;
            units = r.units;
            sent_once = w.sent_kept;
            covered = r.covered;
            standing =
                subst (λ x. Standing x (l -ℤ a) d (v +ℤ a)) (sym w.found)
                  (
                    parse_amount-written column (some c.locked_amount) (l -ℤ a) _ dec w.locked,
                    kept_amount column c.slashed_amount _ d pd w.slashed,
                    parse_amount-written column (some c.available_balance) (v +ℤ a) _ dec
                        w.available,
                  );
          }
    ]

-- Where the columns keep integers, a release of less than one token, such as `0.9`, that ends well
-- sends its units and leaves the wallet's amounts as they were.
pub release_token_collateral_unpaid :
    (column : Text → Option Text) (chain : TokenChain) (wallet symbol f : Text) (s : Vault)
    (l d v : ℤ) {answer : Text × Text × Text} {s' : Vault}
    → IsDecimalColumn column
    → Standing (find_collateral wallet none s) l d v
    → release_token_collateral column chain wallet (print_ℤ (pos 0) ++ b'.' ∷ f) symbol s
      ≡ (ok answer, s')
    → (t : Transfer) × ((decimals : ℕ) × (chain.parse_units (print_ℤ (pos 0) ++ b'.' ∷ f) decimals
          ≡ some t.amount))
      × (t.to ≡ wallet)
      × (s'.sent ≡ s.sent ++ t ∷ [])
      × Standing (find_collateral wallet none s') l d v
release_token_collateral_unpaid column chain wallet symbol f s l d v {s' = s'} dec st h =
    let r =
      release_token_collateral-Releases column chain wallet _ symbol s l d v (pos 0) dec st
        (parse_amount-print_ℤ (pos 0) f).1 h in
    let (same_l, _) = nothing_moved l in
    let (_, same_v) = nothing_moved v in
    (
      record { token = r.token; to = wallet; amount = r.wei },
      (r.decimals, r.units),
      refl,
      r.sent_once,
      subst (λ x. Standing (find_collateral wallet none s') x d v) same_l
          (subst (λ x. Standing (find_collateral wallet none s') (l -ℤ pos 0) d x) same_v
            r.standing),
    )
