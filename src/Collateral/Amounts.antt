-- ===== src/Collateral/Amounts.antt =====
-- Amounts that were stored are read back, and a saved row is found again.
use diaspora_equb_product.Common.{
  written, IsDecimalColumn, ℕ, ◌≡◌, refl, ◌∙◌, ap, true, Option, none, some, [], ◌∷◌, ◌++◌, Text,
  arith, text_eq, text_eq→eq, text_eq_self, trim, trim_of_NoSpace, ok, find_one-append_none,
  find_one-update_passes, result_cases, Option-cases, Bool-cases, inl, inr, ℤ, print_ℤ,
  big_int-print_ℤ, Avoids, print_ℤ-no_dot, print_ℤ-NoSpace, print_ℤ-not_blank,
}
use mathlib.Core.Option
use diaspora_equb_product.Collateral.Store.{
  Collateral, Vault, collateral_key, is_collateral, find_collateral, save_collateral,
}
use diaspora_equb_product.Collateral.{before_dot, parse_amount}

before_dot-append : (s f : Text) → Avoids b'.' s → before_dot (s ++ b'.' ∷ f) ≡ s
before_dot-append [] f h = refl
before_dot-append (c ∷ s) f (e, h) = rw e (ap (λ t. c ∷ t) (before_dot-append s f h))

before_dot_of_Avoids : (s : Text) → Avoids b'.' s → before_dot s ≡ s
before_dot_of_Avoids [] h = refl
before_dot_of_Avoids (c ∷ s) (e, h) = rw e (ap (λ t. c ∷ t) (before_dot_of_Avoids s h))

parse_amount_of_whole : (s : Text) (z : ℤ) → before_dot s ≡ print_ℤ z → parse_amount s ≡ ok z
unfolding parse_amount
parse_amount_of_whole s z h =
    let trimmed : trim (before_dot s) ≡ print_ℤ z =
      ap trim h ∙ trim_of_NoSpace _ (print_ℤ-NoSpace z) in
    ground (arith, trimmed, print_ℤ-not_blank z, big_int-print_ℤ z)

-- An amount is read back from its printed form, and the digits after a dot do not count.
pub parse_amount-print_ℤ :
    (z : ℤ) (f : Text)
    → (parse_amount (print_ℤ z) ≡ ok z) × (parse_amount (print_ℤ z ++ b'.' ∷ f) ≡ ok z)
parse_amount-print_ℤ z f = (
  parse_amount_of_whole _ z (before_dot_of_Avoids _ (print_ℤ-no_dot z)),
  parse_amount_of_whole _ z (before_dot-append _ f (print_ℤ-no_dot z)),
)

parse_amount-column :
    (column : Text → Option Text) (z : ℤ) (t : Text)
    → IsDecimalColumn column
    → column (print_ℤ z) ≡ some t
    → parse_amount t ≡ ok z
parse_amount-column column z t d h =
    let (f, e) = d.decimals z t h in rw e (parse_amount-print_ℤ z f).1

-- What is written is read back.
pub parse_amount-written :
    (column : Text → Option Text) (old : Option Text) (z : ℤ) (t : Text)
    → IsDecimalColumn column
    → written column old (print_ℤ z) ≡ ok t
    → parse_amount t ≡ ok z
unfolding written
parse_amount-written column none z t d h = elim (Option-cases (column (print_ℤ z))) [
  | inl e ↦ absurd (ground arith)
  | inr (u, e) ↦ parse_amount-column column z t d (ground arith)
]
parse_amount-written column (some old) z t d h = elim (Bool-cases (text_eq old (print_ℤ z))) [
  | inl same ↦
      let e : t ≡ print_ℤ z = ground (arith, text_eq→eq old (print_ℤ z)) in
      rw e (parse_amount-print_ℤ z []).0
  | inr new ↦ elim (Option-cases (column (print_ℤ z))) [
    | inl e ↦ absurd (ground arith)
    | inr (u, e) ↦ parse_amount-column column z t d (ground arith)
  ]
]

pub written_same :
    (column : Text → Option Text) (old t : Text) → written column (some old) old ≡ ok t → t ≡ old
unfolding written
written_same column old t h = ground (arith, text_eq_self old)

is_collateral-row :
    (wallet : Text) (pool_id : Option ℕ) (c row : Collateral)
    → row.wallet_address ≡ c.wallet_address
    → row.pool_id ≡ c.pool_id
    → is_collateral wallet pool_id c ≡ true
    → is_collateral wallet pool_id row ≡ true
is_collateral-row wallet none c row w p h = ground arith
is_collateral-row wallet (some k) c row w p h = ground arith

-- The row that the query finds after a save.
pub record Saved (column : Text → Option Text) (wallet : Text) (pool_id : Option ℕ)
    (loaded : Option Collateral) (c : Collateral) (s s' : Vault) : Type 0 where
  pub row : Collateral
  pub found : find_collateral wallet pool_id s' ≡ some row
  pub locked :
      written column (Option.map (λ o. o.locked_amount) loaded) c.locked_amount
      ≡ ok row.locked_amount
  pub slashed :
      written column (Option.map (λ o. o.slashed_amount) loaded) c.slashed_amount
      ≡ ok row.slashed_amount
  pub available :
      written column (Option.map (λ o. o.available_balance) loaded) c.available_balance
      ≡ ok row.available_balance
  pub sent_kept : s'.sent ≡ s.sent

pub save_collateral-Saved :
    (column : Text → Option Text) (wallet : Text) (pool_id : Option ℕ) (loaded : Option Collateral)
    (c : Collateral) (s s' : Vault)
    → find_collateral wallet pool_id s ≡ loaded
    → ((o : Collateral) → loaded ≡ some o → o.id ≡ c.id)
    → is_collateral wallet pool_id c ≡ true
    → save_collateral column loaded c s ≡ (ok tt, s')
    → Saved column wallet pool_id loaded c s s'
unfolding save_collateral
save_collateral-Saved column wallet pool_id none c s s' f k m h =
    elim (result_cases (written column none c.locked_amount)) [
      | inr (e, l) ↦ absurd (ground arith)
      | inl (t, l) ↦ elim (result_cases (written column none c.slashed_amount)) [
        | inr (e, d) ↦ absurd (ground arith)
        | inl (u, d) ↦ elim (result_cases (written column none c.available_balance)) [
          | inr (e, a) ↦ absurd (ground arith)
          | inl (v, a) ↦
              let row : Collateral = record c {
                id = s.next_id;
                locked_amount = t;
                slashed_amount = u;
                available_balance = v;
              } in
              let same : is_collateral wallet pool_id row ≡ true =
                is_collateral-row wallet pool_id c row refl refl m in
              let last =
                find_one-append_none (is_collateral wallet pool_id) row s.collaterals f same in
              record {
                row = row;
                found = ground arith;
                locked = l;
                slashed = d;
                available = a;
                sent_kept = ground arith;
              }
        ]
      ]
    ]
save_collateral-Saved column wallet pool_id (some old) c s s' f k m h =
    elim (result_cases (written column (some old.locked_amount) c.locked_amount)) [
      | inr (e, l) ↦ absurd (ground arith)
      | inl (t, l) ↦
          elim (result_cases (written column (some old.slashed_amount) c.slashed_amount)) [
            | inr (e, d) ↦ absurd (ground arith)
            | inl (u, d) ↦
                elim (result_cases
                  (written column (some old.available_balance) c.available_balance)) [
                    | inr (e, a) ↦ absurd (ground arith)
                    | inl (v, a) ↦
                        let row : Collateral = record c {
                          locked_amount = t;
                          slashed_amount = u;
                          available_balance = v;
                        } in
                        let same : is_collateral wallet pool_id row ≡ true =
                          is_collateral-row wallet pool_id c row refl refl m in
                        let updated =
                          find_one-update_passes collateral_key (is_collateral wallet pool_id) row
                            old s.collaterals same f (k old refl) in
                        record {
                          row = row;
                          found = ground arith;
                          locked = l;
                          slashed = d;
                          available = a;
                          sent_kept = ground arith;
                        }
                  ]
          ]
    ]
