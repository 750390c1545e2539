-- ===== src/Collateral/Slash.antt =====
-- What `lock`, `confirmTokenDeposit` and `slash` do to the amounts of a wallet.
use diaspora_equb_product.Common.{
  written, IsDecimalColumn, ℕ, ◌≡◌, refl, sym, ◌∙◌, ap, subst, true, Option, none, some, [], Text,
  codes, arith, or_else, text_eq_self, ok, outcome_cases, Option-cases, inl, inr, find_one_passes,
  ℤ, pos, ◌+ℤ◌, ◌-ℤ◌, ◌≤ℤ◌, print_ℤ, +ℤ_parts, -ℤ_parts, eq_of_parts,
}
use diaspora_equb_product.Collateral.Store.{
  Collateral, Vault, is_collateral, find_collateral, save_collateral,
}
use diaspora_equb_product.Collateral.{parse_amount, new_collateral, lock, actual_slash, slash}
use diaspora_equb_product.Collateral.Amounts.{
  parse_amount-written, parse_amount-print_ℤ, written_same, save_collateral-Saved,
}

-- The locked, slashed and available amount of a row; a wallet without a row has none.
abbrev pub Standing : Option Collateral → ℤ → ℤ → ℤ → Type 0
Standing none l d v = (l ≡ pos 0) × (d ≡ pos 0) × (v ≡ pos 0)
Standing (some c) l d v =
    (parse_amount c.locked_amount ≡ ok l)
    × (parse_amount c.slashed_amount ≡ ok d)
    × (parse_amount c.available_balance ≡ ok v)

-- An amount text that a row keeps, or the one of a new row, is read as before.
pub kept_amount :
    (column : Text → Option Text) (old t : Text) (z : ℤ)
    → parse_amount old ≡ ok z
    → written column (some old) old ≡ ok t
    → parse_amount t ≡ ok z
kept_amount column old t z h w = rw (written_same column old t w) h

zero_text : print_ℤ (pos 0) ≡ codes "0"
unfolding print_ℤ
zero_text = refl

pub new_amount :
    (column : Text → Option Text) (t : Text)
    → IsDecimalColumn column
    → written column none (codes "0") ≡ ok t
    → parse_amount t ≡ ok (pos 0)
new_amount column t d w =
    parse_amount-written column none (pos 0) t d (ap (written column none) zero_text ∙ w)

parse_amount_zero : parse_amount (codes "0") ≡ ok (pos 0)
parse_amount_zero =
    subst (λ t. parse_amount t ≡ ok (pos 0)) zero_text (parse_amount-print_ℤ (pos 0) []).0

pub same_passes :
    (wallet : Text) (pool_id : Option ℕ) (s : Vault) (c : Collateral)
    → find_collateral wallet pool_id s ≡ some c
    → (t u v : Text)
    → is_collateral wallet pool_id
        (record c { locked_amount = t; slashed_amount = u; available_balance = v })
      ≡ true
same_passes wallet none s c h t u v = find_one_passes (is_collateral wallet none) s.collaterals h
same_passes wallet (some k) s c h t u v =
    find_one_passes (is_collateral wallet (some k)) s.collaterals h

pub created_passes :
    (wallet : Text) (pool_id : Option ℕ) (t : Text)
    → is_collateral wallet pool_id (record (new_collateral wallet pool_id) { locked_amount = t })
      ≡ true
unfolding new_collateral
created_passes wallet none t = text_eq_self wallet
created_passes wallet (some p) t = ground (arith, text_eq_self wallet)

-- Adding `a` to what is locked, and saving.
pub add_locked :
    (column : Text → Option Text) (wallet : Text) (pool_id : Option ℕ) (loaded : Option Collateral)
    (s s' : Vault) (l d v a : ℤ)
    → IsDecimalColumn column
    → find_collateral wallet pool_id s ≡ loaded
    → Standing loaded l d v
    → save_collateral column loaded
        (record (or_else loaded (new_collateral wallet pool_id)) {
          locked_amount = print_ℤ (l +ℤ a);
        })
        s
      ≡ (ok tt, s')
    → Standing (find_collateral wallet pool_id s') (l +ℤ a) d v × (s'.sent ≡ s.sent)
unfolding new_collateral
add_locked column wallet pool_id none s s' l d v a dec f (l0, d0, v0) h =
    let saved =
      save_collateral-Saved column wallet pool_id none _ s s' f (λ o e. absurd (ground arith))
        (created_passes wallet pool_id _) h in
    (
      subst (λ r. Standing r (l +ℤ a) d v) (sym saved.found)
          (
            parse_amount-written column none (l +ℤ a) _ dec saved.locked,
            rw d0 (new_amount column _ dec saved.slashed),
            rw v0 (new_amount column _ dec saved.available),
          ),
      saved.sent_kept,
    )
add_locked column wallet pool_id (some c) s s' l d v a dec f (p, q, r) h =
    let saved =
      save_collateral-Saved column wallet pool_id (some c) _ s s' f (λ o e. ground arith)
        (same_passes wallet pool_id s c f _ _ _) h in
    (
      subst (λ x. Standing x (l +ℤ a) d v) (sym saved.found)
          (
            parse_amount-written column (some c.locked_amount) (l +ℤ a) _ dec saved.locked,
            kept_amount column c.slashed_amount _ d q saved.slashed,
            kept_amount column c.available_balance _ v r saved.available,
          ),
      saved.sent_kept,
    )

read_locked :
    (wallet : Text) (pool_id : Option ℕ) (loaded : Option Collateral) (l d v : ℤ)
    → Standing loaded l d v
    → parse_amount (or_else loaded (new_collateral wallet pool_id)).locked_amount ≡ ok l
unfolding new_collateral
read_locked wallet pool_id none l d v (l0, _, _) = rw l0 parse_amount_zero
read_locked wallet pool_id (some c) l d v h = h.0

-- Where the columns keep integers, a successful `lock` adds the amount to what the wallet has
-- locked for the pool, keeps what is slashed and available, answers with the sum and sends
-- nothing.
pub lock-Standing :
    (column : Text → Option Text) (wallet amount : Text) (pool_id : Option ℕ) (s : Vault)
    (l d v a : ℤ) {t : Text} {s' : Vault}
    → IsDecimalColumn column
    → Standing (find_collateral wallet pool_id s) l d v
    → parse_amount amount ≡ ok a
    → lock column wallet amount pool_id s ≡ (ok t, s')
    → Standing (find_collateral wallet pool_id s') (l +ℤ a) d v
      × (s'.sent ≡ s.sent)
      × (t ≡ print_ℤ (l +ℤ a))
unfolding lock
lock-Standing column wallet amount pool_id s l d v a {t} {s'} dec st p h =
    let r = read_locked wallet pool_id _ l d v st in
    let loaded = find_collateral wallet pool_id s in
    elim (outcome_cases (
      save_collateral column loaded
        (record (or_else loaded (new_collateral wallet pool_id)) {
          locked_amount = print_ℤ (l +ℤ a);
        })
        s)) [
          | inr (e, u, k) ↦ absurd (ground arith)
          | inl (tt, u, k) ↦
              let (st', sent) = add_locked column wallet pool_id _ s u l d v a dec refl st k in
              let same : u ≡ s' = ground arith in
              (
                subst (λ x. Standing (find_collateral wallet pool_id x) (l +ℤ a) d v) same st',
                ground arith,
                ground arith,
              )
        ]

-- `slash` moves `k`, the amount asked for but at most what is locked, from the locked to the slashed
-- amount of the row, and answers with `k` and what is left.
pub slash-Standing :
    (column : Text → Option Text) (wallet amount : Text) (pool_id : Option ℕ) (s : Vault)
    (l d v a : ℤ) {t u : Text} {s' : Vault}
    → IsDecimalColumn column
    → Standing (find_collateral wallet pool_id s) l d v
    → parse_amount amount ≡ ok a
    → slash column wallet amount pool_id s ≡ (ok (t, u), s')
    → let k = actual_slash l a in
      Standing (find_collateral wallet pool_id s') (l -ℤ k) (d +ℤ k) v
      × (t ≡ print_ℤ k)
      × (u ≡ print_ℤ (l -ℤ k))
unfolding slash
slash-Standing column wallet amount pool_id s l d v a {t} {u} {s'} dec st p h =
    elim (Option-cases (find_collateral wallet pool_id s)) [
      | inl f ↦ absurd (ground arith)
      | inr (c, f) ↦
          let (pl, pd, pv) = subst (λ x. Standing x l d v) f st in
          let k = actual_slash l a in
          let c' : Collateral = record c {
            locked_amount = print_ℤ (l -ℤ k);
            slashed_amount = print_ℤ (d +ℤ k);
          } in
          elim (outcome_cases (save_collateral column (some c) c' s)) [
            | inr (e, w, q) ↦ absurd (ground arith)
            | inl (tt, w, q) ↦
                let saved =
                  save_collateral-Saved column wallet pool_id (some c) c' s w f
                    (λ o e. ground arith) (same_passes wallet pool_id s c f _ _ _) q in
                let same : w ≡ s' = ground arith in
                (
                  subst (λ x. Standing (find_collateral wallet pool_id x) (l -ℤ k) (d +ℤ k) v) same
                      (subst (λ x. Standing x (l -ℤ k) (d +ℤ k) v) (sym saved.found)
                        (
                          parse_amount-written column (some c.locked_amount) (l -ℤ k) _ dec
                              saved.locked,
                          parse_amount-written column (some c.slashed_amount) (d +ℤ k) _ dec
                              saved.slashed,
                          kept_amount column c.available_balance _ v pv saved.available,
                        )),
                  ground arith,
                  ground arith,
                )
          ]
    ]

moved : (l d k : ℤ) → (l -ℤ k) +ℤ (d +ℤ k) ≡ l +ℤ d
moved l d k =
    eq_of_parts _ _
      (ground (arith, +ℤ_parts (l -ℤ k) (d +ℤ k), -ℤ_parts l k, +ℤ_parts d k, +ℤ_parts l d))

left_of_slash : (l a : ℤ) → pos 0 ≤ℤ l → pos 0 ≤ℤ (l -ℤ actual_slash l a)
left_of_slash l a h = ground (arith, -ℤ_parts l a, -ℤ_parts l l)

all_of_slash : (l a : ℤ) → pos 0 ≤ℤ l → actual_slash (l +ℤ a) a ≡ a
all_of_slash l a h = ground (arith, +ℤ_parts l a)

added_back : (l a : ℤ) → (l +ℤ a) -ℤ a ≡ l
added_back l a = eq_of_parts _ _ (ground (arith, -ℤ_parts (l +ℤ a) a, +ℤ_parts l a))

-- Where the columns keep integers, a successful `slash` keeps the sum of the locked and the
-- slashed amount and the available one, and leaves what is locked non-negative where it was.
pub slash_conserves :
    (column : Text → Option Text) (wallet amount : Text) (pool_id : Option ℕ) (s : Vault)
    (l d v a : ℤ) {answer : Text × Text} {s' : Vault}
    → IsDecimalColumn column
    → Standing (find_collateral wallet pool_id s) l d v
    → parse_amount amount ≡ ok a
    → slash column wallet amount pool_id s ≡ (ok answer, s')
    → (l' : ℤ) × (d' : ℤ) × Standing (find_collateral wallet pool_id s') l' d' v
      × (l' +ℤ d' ≡ l +ℤ d)
      × (pos 0 ≤ℤ l → pos 0 ≤ℤ l')
slash_conserves column wallet amount pool_id s l d v a {answer} dec st p h =
    let (st', _, _) = slash-Standing column wallet amount pool_id s l d v a dec st p h in
    (_, _, st', moved l d (actual_slash l a), left_of_slash l a)

-- Where the columns keep integers and nothing negative is locked, an amount that is locked and
-- then slashed leaves the locked amount as it was and is added to the slashed one.
pub lock-slash :
    (column : Text → Option Text) (wallet amount : Text) (pool_id : Option ℕ) (s : Vault)
    (l d v a : ℤ) {t : Text} {answer : Text × Text} {s' s'' : Vault}
    → IsDecimalColumn column
    → Standing (find_collateral wallet pool_id s) l d v
    → parse_amount amount ≡ ok a
    → pos 0 ≤ℤ l
    → lock column wallet amount pool_id s ≡ (ok t, s')
    → slash column wallet amount pool_id s' ≡ (ok answer, s'')
    → Standing (find_collateral wallet pool_id s'') l (d +ℤ a) v
lock-slash column wallet amount pool_id s l d v a {answer = answer} {s' = s'} {s'' = s''} dec st p z
      h k =
    let (st', _, _) = lock-Standing column wallet amount pool_id s l d v a dec st p h in
    let (st'', _, _) = slash-Standing column wallet amount pool_id s' (l +ℤ a) d v a dec st' p k in
    subst (λ k. Standing (find_collateral wallet pool_id s'') k (d +ℤ a) v) (added_back l a)
      (subst (λ k. Standing (find_collateral wallet pool_id s'') ((l +ℤ a) -ℤ k) (d +ℤ k) v)
        (all_of_slash l a z) st'')
