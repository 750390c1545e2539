-- ===== src/Pools/Membership/Closing.antt =====
-- The members whom the legacy `closeRound` reports as contributors and as defaulters.
use diaspora_equb_product.Common.{
  ℕ, ◌+◌, ◌≡◌, refl, sym, subst, ap, Bool, true, ◌&&◌, List, [], ◌∷◌, ◌++◌, map, Text, arith, ok,
  any, filter_by, In, In-filter_by, text_eq, text_eq→eq, text_eq_self, ◌==◌, Bool-cases, inl, inr,
  outcome_cases, Option-cases,
}
use mathlib.Core.List.{Perm}
use diaspora_equb_product.Pools.Entities.{Pool, Contribution, Db}
use diaspora_equb_product.Pools.Store.{find_pool}
use diaspora_equb_product.Pools.Season.{ensure_season_state, assert_season_active}
use diaspora_equb_product.Pools.Winner.{pool_members}
use diaspora_equb_product.Pools.Membership.{
  has_contributed, split_members, CloseRoundResponse, close_round,
}
use diaspora_equb_product.Pools.Membership.Rounds.{split_members-perm, split_members_sound}

module _ {A : Type 0} (p : A → Bool) where
  any-In : (xs : List A) → any p xs ≡ true → (a : A) × In a xs × (p a ≡ true)
  any-In [] h = absurd (ground arith)
  any-In (x ∷ xs) h = elim (Bool-cases (p x)) [
    | inl e ↦ (x, inl refl, e)
    | inr e ↦ let (a, i, q) = any-In xs (ground arith) in (a, inr i, q)
  ]

  In-any : (xs : List A) (a : A) → In a xs → p a ≡ true → any p xs ≡ true
  In-any [] a i h = absurd i.1
  In-any (x ∷ xs) a (inl same) h =
      let first : p x ≡ true = subst (λ y. p y ≡ true) same h in ground arith
  In-any (x ∷ xs) a (inr i) h = ground (arith, In-any xs a i h)

  In_of_kept : (xs : List A) (a : A) → In a xs → p a ≡ true → In a (filter_by p xs)
  In_of_kept [] a i h = absurd i.1
  In_of_kept (x ∷ xs) a (inl same) h =
      let first : p x ≡ true = subst (λ y. p y ≡ true) same h in rw first (inl same)
  In_of_kept (x ∷ xs) a (inr i) h = elim (Bool-cases (p x)) [
    | inl e ↦ rw e (inr (In_of_kept xs a i h))
    | inr e ↦ rw e (In_of_kept xs a i h)
  ]

-- A row says that the wallet contributed to this round of the pool.
pub record HasPaid (pool_id round : ℕ) (w : Text) (rows : List Contribution) : Type 0 where
  pub row : Contribution
  pub stored : In row rows
  pub to_pool : row.pool_id ≡ pool_id
  pub in_round : row.round ≡ round
  pub by_wallet : row.wallet_address ≡ w

has_contributed-HasPaid :
    (rows : List Contribution) (pool_id round : ℕ) (w : Text)
    → has_contributed rows pool_id round w ≡ true
    → HasPaid pool_id round w rows
unfolding has_contributed
has_contributed-HasPaid rows pool_id round w h =
    let (c, i, same) = any-In (λ (c : Contribution). text_eq c.wallet_address w) _ h in
    let (stored, q) =
      In-filter_by (λ (c : Contribution). c.pool_id == pool_id && c.round == round) rows i in
    record {
      row = c;
      stored = stored;
      to_pool = ground arith;
      in_round = ground arith;
      by_wallet = text_eq→eq c.wallet_address w same;
    }

HasPaid-has_contributed :
    (rows : List Contribution) (pool_id round : ℕ) (w : Text)
    → HasPaid pool_id round w rows
    → has_contributed rows pool_id round w ≡ true
unfolding has_contributed
HasPaid-has_contributed rows pool_id round w h =
    let p = h.to_pool in
    let r = h.in_round in
    let self : text_eq (h.row).wallet_address w ≡ true =
      subst (λ x. text_eq (h.row).wallet_address x ≡ true) h.by_wallet
        (text_eq_self (h.row).wallet_address) in
    In-any (λ (c : Contribution). text_eq c.wallet_address w) _ h.row
      (In_of_kept (λ (c : Contribution). c.pool_id == pool_id && c.round == round) rows h.row
        h.stored (ground arith))
      self

-- A contributor has contributed to the round, a defaulter has not, and together they are the
-- pool's members, each once.
pub record IsSettled (pool_id round : ℕ) (db : Db) (resp : CloseRoundResponse) : Type 0 where
  pub paid : (w : Text) → In w resp.contributors → HasPaid pool_id round w db.contributions
  pub unpaid : (w : Text) → In w resp.defaulters → ¬ HasPaid pool_id round w db.contributions
  pub everyone :
      Perm
        (resp.contributors ++ resp.defaulters)
        (map (λ m. m.wallet_address) (pool_members pool_id db.members))
  pub next : resp.next_round ≡ round + 1

ensure_season_state_members :
    (now : ℕ) (pool : Pool) (db : Db)
    → let db' = (ensure_season_state now pool db).1 in
      (db'.members ≡ db.members) × (db'.contributions ≡ db.contributions)
unfolding ensure_season_state
ensure_season_state_members now pool db = (ground arith, ground arith)

split-IsSettled :
    (pool_id round : ℕ) (db : Db) (resp : CloseRoundResponse)
    → (resp.contributors, resp.defaulters)
      ≡ split_members
          (has_contributed db.contributions pool_id round)
          (pool_members pool_id db.members)
    → resp.next_round ≡ round + 1
    → IsSettled pool_id round db resp
split-IsSettled pool_id round db resp h n =
    let contributed = has_contributed db.contributions pool_id round in
    let ms = pool_members pool_id db.members in
    let contributors = ap (λ (x : List Text × List Text). x.0) h in
    let defaulters = ap (λ (x : List Text × List Text). x.1) h in
    record {
      paid = λ w i.
          has_contributed-HasPaid db.contributions pool_id round w
            ((split_members_sound contributed ms w).0 (subst (λ ws. In w ws) contributors i));
      unpaid = λ w i paid.
          let left =
            (split_members_sound contributed ms w).1 (subst (λ ws. In w ws) defaulters i) in
          let found = HasPaid-has_contributed db.contributions pool_id round w paid in
          absurd (ground arith);
      everyone =
          subst (λ (x : List Text × List Text). Perm (x.0 ++ x.1) (map (λ m. m.wallet_address) ms))
            (sym h) (split_members-perm contributed ms);
      next = n;
    }

-- A closed round of a pool, by `closeRound`: the members reported as contributors have a
-- contribution row for this pool and round, those reported as defaulters have none, together they
-- are the members of the pool, each once, and the next round is the one after.
pub close_round-IsSettled :
    (now pool_id round : ℕ) (db : Db) {resp : CloseRoundResponse} {db' : Db}
    → close_round now pool_id round db ≡ (ok resp, db')
    → IsSettled pool_id round db resp
unfolding close_round assert_season_active
close_round-IsSettled now pool_id round db {resp} h = elim (Option-cases (find_pool pool_id db)) [
  | inl e ↦ absurd (ground arith)
  | inr (pool, e) ↦
      let (members, contributions) = ensure_season_state_members now pool db in
      elim (outcome_cases (ensure_season_state now pool db)) [
        | inr (f, t, a) ↦ absurd (ground arith)
        | inl ((season, synced), t, a) ↦
            let rows : t.contributions ≡ db.contributions = ground arith in
            let same : t.members ≡ db.members = ground arith in
            let split : (resp.contributors, resp.defaulters)
                ≡ split_members (has_contributed t.contributions pool_id round)
                    (pool_members pool_id t.members) =
              ground arith in
            let moved : (resp.contributors, resp.defaulters)
                ≡ split_members (has_contributed db.contributions pool_id round)
                    (pool_members pool_id db.members) =
              ground arith in
            split-IsSettled pool_id round db resp moved (ground arith)
      ]
]
