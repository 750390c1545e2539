-- ===== src/Rules/Updates.antt =====
-- `setRules` and `updateRules`, as `getRules` shows them.
use diaspora_equb_product.Common.{
  ℕ, ◌≡◌, refl, sym, ◌∙◌, ap, subst, true, Option, none, Text, arith, ◌==◌, if◌then◌else◌, or_else,
  ok, err, Fault, find_one, find_one_passes, outcome_cases, Option-cases, inl, inr,
}
use diaspora_equb_product.Pools.Entities.{Pool, EqubRules, EqubRulesEntity, Db}
use diaspora_equb_product.Pools.Store.{find_pool, update_pool, find_rules, save_rules}
use diaspora_equb_product.Rules.{
  RulesSource, RawRules, fetch_rules_from_chain, with_rules, show_rules, upsert_rules_from_chain,
  fetch_missing, get_rules, CreateEqubRulesDto, created_rules, set_rules, patched_rules, patch_pool,
  stored_rules, gives, update_rules,
}
use diaspora_equb_product.Rules.Shown.{Has, update_pool_rules, save_with_rules-Has, stored-shown}

-- Rules that were set are shown, whatever the chain answers, and showing them writes nothing.
pub set_rules-get_rules :
    (read : ℕ → Option RawRules) (pool_id : ℕ) (dto : CreateEqubRulesDto) (wallet : Text) (db : Db)
    {r : EqubRulesEntity} {db' : Db}
    → set_rules pool_id dto wallet db ≡ (ok r, db')
    → get_rules read pool_id db' ≡ (ok (created_rules dto, RulesSource.db_source), db')
unfolding set_rules
set_rules-get_rules read pool_id dto wallet db {db' = db'} h =
    elim (Option-cases (find_pool pool_id db)) [
      | inl e ↦ absurd (ground arith)
      | inr (pool, e) ↦
          elim (outcome_cases
            (save_rules (with_rules (find_rules pool_id db) pool_id (created_rules dto)) db)) [
              | inr (x, t, k) ↦ absurd (ground arith)
              | inl (saved, t, k) ↦
                  let shown =
                    stored-shown read pool_id (created_rules dto) (show_rules (created_rules dto))
                      true db pool e (λ p. refl) k in
                  let same : (update_pool pool_id (show_rules (created_rules dto)) t).1 ≡ db' =
                    ground arith in
                  subst
                    (λ s.
                      get_rules read pool_id s ≡ (ok (created_rules dto, RulesSource.db_source), s))
                    same shown
            ]
    ]

Has-stored_rules :
    (pool_id : ℕ) (rules : EqubRules) (db : Db)
    → Has pool_id rules db
    → stored_rules (find_rules pool_id db) ≡ rules
Has-stored_rules pool_id rules db h = let found = h.found in let same = h.same in ground arith

Has-of_rules :
    (pool_id : ℕ) (rules : EqubRules) (db db' : Db)
    → db'.rules ≡ db.rules
    → Has pool_id rules db
    → Has pool_id rules db'
Has-of_rules pool_id rules db db' e h = record {
  row = h.row;
  found = ap (find_one (λ r. r.pool_id == pool_id)) e ∙ h.found;
  same = h.same;
}

upsert-Has :
    (pool_id : ℕ) (rules : EqubRules) (db : Db) {saved : EqubRulesEntity} {db' : Db}
    → upsert_rules_from_chain pool_id rules db ≡ (ok saved, db')
    → Has pool_id rules db' × (saved.rules ≡ rules)
unfolding upsert_rules_from_chain with_rules
upsert-Has pool_id rules db {saved} {db'} h =
    elim (outcome_cases (save_rules (with_rules (find_rules pool_id db) pool_id rules) db)) [
      | inr (x, t, k) ↦ absurd (ground arith)
      | inl (r, t, k) ↦
          let after : db'.rules ≡ t.rules =
            ground (arith, update_pool_rules pool_id (show_rules rules) t) in
          (
            Has-of_rules pool_id rules t db' after (save_with_rules-Has pool_id rules db k),
            ground arith,
          )
    ]

upsert_failed :
    (pool_id : ℕ) (rules : EqubRules) (db : Db) {e : Fault} {db' : Db}
    → upsert_rules_from_chain pool_id rules db ≡ (err e, db')
    → db' ≡ db
unfolding upsert_rules_from_chain with_rules
upsert_failed pool_id rules db h = ground arith

-- What `getRules` fetches where no rules are stored is what the table holds then.
fetched_rules :
    (read : ℕ → Option RawRules) (pool : Pool) (db : Db) {found : Option EqubRulesEntity} {db' : Db}
    → find_rules pool.id db ≡ none
    → fetch_missing read pool db ≡ (ok found, db')
    → stored_rules (find_rules pool.id db') ≡ stored_rules found
unfolding fetch_missing
fetched_rules read pool db {found} {db'} n h = elim (Option-cases pool.on_chain_pool_id) [
  | inl e ↦ ground arith
  | inr (on_chain_id, e) ↦ elim (Option-cases (fetch_rules_from_chain read on_chain_id)) [
    | inl f ↦ ground arith
    | inr (rules, f) ↦ elim (outcome_cases (upsert_rules_from_chain pool.id rules db)) [
      | inr (x, t, k) ↦ let same = upsert_failed pool.id rules db k in ground arith
      | inl (saved, t, k) ↦
          let (has, shown) = upsert-Has pool.id rules db k in
          let after : db'.rules ≡ t.rules =
            ground (arith, update_pool_rules pool.id (show_rules rules) t) in
          let held =
            Has-stored_rules pool.id rules db' (Has-of_rules pool.id rules t db' after has) in
          let given : stored_rules found ≡ saved.rules = ground arith in held ∙ sym (given ∙ shown)
    ]
  ]
]

get_rules_stored :
    (read : ℕ → Option RawRules) (pool_id : ℕ) (db : Db) {old : EqubRules} {from : RulesSource}
    {db' : Db}
    → get_rules read pool_id db ≡ (ok (old, from), db')
    → stored_rules (find_rules pool_id db') ≡ old
unfolding get_rules
get_rules_stored read pool_id db {old} {from} {db'} h = elim (Option-cases (find_pool pool_id db)) [
  | inl e ↦ absurd (ground arith)
  | inr (pool, e) ↦ elim (Option-cases (find_rules pool_id db)) [
    | inr (r, k) ↦ ground arith
    | inl k ↦
        let same_id : pool.id ≡ pool_id =
          ground (arith, find_one_passes (λ (p : Pool). p.id == pool_id) db.pools e) in
        elim (outcome_cases (fetch_missing read pool db)) [
          | inr (x, t, m) ↦ absurd (ground arith)
          | inl (found, t, m) ↦
              let shown = fetched_rules read pool db (ap (λ i. find_rules i db) same_id ∙ k) m in
              let moved : stored_rules (find_rules pool_id t) ≡ stored_rules found =
                subst (λ i. stored_rules (find_rules i t) ≡ stored_rules found) same_id shown in
              ground arith
        ]
  ]
]

-- Each field of the new rules is the one of the request, where it gives it, and the old one where
-- it does not.
pub record IsPatched (dto : RawRules) (old new : EqubRules) : Type 0 where
  pub equb_type : new.equb_type ≡ or_else dto.equb_type old.equb_type
  pub frequency : new.frequency ≡ or_else dto.frequency old.frequency
  pub payout_method : new.payout_method ≡ or_else dto.payout_method old.payout_method
  pub grace_period :
      new.grace_period_seconds ≡ or_else dto.grace_period_seconds old.grace_period_seconds
  pub penalty_severity : new.penalty_severity ≡ or_else dto.penalty_severity old.penalty_severity
  pub round_duration :
      new.round_duration_seconds ≡ or_else dto.round_duration_seconds old.round_duration_seconds
  pub late_fee : new.late_fee_percent ≡ or_else dto.late_fee_percent old.late_fee_percent

patched_rules-IsPatched :
    (dto : RawRules) (old : EqubRules) → IsPatched dto old (patched_rules dto old)
unfolding patched_rules
patched_rules-IsPatched dto old = record {
  equb_type = refl;
  frequency = refl;
  payout_method = refl;
  grace_period = refl;
  penalty_severity = refl;
  round_duration = refl;
  late_fee = refl;
}

patched_shown :
    (read read' : ℕ → Option RawRules) (pool_id : ℕ) (dto : RawRules) (wallet : Text) (db : Db)
    {old : EqubRules} {from : RulesSource} {r : EqubRulesEntity} {db1 db2 : Db}
    → get_rules read pool_id db ≡ (ok (old, from), db1)
    → update_rules pool_id dto wallet db1 ≡ (ok r, db2)
    → get_rules read' pool_id db2 ≡ (ok (patched_rules dto old, RulesSource.db_source), db2)
unfolding update_rules
patched_shown read read' pool_id dto wallet db {old} {db1 = db1} {db2 = db2} g h =
    let was = get_rules_stored read pool_id db g in
    let rules = patched_rules dto (stored_rules (find_rules pool_id db1)) in
    elim (Option-cases (find_pool pool_id db1)) [
      | inl e ↦ absurd (ground arith)
      | inr (pool, e) ↦
          elim (outcome_cases
            (save_rules (with_rules (find_rules pool_id db1) pool_id rules) db1)) [
              | inr (x, t, k) ↦ absurd (ground arith)
              | inl (saved, t, k) ↦
                  let writes = gives dto in
                  let shown =
                    stored-shown read' pool_id rules (patch_pool dto) writes db1 pool e (λ p. refl)
                      k in
                  let same : (if writes then (update_pool pool_id (patch_pool dto) t).1 else t)
                      ≡ db2 =
                    ground arith in
                  let patched = ap (patched_rules dto) was in
                  subst (λ x. get_rules read' pool_id db2 ≡ (ok (x, RulesSource.db_source), db2))
                    patched
                    (subst (λ s. get_rules read' pool_id s ≡ (ok (rules, RulesSource.db_source), s))
                      same shown)
            ]
    ]

-- After a patch that is accepted, `getRules` shows, whatever the chain answers, rules whose every
-- field is the one that the request gives, and where it gives none the one that was shown before;
-- showing them writes nothing.
pub update_rules-get_rules :
    (read read' : ℕ → Option RawRules) (pool_id : ℕ) (dto : RawRules) (wallet : Text) (db : Db)
    {old : EqubRules} {from : RulesSource} {r : EqubRulesEntity} {db1 db2 : Db}
    → get_rules read pool_id db ≡ (ok (old, from), db1)
    → update_rules pool_id dto wallet db1 ≡ (ok r, db2)
    → (new : EqubRules) × (get_rules read' pool_id db2 ≡ (ok (new, RulesSource.db_source), db2))
      × IsPatched dto old new
update_rules-get_rules read read' pool_id dto wallet db {old} g h = (
  patched_rules dto old,
  patched_shown read read' pool_id dto wallet db g h,
  patched_rules-IsPatched dto old,
)
