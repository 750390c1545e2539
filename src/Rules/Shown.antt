-- ===== src/Rules/Shown.antt =====
-- What `getRules` shows of rules that are stored.
use diaspora_equb_product.Common.{
  ℕ, ◌≡◌, refl, sym, ◌∙◌, ap, Bool, true, false, Option, some, arith, ◌==◌, ==_self, if◌then◌else◌,
  ok, find_one, find_one_passes, find_one-append_none, find_one-update_passes, any-find_one,
  any-find_one-none, Option-cases, Bool-cases, inl, inr,
}
use diaspora_equb_product.Pools.Entities.{Pool, EqubRules, EqubRulesEntity, Db, rules_key, pool_key}
use diaspora_equb_product.Pools.Store.{find_pool, update_pool, find_rules, save_rules}
use diaspora_equb_product.Rules.{RulesSource, RawRules, with_rules, get_rules}

-- The rules that a pool has: `get_rules` shows them whatever the chain answers.
pub record Has (pool_id : ℕ) (rules : EqubRules) (db : Db) : Type 0 where
  pub row : EqubRulesEntity
  pub found : find_rules pool_id db ≡ some row
  pub same : row.rules ≡ rules

pub update_pool_rules :
    (pool_id : ℕ) (f : Pool → Pool) (db : Db) → ((update_pool pool_id f db).1).rules ≡ db.rules
update_pool_rules pool_id f db = ground arith

-- Saving the rules of the pool's row, or of a new one.
pub save_with_rules-Has :
    (pool_id : ℕ) (rules : EqubRules) (db : Db) {saved : EqubRulesEntity} {db' : Db}
    → save_rules (with_rules (find_rules pool_id db) pool_id rules) db ≡ (ok saved, db')
    → Has pool_id rules db'
unfolding with_rules
save_with_rules-Has pool_id rules db {saved} h = elim (Option-cases (find_rules pool_id db)) [
  | inl e ↦
      let row : EqubRulesEntity = record { id = db.next_id; pool_id = pool_id; rules = rules } in
      let last =
        find_one-append_none (λ r. r.pool_id == pool_id) row db.rules e (==_self pool_id) in
      record {
        row = row;
        found = ground (arith, any-find_one-none (λ r. r.pool_id == pool_id) db.rules e);
        same = refl;
      }
  | inr (r, e) ↦
      let of_pool = find_one_passes (λ x. x.pool_id == pool_id) db.rules e in
      let row : EqubRulesEntity = record r { rules = rules } in
      let updated =
        find_one-update_passes rules_key (λ x. x.pool_id == pool_id) row r db.rules of_pool e
          refl in
      elim (Bool-cases (r.id == 0)) [
        | inl z ↦ absurd (ground (arith, any-find_one (λ x. x.pool_id == pool_id) db.rules e))
        | inr z ↦ record { row = row; found = ground arith; same = refl }
      ]
]

-- What the pool's row says is shown.
get_rules-Has :
    (read : ℕ → Option RawRules) (pool_id : ℕ) (rules : EqubRules) (db : Db) (pool : Pool)
    → find_pool pool_id db ≡ some pool
    → Has pool_id rules db
    → get_rules read pool_id db ≡ (ok (rules, RulesSource.db_source), db)
unfolding get_rules
get_rules-Has read pool_id rules db pool f h =
    let found = h.found in let same = h.same in ground arith

-- Writing the type and the frequency of the pool keeps its rules.
update_pool-Has :
    (pool_id : ℕ) (rules : EqubRules) (f : Pool → Pool) (db : Db) (pool : Pool)
    → find_pool pool_id db ≡ some pool
    → ((p : Pool) → (f p).id ≡ p.id)
    → Has pool_id rules db
    → let db' = (update_pool pool_id f db).1 in
      Has pool_id rules db' × (find_pool pool_id db' ≡ some (f pool))
update_pool-Has pool_id rules f db pool e k h =
    let passes = find_one_passes (λ p. p.id == pool_id) db.pools e in
    let same_id = k pool in
    let updated =
      find_one-update_passes pool_key (λ p. p.id == pool_id) (f pool) pool db.pools (ground arith) e
        (sym same_id) in
    (
      record { row = h.row; found = let found = h.found in ground arith; same = h.same },
      ground arith,
    )

save_rules_pools :
    (r : EqubRulesEntity) (db : Db) {saved : EqubRulesEntity} {db' : Db}
    → save_rules r db ≡ (ok saved, db')
    → db'.pools ≡ db.pools
save_rules_pools r db h = ground arith

-- The rules are stored, then the pool is written or not.
pub stored-shown :
    (read : ℕ → Option RawRules) (pool_id : ℕ) (rules : EqubRules) (f : Pool → Pool) (writes : Bool)
    (db : Db) (pool : Pool) {saved : EqubRulesEntity} {db' : Db}
    → find_pool pool_id db ≡ some pool
    → ((p : Pool) → (f p).id ≡ p.id)
    → save_rules (with_rules (find_rules pool_id db) pool_id rules) db ≡ (ok saved, db')
    → let db'' = if writes then (update_pool pool_id f db').1 else db' in
      get_rules read pool_id db'' ≡ (ok (rules, RulesSource.db_source), db'')
stored-shown read pool_id rules f true db pool {db' = db'} e k h =
    let kept = ap (find_one (λ p. p.id == pool_id)) (save_rules_pools _ db h) ∙ e in
    let (has, found) =
      update_pool-Has pool_id rules f db' pool kept k (save_with_rules-Has pool_id rules db h) in
    get_rules-Has read pool_id rules _ (f pool) found has
stored-shown read pool_id rules f false db pool {db' = db'} e k h =
    get_rules-Has read pool_id rules db' pool
      (ap (find_one (λ p. p.id == pool_id)) (save_rules_pools _ db h) ∙ e)
      (save_with_rules-Has pool_id rules db h)
