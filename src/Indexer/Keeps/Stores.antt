-- ===== src/Indexer/Keeps/Stores.antt =====
-- The writes of the indexer's handlers on the pools and the members.
use diaspora_equb_product.Common.{
  ◌+◌, ◌≡◌, refl, ◌∷◌, ◌++◌, [], arith, some, opt_eq, ◌==◌, text_eq, ◌&&◌, find_one, Option-cases,
  Bool-cases, inl, inr, any, has_id, append-IsKeyed, update_row-IsKeyed, find_one-append_some,
  find_one-update_some, find_one_passes, IsKeyed-mono, sym, subst, ◌∙◌, outcome_cases, ℕ,
}
use diaspora_equb_product.Pools.Entities.{
  Pool, PoolMember, Db, pool_key, EqubRulesEntity, EqubRules,
}
use diaspora_equb_product.Pools.Store.{
  find_pool, insert_pool, update_pool, save_pool, insert_member, save_rules, find_rules,
}
use diaspora_equb_product.Rules.{upsert_rules_from_chain, show_rules, with_rules}
use diaspora_equb_product.Indexer.Keeps.{
  Keeps, Keeps-refl, Keeps-trans, Keeps-of_same, Kept-of_pools,
}

pub insert_pool-Keeps : (p : Pool) (db : Db) → Keeps db (insert_pool p db).1
insert_pool-Keeps p db c =
    let new : Pool = record p { id = db.next_id } in
    Kept-of_pools db (insert_pool p db).1 refl refl refl (omega arith)
      (append-IsKeyed pool_key db.next_id new db.pools c.issued refl c.pools_keyed)
      (λ id q h. (q, find_one-append_some (λ x. opt_eq x.on_chain_pool_id id) new db.pools h, refl))
      (λ id who m h. h) c

-- A pool that is stored again under its number on the chain.
pub save_pool-Keeps :
    (id : ℕ) (p q : Pool) (db : Db)
    → find_one (has_id pool_key id) db.pools ≡ some p
    → q.id ≡ id
    → q.on_chain_pool_id ≡ p.on_chain_pool_id
    → Keeps db (save_pool q db).1
save_pool-Keeps id p q db f i e c =
    Kept-of_pools db (save_pool q db).1 refl refl refl (omega arith)
      (update_row-IsKeyed pool_key db.next_id q db.pools c.pools_keyed)
      (λ on_chain x h.
        elim (find_one-update_some pool_key (λ y. opt_eq y.on_chain_pool_id on_chain) q p db.pools
          (ground (arith, f, i)) (ground (arith, e)) h) [
            | inl found ↦ (x, found, refl)
            | inr (found, same) ↦ (q, found, same)
          ])
      (λ pool who m h. h) c

-- A step that ends in a state that is known.
pub Keeps-of_equal : (db db' after : Db) → db' ≡ after → Keeps db after → Keeps db db'
Keeps-of_equal db db' after e k = subst (Keeps db) (sym e) k

pub insert_member-Keeps : (m : PoolMember) (db : Db) → Keeps db (insert_member m db).1
insert_member-Keeps m db =
    elim (Bool-cases
      (any (λ x. x.pool_id == m.pool_id && text_eq x.wallet_address m.wallet_address) db.members)) [
        | inl e ↦ Keeps-of_equal db (insert_member m db).1 db (ground arith) (Keeps-refl db)
        | inr e ↦
            let new : PoolMember = record m { id = db.next_id } in
            let after : Db = record db {
              members = db.members ++ new ∷ [];
              next_id = db.next_id + 1;
            } in
            Keeps-of_equal db (insert_member m db).1 after (ground arith) (λ c.
              Kept-of_pools db after refl refl refl (omega arith)
                (IsKeyed-mono pool_key _ _ db.pools (omega arith) c.pools_keyed)
                (λ id p h. (p, h, refl))
                (λ id who x h.
                  find_one-append_some (λ y. y.pool_id == id && text_eq y.wallet_address who) new
                    db.members h)
                c)
      ]

pub update_pool-Keeps :
    (id : ℕ) (f : Pool → Pool) (db : Db)
    → ((p : Pool) → (f p).id ≡ p.id)
    → ((p : Pool) → (f p).on_chain_pool_id ≡ p.on_chain_pool_id)
    → Keeps db (update_pool id f db).1
update_pool-Keeps id f db i e = elim (Option-cases (find_pool id db)) [
  | inl h ↦ Keeps-of_equal db (update_pool id f db).1 db (ground arith) (Keeps-refl db)
  | inr (p, h) ↦
      let same : p.id ≡ id = ground (arith, find_one_passes (λ x. x.id == id) db.pools {a = p}) in
      Keeps-of_equal db (update_pool id f db).1 (save_pool (f p) db).1 (ground arith)
        (save_pool-Keeps id p (f p) db h (i p ∙ same) (e p))
]

save_rules-Keeps : (r : EqubRulesEntity) (db : Db) → Keeps db (save_rules r db).1
save_rules-Keeps r db =
    Keeps-of_same db (save_rules r db).1 (ground arith) (ground arith) (ground arith) (ground arith)
      (ground arith) (ground arith)

pub upsert_rules-Keeps :
    (id : ℕ) (rules : EqubRules) (db : Db) → Keeps db (upsert_rules_from_chain id rules db).1
unfolding upsert_rules_from_chain
upsert_rules-Keeps id rules db =
    let row = with_rules (find_rules id db) id rules in
    let start = save_rules-Keeps row db in
    let mid = (save_rules row db).1 in
    elim (outcome_cases (save_rules row db)) [
      | inr (x, t, h) ↦
          Keeps-of_equal db (upsert_rules_from_chain id rules db).1 mid (ground arith) start
      | inl (r, t, h) ↦
          Keeps-of_equal db (upsert_rules_from_chain id rules db).1
            (update_pool id (show_rules rules) mid).1 (ground arith)
            (Keeps-trans db mid (update_pool id (show_rules rules) mid).1 start
              (update_pool-Keeps id (show_rules rules) mid (λ p. refl) (λ p. refl)))
    ]
