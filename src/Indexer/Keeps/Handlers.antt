-- ===== src/Indexer/Keeps/Handlers.antt =====
-- The handlers of the events of EqubPool and PayoutStream, against `Kept`.
use diaspora_equb_product.Common.{
  ℕ, ◌+◌, List, [], ◌∷◌, ◌≡◌, refl, arith, some, Option, Text, Option-cases, inl, inr, opt_eq,
  find_one-has_id,
}
use diaspora_equb_product.Pools.Entities.{Pool, PoolStatus, PoolMember, Db, pool_key}
use diaspora_equb_product.Pools.Store.{
  find_on_chain, insert_pool, insert_member, find_member, save_pool,
}
use diaspora_equb_product.Pools.Membership.{new_member}
use diaspora_equb_product.Pools.Winner.{pool_members}
use diaspora_equb_product.Rules.{fetch_rules_from_chain, upsert_rules_from_chain}
use diaspora_equb_product.Indexer.State.{Index, Chain}
use diaspora_equb_product.Indexer.Handlers.{
  normal_hash, created_pool, sync_rules, handle_pool_created, handle_rules_updated,
  handle_joined_pool, notify_members, handle_round_closed, handle_default_triggered,
  handle_stream_created, handle_round_released, handle_stream_frozen,
}
use diaspora_equb_product.Indexer.Keeps.{Keeps, Keeps-refl, Keeps-trans, Keeps-of_same}
use diaspora_equb_product.Indexer.Keeps.Stores.{
  insert_pool-Keeps, save_pool-Keeps, insert_member-Keeps, upsert_rules-Keeps, Keeps-of_equal,
}

sync_rules-Keeps :
    (chain : Chain) (id on_chain_id : ℕ) (db : Db) → Keeps db (sync_rules chain id on_chain_id db).1
unfolding sync_rules
sync_rules-Keeps chain id on_chain_id db =
    elim (Option-cases (fetch_rules_from_chain chain.read_rules on_chain_id)) [
      | inl h ↦
          Keeps-of_equal db (sync_rules chain id on_chain_id db).1 db (ground arith) (Keeps-refl db)
      | inr (rules, h) ↦
          Keeps-of_equal db (sync_rules chain id on_chain_id db).1
            (upsert_rules_from_chain id rules db).1 (ground arith) (upsert_rules-Keeps id rules db)
    ]

pub pool_created-Keeps :
    (chain : Chain) (id amount members : ℕ) (hash : Option Text) (db : Db)
    → Keeps db (handle_pool_created chain id amount members hash db).1
unfolding handle_pool_created
pool_created-Keeps chain id amount members hash db = elim (Option-cases (find_on_chain id db)) [
  | inr (p, h) ↦
      Keeps-of_equal db (handle_pool_created chain id amount members hash db).1 db (ground arith)
        (Keeps-refl db)
  | inl h ↦
      let pool = created_pool chain id amount members (normal_hash hash) in
      let mid = (insert_pool pool db).1 in
      Keeps-of_equal db (handle_pool_created chain id amount members hash db).1
        (sync_rules chain db.next_id id mid).1 (ground arith)
        (Keeps-trans db mid (sync_rules chain db.next_id id mid).1 (insert_pool-Keeps pool db)
          (sync_rules-Keeps chain db.next_id id mid))
]

pub rules_updated-Keeps :
    (chain : Chain) (id : ℕ) (db : Db) → Keeps db (handle_rules_updated chain id db).1
unfolding handle_rules_updated
rules_updated-Keeps chain id db = elim (Option-cases (find_on_chain id db)) [
  | inl h ↦ Keeps-of_equal db (handle_rules_updated chain id db).1 db (ground arith) (Keeps-refl db)
  | inr (p, h) ↦
      Keeps-of_equal db (handle_rules_updated chain id db).1 (sync_rules chain p.id id db).1
        (ground arith) (sync_rules-Keeps chain p.id id db)
]

pub joined_pool-Keeps :
    (chain : Chain) (id : ℕ) (member : Text) (hash : Option Text) (s : Index)
    → Keeps s.db (handle_joined_pool chain id member hash s).1.db
unfolding handle_joined_pool
joined_pool-Keeps chain id member hash s = elim (Option-cases (find_on_chain id s.db)) [
  | inl h ↦
      Keeps-of_equal s.db (handle_joined_pool chain id member hash s).1.db s.db (ground arith)
        (Keeps-refl s.db)
  | inr (p, h) ↦ elim (Option-cases (find_member p.id member s.db)) [
    | inr (m, g) ↦
        Keeps-of_equal s.db (handle_joined_pool chain id member hash s).1.db s.db (ground arith)
          (Keeps-refl s.db)
    | inl g ↦
        Keeps-of_equal s.db (handle_joined_pool chain id member hash s).1.db
          (insert_member (new_member p.id member) s.db).1 (ground arith)
          (insert_member-Keeps (new_member p.id member) s.db)
  ]
]

-- A pool that was found by its number, stored again with that number while the pools are the same.
pub stored_again :
    (id : ℕ) (p q : Pool) (db : Db)
    → find_on_chain id db ≡ some p
    → q.id ≡ p.id
    → q.on_chain_pool_id ≡ p.on_chain_pool_id
    → Keeps db (save_pool q db).1
stored_again id p q db h i e c =
    let found =
      find_one-has_id pool_key (λ x. opt_eq x.on_chain_pool_id id) db.next_id db.pools c.pools_keyed
        h in
    save_pool-Keeps p.id p q db found i e c

notify_members_db :
    (chain : Chain) (id round : ℕ) (ms : List PoolMember) (s : Index)
    → (notify_members chain id round ms s).1.db ≡ s.db
unfolding notify_members
notify_members_db chain id round [] s = refl
notify_members_db chain id round (m ∷ ms) s = notify_members_db chain id round ms _

pub round_closed-Keeps :
    (chain : Chain) (id round : ℕ) (s : Index)
    → Keeps s.db (handle_round_closed chain id round s).1.db
unfolding handle_round_closed
round_closed-Keeps chain id round s = elim (Option-cases (find_on_chain id s.db)) [
  | inl h ↦
      Keeps-of_equal s.db (handle_round_closed chain id round s).1.db s.db (ground arith)
        (Keeps-refl s.db)
  | inr (p, h) ↦
      let q : Pool = record p { current_round = round + 1; status = PoolStatus.round_closed } in
      let mid : Index = record s { db = (save_pool q s.db).1 } in
      let same = notify_members_db chain p.id round (pool_members p.id s.db.members) mid in
      Keeps-of_equal s.db (handle_round_closed chain id round s).1.db mid.db (ground (arith, same))
        (stored_again id p q s.db h refl refl)
]

pub default_triggered-Keeps :
    (chain : Chain) (id : ℕ) (member : Text) (round : ℕ) (s : Index)
    → Keeps s.db (handle_default_triggered chain id member round s).1.db
unfolding handle_default_triggered
default_triggered-Keeps chain id member round s =
    Keeps-of_same s.db (handle_default_triggered chain id member round s).1.db (ground arith)
      (ground arith) (ground arith) (ground arith) (ground arith) (ground arith)

pub stream_created-Keeps :
    (chain : Chain) (id : ℕ) (who : Text) (total upfront amount rounds : ℕ) (db : Db)
    → Keeps db (handle_stream_created chain id who total upfront amount rounds db).1
unfolding handle_stream_created
stream_created-Keeps chain id who total upfront amount rounds db =
    Keeps-of_same db (handle_stream_created chain id who total upfront amount rounds db).1
      (ground arith) (ground arith) (ground arith) (ground arith) (ground arith) (ground arith)

pub round_released-Keeps :
    (chain : Chain) (id : ℕ) (who : Text) (amount : ℕ) (s : Index)
    → Keeps s.db (handle_round_released chain id who amount s).1.db
unfolding handle_round_released
round_released-Keeps chain id who amount s =
    Keeps-of_same s.db (handle_round_released chain id who amount s).1.db (ground arith)
      (ground arith) (ground arith) (ground arith) (ground arith) (ground arith)

pub stream_frozen-Keeps :
    (chain : Chain) (id : ℕ) (who : Text) (s : Index)
    → Keeps s.db (handle_stream_frozen chain id who s).1.db
unfolding handle_stream_frozen
stream_frozen-Keeps chain id who s =
    Keeps-of_same s.db (handle_stream_frozen chain id who s).1.db (ground arith) (ground arith)
      (ground arith) (ground arith) (ground arith) (ground arith)
