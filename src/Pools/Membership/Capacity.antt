-- ===== src/Pools/Membership/Capacity.antt =====
-- The number of a pool's members under `joinPool` and `recordContribution`.
use diaspora_equb_product.Common.{
  ℕ, ◌+◌, ◌≡◌, refl, ◌<◌, ◌≤◌, Bool, true, false, ◌&&◌, none, some, List, [], ◌∷◌, ◌++◌, Text,
  arith, ok, ◌==◌, length, any, filter_by, text_eq, find_one, Option-cases, inl, inr,
}
use diaspora_equb_product.Pools.Entities.{Pool, PoolMember, Db}
use diaspora_equb_product.Pools.Store.{find_pool, find_member, same_contribution}
use diaspora_equb_product.Pools.Winner.{pool_members, is_of_pool}
use diaspora_equb_product.Pools.Membership.{
  new_member, new_contribution, join_pool, record_contribution,
}

length-filter_by-append :
    (p : PoolMember → Bool) (m : PoolMember) (ms : List PoolMember)
    → p m ≡ true
    → length (filter_by p (ms ++ m ∷ [])) ≡ length (filter_by p ms) + 1
length-filter_by-append p m [] h = ground arith
length-filter_by-append p m (x ∷ ms) h = ground (arith, length-filter_by-append p m ms)

-- A new member row counts for its pool.
pub length-pool_members-append :
    (pool_id id : ℕ) (wallet : Text) (ms : List PoolMember)
    → let m : PoolMember = record { id = id; pool_id = pool_id; wallet_address = wallet } in
      length (pool_members pool_id (ms ++ m ∷ [])) ≡ length (pool_members pool_id ms) + 1
unfolding pool_members
length-pool_members-append pool_id id wallet ms =
    length-filter_by-append (is_of_pool pool_id) _ ms (ground arith)

any_of_find_one :
    (pool_id : ℕ) (wallet : Text) (ms : List PoolMember)
    → find_one (λ m. m.pool_id == pool_id && text_eq m.wallet_address wallet) ms ≡ none
    → any (λ x. x.pool_id == pool_id && text_eq x.wallet_address wallet) ms ≡ false
any_of_find_one pool_id wallet [] h = refl
any_of_find_one pool_id wallet (x ∷ ms) h = ground (arith, any_of_find_one pool_id wallet ms)

-- Who joins is one member more, and the pool stays within its capacity; the count that is answered
-- is the number of members that are stored.
pub join_pool_capacity :
    (pool_id : ℕ) (wallet : Text) (db : Db) (pool : Pool) {count : ℕ} {db' : Db}
    → find_pool pool_id db ≡ some pool
    → join_pool pool_id wallet db ≡ (ok count, db')
    → (length (pool_members pool_id db'.members) ≡ count)
      × (count ≡ length (pool_members pool_id db.members) + 1)
      × (count ≤ pool.max_members)
      × (find_member pool_id wallet db ≡ none)
unfolding join_pool new_member
join_pool_capacity pool_id wallet db pool f h =
    elim (Option-cases (find_member pool_id wallet db)) [
      | inl e ↦ ground (arith, length-pool_members-append pool_id db.next_id wallet db.members)
      | inr (m, e) ↦ absurd (ground arith)
    ]

-- `joinPool` succeeds on a stored pool with a free place that the wallet is no member of, and
-- answers with the new number of members.
pub join_pool_free :
    (pool_id : ℕ) (wallet : Text) (db : Db) (pool : Pool)
    → find_pool pool_id db ≡ some pool
    → length (pool_members pool_id db.members) < pool.max_members
    → find_member pool_id wallet db ≡ none
    → (join_pool pool_id wallet db).0 ≡ ok (length (pool_members pool_id db.members) + 1)
unfolding join_pool new_member
join_pool_free pool_id wallet db pool f h e =
    ground (arith, any_of_find_one pool_id wallet db.members e)

-- `recordContribution` of a wallet that is no member succeeds on a stored pool, where the round
-- has no contribution of the wallet, and makes one member more, however full the pool is.
pub record_contribution_overfills :
    (pool_id : ℕ) (wallet : Text) (round : ℕ) (db : Db) (pool : Pool)
    → find_pool pool_id db ≡ some pool
    → find_member pool_id wallet db ≡ none
    → any (same_contribution pool_id wallet round) db.contributions ≡ false
    → let (result, db') = record_contribution pool_id wallet round db in
      (result ≡ ok tt)
      × (length (pool_members pool_id db'.members) ≡ length (pool_members pool_id db.members) + 1)
unfolding record_contribution new_member new_contribution
record_contribution_overfills pool_id wallet round db pool f e fresh = ground (
  arith,
  any_of_find_one pool_id wallet db.members e,
  length-pool_members-append pool_id db.next_id wallet db.members,
)
