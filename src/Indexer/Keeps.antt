-- ===== src/Indexer/Keeps.antt =====
-- The tables of PoolsService before and after a step of the indexer.
pub mod Stores
pub mod Handlers
pub mod Contributions
pub mod Catching
use diaspora_equb_product.Common.{
  ℕ, ◌≡◌, refl, ◌≤◌, arith, ◌∙◌, sym, subst, some, none, Text, IsKeyed, IsKeyed-mono,
}
use diaspora_equb_product.Pools.Entities.{Pool, PoolMember, Db, pool_key, season_key, round_key}
use diaspora_equb_product.Pools.Store.{find_on_chain, find_member}
use diaspora_equb_product.Pools.Consistent.{IsConsistent}

-- The tables stay consistent; a pool that is found by its number on the chain stays in its row, and
-- a member that is found stays as it is.
pub record Kept (db db' : Db) : Type 0 where
  pub consistent : IsConsistent db'
  pub seasons : db'.seasons ≡ db.seasons
  pub rounds : db'.rounds ≡ db.rounds
  pub idempotency_keys : db'.idempotency_keys ≡ db.idempotency_keys
  pub pools :
      (id : ℕ) (p : Pool)
      → find_on_chain id db ≡ some p
      → (q : Pool) × (find_on_chain id db' ≡ some q) × (q.id ≡ p.id)
  pub members :
      (id : ℕ) (who : Text) (m : PoolMember)
      → find_member id who db ≡ some m
      → find_member id who db' ≡ some m

-- A step that keeps all this, from consistent tables.
abbrev pub Keeps : Db → Db → Type 0
Keeps db db' = IsConsistent db → Kept db db'

pub Keeps-refl : (db : Db) → Keeps db db
Keeps-refl db c = record {
  consistent = c;
  seasons = refl;
  rounds = refl;
  idempotency_keys = refl;
  pools = λ id p h. (p, h, refl);
  members = λ id who m h. h;
}

pub Keeps-trans : (a b c : Db) → Keeps a b → Keeps b c → Keeps a c
Keeps-trans a b c f g h =
    let k = f h in
    let l = g k.consistent in
    record {
      consistent = l.consistent;
      seasons = l.seasons ∙ k.seasons;
      rounds = l.rounds ∙ k.rounds;
      idempotency_keys = l.idempotency_keys ∙ k.idempotency_keys;
      pools = λ id p found.
          let (q, found', e) = k.pools id p found in
          let (r, found'', e') = l.pools id q found' in (r, found'', e' ∙ e);
      members = λ id who m found. l.members id who m (k.members id who m found);
    }

module _ (db db' : Db) where
  abbrev pub PoolsFound : Type 0
  PoolsFound =
      (id : ℕ) (p : Pool)
      → find_on_chain id db ≡ some p
      → (q : Pool) × (find_on_chain id db' ≡ some q) × (q.id ≡ p.id)

  abbrev pub MembersFound : Type 0
  MembersFound =
      (id : ℕ) (who : Text) (m : PoolMember)
      → find_member id who db ≡ some m
      → find_member id who db' ≡ some m

  -- A step on the pools and the members; keys may be issued.
  pub Kept-of_pools :
      db'.seasons ≡ db.seasons
      → db'.rounds ≡ db.rounds
      → db'.idempotency_keys ≡ db.idempotency_keys
      → db.next_id ≤ db'.next_id
      → IsKeyed pool_key db'.next_id db'.pools
      → PoolsFound
      → MembersFound
      → IsConsistent db
      → Kept db db'
  Kept-of_pools s r k n keyed p m c = record {
    consistent = record {
      issued = ground (arith, c.issued);
      pools_keyed = keyed;
      seasons_keyed =
          subst (IsKeyed season_key db'.next_id) (sym s)
            (IsKeyed-mono season_key _ _ db.seasons n c.seasons_keyed);
      rounds_keyed =
          subst (IsKeyed round_key db'.next_id) (sym r)
            (IsKeyed-mono round_key _ _ db.rounds n c.rounds_keyed);
    };
    seasons = s;
    rounds = r;
    idempotency_keys = k;
    pools = p;
    members = m;
  }

  PoolsFound-of_same : db'.pools ≡ db.pools → PoolsFound
  PoolsFound-of_same e id p h = (p, ground (arith, e), refl)

  MembersFound-of_same : db'.members ≡ db.members → MembersFound
  MembersFound-of_same e id who m h = ground (arith, e)

  -- A step on other tables.
  pub Keeps-of_same :
      db'.pools ≡ db.pools
      → db'.seasons ≡ db.seasons
      → db'.rounds ≡ db.rounds
      → db'.idempotency_keys ≡ db.idempotency_keys
      → db'.members ≡ db.members
      → db.next_id ≤ db'.next_id
      → Keeps db db'
  Keeps-of_same p s r k m n c =
      let keyed =
        subst (IsKeyed pool_key db'.next_id) (sym p)
          (IsKeyed-mono pool_key _ _ db.pools n c.pools_keyed) in
      Kept-of_pools s r k n keyed (PoolsFound-of_same p) (MembersFound-of_same m) c
