-- ===== src/Indexer/Handlers/Creation.antt =====
-- `handlePoolCreated` and `handleRulesUpdated`: a pool and its rules, as the chain has them.
use diaspora_equb_product.Common.{
  ℕ, Bool, true, false, Option, none, some, [], ◌∷◌, Text, if◌then◌else◌, or_else, text_eq,
  to_lower, trim, is_blank, Action, gets, pure, ◌>>=◌,
}
use diaspora_equb_product.Pools.Entities.{Pool, PoolStatus, Db}
use diaspora_equb_product.Pools.Store.{find_on_chain, insert_pool}
use diaspora_equb_product.Pools.Season.{zero_address}
use diaspora_equb_product.Rules.{fetch_rules_from_chain, upsert_rules_from_chain}
use diaspora_equb_product.Indexer.State.{Chain, caught}

-- `String(txHashRaw).trim().toLowerCase()`, `null` for a missing or an empty hash.
unfoldable pub normal_hash : Option Text → Option Text
normal_hash none = none
normal_hash (some []) = none
normal_hash (some (c ∷ s)) = some (to_lower (trim (c ∷ s)))

abbrev pub given_address : Option Text → Option Text
given_address none = none
given_address (some a) = if is_blank a then none else some a

-- The creator that the sender gives, and whether `getAddress` threw on it.
unfoldable pub decode_creator : Chain → Option Text → Option Text × Bool
decode_creator chain sender = elim (given_address sender) [
  | none ↦ (none, false)
  | some a ↦ elim (chain.get_address a) [ none ↦ (none, true) | some c ↦ (some c, false) ]
]

unfoldable pub decode_treasury : Chain → Option Text → Text
decode_treasury chain arg = elim (given_address arg) [
  | none ↦ zero_address
  | some t ↦
      if text_eq t zero_address then zero_address else or_else (chain.get_address t) zero_address
]

-- The creator and the treasury of a new pool; an exception keeps what was decoded before it.
unfoldable pub decode_creation : Chain → Option Text → Option Text × Text
unfolding decode_creator decode_treasury
decode_creation chain tx_hash = elim (given_address tx_hash) [
  | none ↦ (none, zero_address)
  | some hash ↦ elim (chain.transaction hash) [
    | none ↦ (none, zero_address)
    | some tx ↦
        let (creator, failed) = decode_creator chain tx.from in
        (creator, if failed then zero_address else decode_treasury chain tx.treasury)
  ]
]

-- The rules of the contract, stored for the pool; an exception is caught.
unfoldable pub sync_rules : Chain → ℕ → ℕ → Action Db (Unit {0})
sync_rules chain pool_id on_chain_id = elim (fetch_rules_from_chain chain.read_rules on_chain_id) [
  | none ↦ pure tt
  | some rules ↦ caught (upsert_rules_from_chain pool_id rules)
]

-- The row of a new pool.
unfoldable pub created_pool : Chain → ℕ → ℕ → ℕ → Option Text → Pool
unfolding decode_creation
created_pool chain on_chain_id contribution_amount max_members tx_hash =
    let (creator, treasury) = decode_creation chain tx_hash in
    record {
      id = 0;
      on_chain_pool_id = some on_chain_id;
      tier = 0;
      contribution_amount = chain.format_units contribution_amount 18;
      max_members = max_members;
      current_round = 1;
      treasury = treasury;
      token = zero_address;
      status = PoolStatus.active;
      tx_hash = given_address tx_hash;
      active_season_id = none;
      active_round_id = none;
      created_by = creator;
      equb_type = none;
      frequency = none;
    }

unfoldable pub handle_pool_created : Chain → ℕ → ℕ → ℕ → Option Text → Action Db (Unit {0})
unfolding normal_hash created_pool
handle_pool_created chain on_chain_id contribution_amount max_members hash_raw = do
  existing ← gets (find_on_chain on_chain_id)
  elim existing [
    | some p ↦ pure tt
    | none ↦ do
      pool ←
          insert_pool
            (created_pool chain on_chain_id contribution_amount max_members (normal_hash hash_raw))
      sync_rules chain pool.id on_chain_id
  ]

unfoldable pub handle_rules_updated : Chain → ℕ → Action Db (Unit {0})
handle_rules_updated chain on_chain_id = do
  found ← gets (find_on_chain on_chain_id)
  elim found [ none ↦ pure tt | some pool ↦ sync_rules chain pool.id on_chain_id ]
