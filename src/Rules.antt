-- ===== src/Rules.antt =====
-- RulesService (backend/src/rules/rules.service.ts). What `getRules` of the contract answers is an
-- argument, `none` where the read fails or gives nothing.
pub mod Shown
pub mod Updates
mod Tests
use diaspora_equb_product.Common.{
  ℕ, ◌+◌, Bool, true, false, not, ◌&&◌, ◌||◌, Option, none, some, List, [], ◌∷◌, Text, ◌==◌,
  if◌then◌else◌, or_else, text_eq, to_lower, Result, ok, err, Action, Fault, gets, pure, some_or,
  throw_if, ◌>>=◌, ◌>>◌,
}
use diaspora_equb_product.Pools.Entities.{Pool, EqubRules, EqubRulesEntity, Db}
use diaspora_equb_product.Pools.Store.{find_pool, update_pool, find_rules, save_rules}

-- The defaults of `getRules` and of a row that `updateRules` creates.
abbrev pub default_rules : EqubRules
default_rules = record {
  equb_type = 0;
  frequency = 1;
  payout_method = 0;
  grace_period_seconds = 604_800;
  penalty_severity = 10;
  round_duration_seconds = 2_592_000;
  late_fee_percent = 0;
}

pub data RulesSource : Type 0 where
  default_source db_source : RulesSource

-- The seven values that the contract gives, each possibly missing.
pub record RawRules : Type 0 where
  pub equb_type : Option ℕ
  pub frequency : Option ℕ
  pub payout_method : Option ℕ
  pub grace_period_seconds : Option ℕ
  pub penalty_severity : Option ℕ
  pub round_duration_seconds : Option ℕ
  pub late_fee_percent : Option ℕ

-- `fetchRulesFromChain`; `read` is the contract's answer.
unfoldable pub fetch_rules_from_chain : (ℕ → Option RawRules) → ℕ → Option EqubRules
fetch_rules_from_chain read on_chain_id = elim (read on_chain_id) [
  | none ↦ none
  | some raw ↦ some (record {
    equb_type = or_else raw.equb_type 0;
    frequency = or_else raw.frequency 1;
    payout_method = or_else raw.payout_method 0;
    grace_period_seconds = or_else raw.grace_period_seconds 604_800;
    penalty_severity = or_else raw.penalty_severity 10;
    round_duration_seconds = or_else raw.round_duration_seconds 2_592_000;
    late_fee_percent = or_else raw.late_fee_percent 0;
  })
]

-- The row of the pool, or a new one, with these rules.
unfoldable pub with_rules : Option EqubRulesEntity → ℕ → EqubRules → EqubRulesEntity
with_rules none pool_id rules = record { id = 0; pool_id = pool_id; rules = rules }
with_rules (some r) pool_id rules = record r { rules = rules }

abbrev pub show_rules : EqubRules → Pool → Pool
show_rules rules p = record p { equb_type = some rules.equb_type; frequency = some rules.frequency }

unfoldable pub upsert_rules_from_chain : ℕ → EqubRules → Action Db EqubRulesEntity
upsert_rules_from_chain pool_id rules = do
  found ← gets (find_rules pool_id)
  saved ← save_rules (with_rules found pool_id rules)
  update_pool pool_id (show_rules rules)
  pure saved

abbrev is_missing : Option ℕ → Bool
is_missing none = true
is_missing (some n) = false

-- The fetch of `getRules`; an exception is caught, with what was written before it.
unfoldable pub fetch_missing : (ℕ → Option RawRules) → Pool → Action Db (Option EqubRulesEntity)
fetch_missing read pool db = elim pool.on_chain_pool_id [
  | none ↦ (ok none, db)
  | some on_chain_id ↦ elim (fetch_rules_from_chain read on_chain_id) [
    | none ↦ (ok none, db)
    | some rules ↦
        let (saved, db') = upsert_rules_from_chain pool.id rules db in
        elim saved [
          | err e ↦ (ok none, db')
          | ok r ↦ (
            ok (some r),
            (if is_missing pool.equb_type
                then (update_pool pool.id (show_rules rules) db').1
                else db'),
          )
        ]
  ]
]

unfoldable pub get_rules : (ℕ → Option RawRules) → ℕ → Action Db (EqubRules × RulesSource)
get_rules read pool_id = do
  pool ← some_or (← gets (find_pool pool_id)) Fault.not_found
  stored ← gets (find_rules pool_id)
  found ← elim stored [ some r ↦ pure (some r) | none ↦ fetch_missing read pool ]
  elim found [
    | none ↦ pure (default_rules, RulesSource.default_source)
    | some r ↦ pure (r.rules, RulesSource.db_source)
  ]

-- `pool.createdBy?.toLowerCase() !== walletAddress.toLowerCase()`, negated.
unfoldable pub is_creator : Pool → Text → Bool
is_creator pool wallet = elim pool.created_by [
  | none ↦ false
  | some creator ↦ text_eq (to_lower creator) (to_lower wallet)
]

pub record CreateEqubRulesDto : Type 0 where
  pub equb_type : ℕ
  pub frequency : ℕ
  pub payout_method : ℕ
  pub grace_period_seconds : Option ℕ
  pub penalty_severity : Option ℕ
  pub round_duration_seconds : Option ℕ
  pub late_fee_percent : Option ℕ

unfoldable pub created_rules : CreateEqubRulesDto → EqubRules
created_rules dto = record {
  equb_type = dto.equb_type;
  frequency = dto.frequency;
  payout_method = dto.payout_method;
  grace_period_seconds = or_else dto.grace_period_seconds 604_800;
  penalty_severity = or_else dto.penalty_severity 10;
  round_duration_seconds = or_else dto.round_duration_seconds 2_592_000;
  late_fee_percent = or_else dto.late_fee_percent 0;
}

unfoldable pub set_rules : ℕ → CreateEqubRulesDto → Text → Action Db EqubRulesEntity
set_rules pool_id dto wallet = do
  pool ← some_or (← gets (find_pool pool_id)) Fault.not_found
  throw_if (not (is_creator pool wallet)) Fault.forbidden
  found ← gets (find_rules pool_id)
  saved ← save_rules (with_rules found pool_id (created_rules dto))
  update_pool pool_id (show_rules (created_rules dto))
  pure saved

-- `UpdateEqubRulesDto` has the fields that the contract may leave out.
unfoldable pub patched_rules : RawRules → EqubRules → EqubRules
patched_rules dto r = record {
  equb_type = or_else dto.equb_type r.equb_type;
  frequency = or_else dto.frequency r.frequency;
  payout_method = or_else dto.payout_method r.payout_method;
  grace_period_seconds = or_else dto.grace_period_seconds r.grace_period_seconds;
  penalty_severity = or_else dto.penalty_severity r.penalty_severity;
  round_duration_seconds = or_else dto.round_duration_seconds r.round_duration_seconds;
  late_fee_percent = or_else dto.late_fee_percent r.late_fee_percent;
}

abbrev given : Option ℕ → Option ℕ → Option ℕ
given none old = old
given (some n) old = some n

-- Whether the request changes what the pool shows.
abbrev pub gives : RawRules → Bool
gives dto = not (is_missing dto.equb_type) || not (is_missing dto.frequency)

-- The fields that the request gives; without one of them the pool is not written.
abbrev pub patch_pool : RawRules → Pool → Pool
patch_pool dto p = record p {
  equb_type = given dto.equb_type p.equb_type;
  frequency = given dto.frequency p.frequency;
}

abbrev pub stored_rules : Option EqubRulesEntity → EqubRules
stored_rules none = default_rules
stored_rules (some r) = r.rules

unfoldable pub update_rules : ℕ → RawRules → Text → Action Db EqubRulesEntity
update_rules pool_id dto wallet = do
  pool ← some_or (← gets (find_pool pool_id)) Fault.not_found
  throw_if (not (is_creator pool wallet)) Fault.forbidden
  found ← gets (find_rules pool_id)
  saved ← save_rules (with_rules found pool_id (patched_rules dto (stored_rules found)))
  (if gives dto then update_pool pool_id (patch_pool dto) else pure tt)
  pure saved
