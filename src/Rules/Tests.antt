-- ===== src/Rules/Tests.antt =====
-- The rules of a sample pool.
use diaspora_equb_product.Common.{ℕ, ◌≡◌, refl, Option, none, some, Result, ok, to_lower, text_eq}
use diaspora_equb_product.Pools.Entities.{EqubRules, Db}
use diaspora_equb_product.Pools.Sample.{admin, closed_db}
use diaspora_equb_product.Rules.{
  RulesSource, RawRules, CreateEqubRulesDto, default_rules, fetch_rules_from_chain, with_rules,
  upsert_rules_from_chain, fetch_missing, get_rules, is_creator, created_rules, set_rules,
  patched_rules, update_rules,
}
use diaspora_equb_product.Rules.Updates.{IsPatched, set_rules-get_rules, update_rules-get_rules}

abbrev request : CreateEqubRulesDto
request = record {
  equb_type = 2;
  frequency = 3;
  payout_method = 1;
  grace_period_seconds = none;
  penalty_severity = some 25;
  round_duration_seconds = none;
  late_fee_percent = none;
}

abbrev patch : RawRules
patch = record {
  equb_type = none;
  frequency = some 0;
  payout_method = none;
  grace_period_seconds = none;
  penalty_severity = none;
  round_duration_seconds = none;
  late_fee_percent = some 4;
}

evaluation : Unit {0}
unfolding fetch_rules_from_chain with_rules upsert_rules_from_chain fetch_missing get_rules
    is_creator created_rules set_rules patched_rules update_rules to_lower text_eq
evaluation = tt

abbrev no_chain : ℕ → Option RawRules
no_chain n = none

abbrev rules_set : Db
rules_set = (set_rules 1 request admin closed_db).1

abbrev shown : Result (EqubRules × RulesSource) × Db
shown = get_rules no_chain 1 rules_set

set_rules-get_rules_test : shown ≡ (ok (created_rules request, RulesSource.db_source), rules_set)
unfolding evaluation
set_rules-get_rules_test = set_rules-get_rules no_chain 1 request admin closed_db refl

-- The patch of a pool without rules starts from the defaults.
update_rules-get_rules_example :
    let after = (update_rules 1 patch admin closed_db).1 in
    (new : EqubRules) × (get_rules no_chain 1 after ≡ (ok (new, RulesSource.db_source), after))
    × IsPatched patch default_rules new
unfolding evaluation
update_rules-get_rules_example =
    update_rules-get_rules no_chain no_chain 1 patch admin closed_db refl refl
