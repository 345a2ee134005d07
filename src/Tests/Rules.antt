-- ===== src/Tests/Rules.antt =====
-- The governance rules at concrete inputs.
use llm_dashboard.Base.{◌≡◌, refl, none, some, [], ◌∷◌}
use llm_dashboard.Gateway.Rules.{
  RuleType, RuleProxy, Usage, GovernanceResult, block, request_too_large, apply_rule, first_match,
}

abbrev blank : RuleProxy
blank = record {
  id = some 1;
  rule_type = RuleType.tenant_limit;
  tenant_id = none;
  model_name = none;
  daily_token_limit = none;
  monthly_token_limit = none;
  monthly_budget_usd = none;
  max_tokens_per_request = none;
  priority = 100;
  downgrade_to_model = none;
}

-- At most 100 tokens in a request.
abbrev small_requests : RuleProxy
small_requests = record blank {
  id = some 2;
  rule_type = RuleType.rate_limit;
  max_tokens_per_request = some 100;
}

abbrev to_mini : RuleProxy
to_mini = record blank {
  id = some 3;
  rule_type = RuleType.model_downgrade;
  model_name = some "gpt-4o";
  downgrade_to_model = some "gpt-4o-mini";
}

abbrev some_usage : Usage
some_usage = record {
  daily_tokens = 900;
  monthly_tokens = 5000;
  daily_cost_usd = 3;
  monthly_cost_usd = 40;
}

abbrev too_large_result : GovernanceResult
too_large_result = record {
  decision = block;
  model_to_use = "gpt-4o";
  rule_id = some 2;
  reason = request_too_large 150 100;
}

small_requests_block : apply_rule small_requests "gpt-4o" 150 some_usage ≡ some too_large_result
unfolding apply_rule
small_requests_block = refl

small_requests_first :
    first_match (blank ∷ small_requests ∷ to_mini ∷ []) "gpt-4o" 150 some_usage
    ≡ some too_large_result
unfolding first_match apply_rule
small_requests_first = refl
