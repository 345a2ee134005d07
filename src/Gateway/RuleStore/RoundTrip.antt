-- ===== src/Gateway/RuleStore/RoundTrip.antt =====
-- A rule survives the cache: what is read back is the rule as the engine sees it.
use llm_dashboard.Base.{◌≡◌, refl, some, List, [], ◌∷◌, map, arith, Option-cases, inl, inr}
use llm_dashboard.Gateway.Rules.{RuleProxy, truthy}
use llm_dashboard.Gateway.RuleStore.{
  Rule, Codec, IsFaithful, rule_to_dict, dict_to_rule_proxy, proxies,
}

-- The rule as the engine sees it: a budget of 0 is no budget.
abbrev pub view : Rule → RuleProxy
view r = record {
  id = some r.id;
  rule_type = r.rule_type;
  tenant_id = r.tenant_id;
  model_name = r.model_name;
  daily_token_limit = r.daily_token_limit;
  monthly_token_limit = r.monthly_token_limit;
  monthly_budget_usd = truthy r.monthly_budget_usd;
  max_tokens_per_request = r.max_tokens_per_request;
  priority = r.priority;
  downgrade_to_model = r.downgrade_to_model;
}

module _ (c : Codec) (f : IsFaithful c) where
  -- Writing a rule to the cache form and reading it back never fails, and loses nothing that the
  -- engine looks at; a budget of 0 becomes a missing budget.
  pub dict_to_rule_proxy-rule_to_dict :
      (r : Rule) → dict_to_rule_proxy c (rule_to_dict c r) ≡ some (view r)
  unfolding dict_to_rule_proxy rule_to_dict
  dict_to_rule_proxy-rule_to_dict r = elim (Option-cases (truthy r.monthly_budget_usd)) [
    | inl e ↦ ground (arith, f.uuid r.id, f.uuid_nonempty r.id)
    | inr (n, e) ↦
        ground (arith, f.uuid r.id, f.uuid_nonempty r.id, f.decimal n, f.decimal_nonempty n)
  ]

  -- The same for a list of rules, in order.
  pub proxies-map : (rs : List Rule) → proxies c (map (rule_to_dict c) rs) ≡ some (map view rs)
  unfolding proxies
  proxies-map [] = refl
  proxies-map (r ∷ rs) = ground (arith, dict_to_rule_proxy-rule_to_dict r, proxies-map rs)
