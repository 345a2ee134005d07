-- ===== src/Gateway/Governance.antt =====
-- The evaluation of a call: experiments, the cached rules, the counters, the rules in order and
-- the smart router (evaluate_governance and _load_rules_for_tenant of
-- modules/gateway/services/gateway_service.py, get_active_experiment_for_prompt of
-- modules/tracing/repositories/experiment_repository.py).
-- A call returns the new world, and `none` where it raises.
pub mod Limits
use llm_dashboard.Base.{
  ℕ, ◌+◌, ◌/◌, ◌≡◌, Bool, true, false, ◌&&◌, Option, none, some, List, [], ◌∷◌, map, String, str_eq,
  ltb, not, if◌then◌else◌, find,
}
use llm_dashboard.Gateway.Rules.{
  RuleProxy, GovernanceResult, allow, allow_downgrade, ab_test, no_rules, no_match, smart_routed,
  experiment_active, truthy_text, first_match, Usage,
}
use llm_dashboard.Gateway.RuleStore.{
  Codec, RuleDict, get_active_rules_for_tenant, rule_to_dict, proxies,
}
use llm_dashboard.Gateway.SmartRouter.{SmartRouter, route, is_ready, default_min_confidence}
use llm_dashboard.Gateway.World.{World, Experiment, CacheEntry}
use llm_dashboard.Quota.{get_current_usage}

-- `get_cached_rule`: a failing cache is a miss.
unfoldable pub get_cached_rule : World → String → Option (List RuleDict)
get_cached_rule w tenant =
    if w.cache_up
    then elim (w.rule_cache tenant) [
      | none ↦ none
      | some e ↦ if ltb w.clock.now e.expires_at then some e.rules else none
    ]
    else none

-- `set_cached_rule`: a failing cache drops the value.
unfoldable pub set_cached_rule : World → String → List RuleDict → World
set_cached_rule w tenant ds =
    if w.cache_up
    then record w {
      rule_cache = λ t.
          if str_eq tenant t
          then some (record { rules = ds; expires_at = w.clock.now + w.rule_cache_ttl })
          else w.rule_cache t;
    }
    else w

unfoldable pub load_rules : Codec → World → String → World × Option (List RuleProxy)
unfolding get_cached_rule set_cached_rule
load_rules c w tenant = elim (get_cached_rule w tenant) [
  | some ds ↦ (w, proxies c ds)
  | none ↦
      let ds = map (rule_to_dict c) (get_active_rules_for_tenant w.clock.now tenant w.rules) in
      if w.db_up then (set_cached_rule w tenant ds, proxies c ds) else (w, none)
]

unfoldable pub get_active_experiment_for_prompt :
    String → String → List Experiment → Option Experiment
get_active_experiment_for_prompt tenant prompt =
    find (λ e. str_eq e.tenant_id tenant && (str_eq e.prompt_name prompt && e.running))

-- The answer for a running experiment: variant B if the draw falls below the split.
unfoldable pub experiment_result : ℕ → String → Experiment → GovernanceResult
experiment_result draw model e =
    let b = ltb draw e.traffic_split in
    record {
      decision = ab_test b;
      model_to_use = model;
      rule_id = some e.id;
      reason = experiment_active e.name b (if b then e.variant_b_version else e.variant_a_version);
    }

-- `if prompt_name: …`
unfoldable pub experiment_decision :
    ℕ → World → String → String → Option String → Option GovernanceResult
unfolding experiment_result get_active_experiment_for_prompt
experiment_decision draw w tenant model prompt_name = elim (truthy_text prompt_name) [
  | none ↦ none
  | some prompt ↦ elim (get_active_experiment_for_prompt tenant prompt w.experiments) [
    | none ↦ none
    | some e ↦ some (experiment_result draw model e)
  ]
]

-- What follows when no rule triggers.
unfoldable pub route_or_allow : SmartRouter → String → ℕ → GovernanceResult
route_or_allow s model tokens =
    let default : GovernanceResult = record {
      decision = allow;
      model_to_use = model;
      rule_id = none;
      reason = no_match;
    } in
    if is_ready s
    then elim (truthy_text (route s model tokens (tokens / 2) default_min_confidence)) [
      | none ↦ default
      | some cheaper ↦ if str_eq cheaper model then default else record {
        decision = allow_downgrade;
        model_to_use = cheaper;
        rule_id = none;
        reason = smart_routed cheaper;
      }
    ]
    else default

-- The evaluation with the rules and the usage at hand.
unfoldable pub decide : SmartRouter → List RuleProxy → String → ℕ → Usage → GovernanceResult
unfolding route_or_allow
decide s rules model tokens usage = elim (first_match rules model tokens usage) [
  | some result ↦ result
  | none ↦ route_or_allow s model tokens
]

-- The part after the experiments, on the rules that were loaded.
unfoldable pub evaluate_rules :
    World → List RuleProxy → String → String → ℕ → Option GovernanceResult
unfolding decide
evaluate_rules w [] tenant model tokens =
    some (record { decision = allow; model_to_use = model; rule_id = none; reason = no_rules })
evaluate_rules w (r ∷ rules) tenant model tokens =
    elim (get_current_usage w.quota_up w.clock tenant w.quota) [
      | none ↦ none
      | some usage ↦ some (decide w.router (r ∷ rules) model tokens usage)
    ]

-- The query for an experiment is made for a prompt only, and raises where the database fails.
unfoldable pub experiment_query_fails : World → Option String → Bool
experiment_query_fails w prompt_name = elim (truthy_text prompt_name) [
  | none ↦ false
  | some _ ↦ not w.db_up
]

unfoldable pub evaluate_governance :
    Codec → ℕ → World → String → String → ℕ → Option String → World × Option GovernanceResult
unfolding experiment_decision load_rules evaluate_rules
evaluate_governance c draw w tenant model tokens prompt_name =
    if experiment_query_fails w prompt_name
    then (w, none)
    else elim (experiment_decision draw w tenant model prompt_name) [
      | some result ↦ (w, some result)
      | none ↦
          let (w', loaded) = load_rules c w tenant in
          elim loaded [
            | none ↦ (w', none)
            | some rules ↦ (w', evaluate_rules w' rules tenant model tokens)
          ]
    ]
