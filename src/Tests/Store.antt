-- ===== src/Tests/Store.antt =====
-- The rule store, the smart router and the contracts at concrete inputs.
use llm_dashboard.Base.{
  ℕ, ◌≤◌, ◌≡◌, refl, ◌≢◌, ◌↔◌, none, some, String, List, [], ◌∷◌, In, IsDescending, find,
}
use llm_dashboard.Gateway.RuleStore.{
  Rule, get_active_rules_for_tenant, dict_to_rule_proxy, rule_to_dict,
}
use llm_dashboard.Gateway.RuleStore.RoundTrip.{view, dict_to_rule_proxy-rule_to_dict}
use llm_dashboard.Gateway.RuleStore.Selection.{IsEligible, get_active_rules_for_tenant-IsEligible}
use llm_dashboard.Gateway.SmartRouter.{
  SmartRouter, Classifier, Sample, route, is_viable, model_cost, model_cost_tiers,
}
use llm_dashboard.Gateway.SmartRouter.Choice.{IsDearest, route-IsDearest}
use llm_dashboard.Billing.Contracts.{
  Contract, forfait, proposed, rejected, TierConfig, get_contract, accept_contract, reject_contract,
  auto_assign_from_usage, default_contract, set_terms, upsert, insert_contract, tier_terms,
  forfait_terms, is_of_tenant, Contracts,
}
use llm_dashboard.Billing.Contracts.Workflow.{
  changed, accepted, with_status, get_contract-accept_reject, auto_assign_from_usage_lem, IsDue,
  tier_contract,
}
use llm_dashboard.Tests.Setting.{unary_codec, unary_codec-IsFaithful, daily_rule}

abbrev expired_rule : Rule
expired_rule = record daily_rule { id = 8; priority = 200; effective_until = some 5 }

get_active_rules_for_tenant-IsEligible_example :
    ((r : Rule)
      → In r (get_active_rules_for_tenant 10 "acme" (daily_rule ∷ expired_rule ∷ []))
        ↔ (In r (daily_rule ∷ expired_rule ∷ []) × IsEligible 10 "acme" r))
    × IsDescending
        (λ r. r.priority)
        (get_active_rules_for_tenant 10 "acme" (daily_rule ∷ expired_rule ∷ []))
get_active_rules_for_tenant-IsEligible_example =
    get_active_rules_for_tenant-IsEligible 10 "acme" (daily_rule ∷ expired_rule ∷ [])

dict_to_rule_proxy-rule_to_dict_example :
    dict_to_rule_proxy unary_codec (rule_to_dict unary_codec daily_rule) ≡ some (view daily_rule)
dict_to_rule_proxy-rule_to_dict_example =
    dict_to_rule_proxy-rule_to_dict unary_codec unary_codec-IsFaithful daily_rule

-- A classifier that knows two models and trusts both.
abbrev trusting : Classifier
trusting = record {
  encode = λ _. some 0;
  prob_good = λ _ _ _. 9000;
  classes = "gpt-4o-mini" ∷ "gpt-4o" ∷ [];
}

abbrev ready_router : SmartRouter
ready_router = record {
  model = some trusting;
  trained_at = some 0;
  sample_count = 60;
  known_models = "gpt-4o-mini" ∷ "gpt-4o" ∷ [];
}

routes : route ready_router "gpt-4-turbo" 100 50 8500 ≡ some "gpt-4o"
unfolding route
routes = refl

route-IsDearest_example :
    (clf : Classifier) × (ready_router.model ≡ some clf)
    × (50 ≤ 60)
    × (cost : ℕ) × (model_cost model_cost_tiers "gpt-4-turbo" ≡ some cost)
    × IsDearest model_cost_tiers cost (is_viable ready_router clf 100 50 8500) "gpt-4o"
route-IsDearest_example = route-IsDearest ready_router "gpt-4-turbo" 100 50 8500 "gpt-4o" routes

abbrev two_samples : List Sample
two_samples =
    record { model = "gpt-4o"; input_tokens = 5; output_tokens = 5; quality_score = 9000 }
    ∷ record { model = "gpt-4o-mini"; input_tokens = 5; output_tokens = 5; quality_score = 1000 }
    ∷ []

abbrev offer : Contract
offer = record (default_contract "acme") {
  contract_type = forfait;
  status = proposed;
  forfait_tokens = 1000;
}

get_contract-accept_reject_example :
    (get_contract "acme" (accept_contract "acme" (offer ∷ [])).0
      ≡ changed accepted (get_contract "acme" (offer ∷ [])))
    × (get_contract "acme" (reject_contract "acme" (offer ∷ [])).0
        ≡ changed (with_status rejected) (get_contract "acme" (offer ∷ [])))
get_contract-accept_reject_example = get_contract-accept_reject "acme" "acme" (offer ∷ [])

abbrev tiers : TierConfig
tiers = record {
  medium_tokens = 100;
  enterprise_tokens = 1000;
  medium = record { base_fee = 50; forfait_tokens = 5000; overage_rate = 2 };
  enterprise = record { base_fee = 150; forfait_tokens = 50000; overage_rate = 3 };
}

auto_assign_from_usage_lem_example :
    ((k : Contract)
      → get_contract "acme" [] ≡ some k
      → auto_assign_from_usage tiers "acme" 500 [] ≡ some ([], k))
    × (get_contract "acme" [] ≡ none
        → find (is_of_tenant "acme") [] ≢ none
        → auto_assign_from_usage tiers "acme" 500 [] ≡ none)
    × (find (is_of_tenant "acme") [] ≡ none
        → (due : Contract) × (ks : Contracts) × IsDue tiers "acme" 500 due
          × (auto_assign_from_usage tiers "acme" 500 [] ≡ some (ks, due))
          × (get_contract "acme" ks ≡ some due)
          × ((u : String) → u ≢ "acme" → get_contract u ks ≡ get_contract u []))
auto_assign_from_usage_lem_example = auto_assign_from_usage_lem tiers "acme" 500 []

medium_assigned :
    auto_assign_from_usage tiers "acme" 500 []
    ≡ some (tier_contract tiers.medium "acme" ∷ [], tier_contract tiers.medium "acme")
unfolding auto_assign_from_usage get_contract upsert insert_contract set_terms default_contract
    tier_terms forfait_terms is_of_tenant
medium_assigned = refl
