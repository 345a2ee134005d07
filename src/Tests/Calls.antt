-- ===== src/Tests/Calls.antt =====
-- Calls through the gateway at concrete inputs.
use llm_dashboard.Base.{
  ℕ, ◌≤◌, ◌≡◌, refl, sym, ap, ◌∙◌, true, none, some, List, [], ◌∷◌, String, arith, inl, inr, In,
}
use mathlib.Core.Option.{none-ne-some}
use llm_dashboard.Gateway.Rules.{
  GovernanceResult, block, allow, no_match, is_blocked, first_match, apply_rule,
}
use llm_dashboard.Gateway.Rules.Limits.{Forbids, over_daily_limit, Redirects, IsQuiet}
use llm_dashboard.Gateway.RuleStore.{Rule, proxies, get_active_rules_for_tenant, rule_to_dict}
use llm_dashboard.Gateway.RuleStore.RoundTrip.{view}
use llm_dashboard.Gateway.RuleStore.Selection.{IsEligible}
use llm_dashboard.Gateway.Security.{sanitize_request}
use llm_dashboard.Gateway.Security.Keys.{IsClean, sanitize_request-IsClean}
use llm_dashboard.Gateway.SmartRouter.{is_ready, init}
use llm_dashboard.Gateway.Governance.{
  evaluate_governance, experiment_query_fails, experiment_decision, get_cached_rule,
  get_active_experiment_for_prompt,
}
use llm_dashboard.Gateway.Governance.Limits.{evaluate_governance-allow, evaluate_governance-block}
use llm_dashboard.Gateway.LogCall.{log_call}
use llm_dashboard.Gateway.LogCall.Outcome.{Outcome}
use llm_dashboard.Gateway.LogCall.Guard.{IsGuarded}
use llm_dashboard.Gateway.LogCall.Sequence.{Step, serve, serve-IsBelow}
use llm_dashboard.Quota.Day.{InDay}
use llm_dashboard.Quota.{daily, tokens, usage, get_or_zero, get_current_usage}
use llm_dashboard.Tests.Setting.{
  unary_codec, unary_codec-IsFaithful, small_world, daily_rule, call_of, noon, plain_models,
}

only_rule : (r : Rule) → In r small_world.rules → daily_rule ≡ r
only_rule r (inl e) = sym e
only_rule r (inr m) = absurd m

small_world-IsGuarded : IsGuarded unary_codec "acme" 1000 small_world
unfolding get_active_experiment_for_prompt
small_world-IsGuarded = record {
  rule = daily_rule;
  listed = inl refl;
  kind = refl;
  bound = refl;
  active = refl;
  scope = inr refl;
  started = refl;
  unexpired = refl;
  straight = λ r m k. absurd (let q = ap (λ (x : Rule). x.rule_type) (only_rule r m) ∙ k in cc);
  plain = λ p. refl;
  cached = λ e h. absurd (none-ne-some e h);
}

abbrev step_of : ℕ → ℕ → Step
step_of n id = record {
  clock = noon;
  quota_up = true;
  cache_up = true;
  db_up = true;
  semantic = λ _ _ _. none;
  security = some plain_models;
  draw = 0;
  log_id = id;
  request = call_of n;
}

-- Of three calls with 600, 600 and 400 tokens the second is refused.
abbrev three_steps : List Step
three_steps = step_of 600 1 ∷ step_of 600 2 ∷ step_of 400 3 ∷ []

three_calls :
    get_or_zero 43200
      (serve unary_codec three_steps small_world).quota
      (daily "acme" tokens 20260301)
    ≡ 1000
unfolding serve log_call get_or_zero sanitize_request evaluate_governance experiment_query_fails
    is_blocked proxies get_active_rules_for_tenant rule_to_dict get_current_usage first_match
    apply_rule is_ready init
three_calls = refl

nothing_yet :
    (t : ℕ) → InDay 0 t → get_or_zero t small_world.quota (daily "acme" tokens 20260301) ≤ 1000
unfolding get_or_zero
nothing_yet t i = omega arith

at_noon : InDay 0 noon.now × (noon.today ≡ 20260301)
at_noon = ((omega arith, omega arith), refl)

serve-IsBelow_example :
    get_or_zero 50000
      (serve unary_codec three_steps small_world).quota
      (daily "acme" tokens 20260301)
    ≤ 1000
serve-IsBelow_example =
    serve-IsBelow unary_codec unary_codec-IsFaithful "acme" 1000 0 20260301 (omega arith)
      three_steps small_world small_world-IsGuarded (at_noon, (at_noon, (at_noon, tt))) nothing_yet
      50000 (omega arith, omega arith)

abbrev allowed : GovernanceResult
allowed = record { decision = allow; model_to_use = "gpt-4o"; rule_id = none; reason = no_match }

daily_rule-IsEligible : IsEligible 43200 "acme" daily_rule
daily_rule-IsEligible = record {
  scope = inr refl;
  active = refl;
  started = λ t e. absurd (none-ne-some t e);
  unexpired = λ t e. absurd (none-ne-some t e);
}

no_experiment : experiment_decision 0 small_world "acme" "gpt-4o" none ≡ none
unfolding experiment_decision
no_experiment = refl

not_cached : get_cached_rule small_world "acme" ≡ none
unfolding get_cached_rule
not_cached = refl

evaluates_to_allow :
    (evaluate_governance unary_codec 0 small_world "acme" "gpt-4o" 600 none).1 ≡ some allowed
unfolding evaluate_governance experiment_query_fails proxies get_active_rules_for_tenant
    rule_to_dict get_current_usage first_match apply_rule is_ready init
evaluates_to_allow = refl

evaluate_governance-allow_example :
    IsQuiet (view daily_rule) "gpt-4o" 600 (usage noon "acme" small_world.quota)
evaluate_governance-allow_example =
    evaluate_governance-allow unary_codec unary_codec-IsFaithful 0 small_world "acme" "gpt-4o" 600
      none no_experiment not_cached evaluates_to_allow refl daily_rule (inl refl)
      daily_rule-IsEligible

never-Redirects :
    (r : Rule) (to : String)
    → In r small_world.rules
    → IsEligible 43200 "acme" r
    → ¬ Redirects (view r) "gpt-4o" to
never-Redirects r to m e red =
    absurd (let q = ap (λ (x : Rule). x.rule_type) (only_rule r m) ∙ red.kind in cc)

forbidden_call : Forbids (view daily_rule) "gpt-4o" 1001 (usage noon "acme" small_world.quota)
unfolding usage
forbidden_call = over_daily_limit 1000 refl refl (omega arith) (omega arith)

evaluate_governance-block_example :
    (g : GovernanceResult) × ((evaluate_governance unary_codec 0 small_world "acme" "gpt-4o" 1001
        none).1
      ≡ some g)
    × (g.decision ≡ block)
evaluate_governance-block_example =
    evaluate_governance-block unary_codec unary_codec-IsFaithful 0 small_world "acme" "gpt-4o" 1001
      none no_experiment not_cached refl refl never-Redirects daily_rule (inl refl)
      daily_rule-IsEligible forbidden_call

sanitize_request-IsClean_example :
    IsClean (λ s. s) (sanitize_request (some plain_models) (call_of 5)).metadata
sanitize_request-IsClean_example =
    sanitize_request-IsClean plain_models (call_of 5)
      (record { prompt = refl; pii = refl; flagged = refl; score = refl })
