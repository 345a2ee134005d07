-- ===== src/Gateway/Rules.antt =====
-- Governance rules as the engine evaluates them: the columns of a rule and the outcome of a rule
-- (modules/gateway/models.py, modules/gateway/services/gateway_service.py: GovernanceResult,
-- _apply_rule and the loop over the rules in evaluate_governance).
-- Token counts are whole numbers, and an amount of money is a whole number of a smallest unit.
pub mod Limits
pub mod Order
use llm_dashboard.Base.{
  ℕ, ◌+◌, ◌==◌, Bool, true, false, Option, none, some, List, [], ◌∷◌, String, str_eq, leb, ltb,
  if◌then◌else◌,
}

-- `other` is any other text in the column.
pub data RuleType : Type 0 where
  tenant_limit model_block budget_cap rate_limit model_downgrade : RuleType
  other : String → RuleType

-- `ab_test` is the text "ab_test_B" (true) or "ab_test_A" (false).
pub data Decision : Type 0 where
  allow allow_downgrade allow_fallback block : Decision
  ab_test : Bool → Decision

pub Decision-discrete : Discrete Decision
Decision-discrete = hlevel

-- The explanation, by the values that its text shows.
pub data Reason : Type 0 where
  no_rules no_match : Reason
  model_blocked : String → Reason
  request_too_large budget_reached : ℕ → ℕ → Reason
  daily_limit_exceeded : ℕ → ℕ → ℕ → Reason
  downgraded : String → String → Reason
  smart_routed : String → Reason
  experiment_active : String → Bool → ℕ → Reason
  fallback : String → String → ℕ → Reason

-- The dict that `_dict_to_rule_proxy` builds.
pub record RuleProxy : Type 0 where
  pub id : Option ℕ
  pub rule_type : RuleType
  pub tenant_id : Option String
  pub model_name : Option String
  pub daily_token_limit : Option ℕ
  pub monthly_token_limit : Option ℕ
  pub monthly_budget_usd : Option ℕ
  pub max_tokens_per_request : Option ℕ
  pub priority : ℕ
  pub downgrade_to_model : Option String

pub record Usage : Type 0 where
  pub daily_tokens : ℕ
  pub monthly_tokens : ℕ
  pub daily_cost_usd : ℕ
  pub monthly_cost_usd : ℕ

pub record GovernanceResult : Type 0 where
  pub decision : Decision
  pub model_to_use : String
  pub rule_id : Option ℕ
  pub reason : Reason

unfoldable pub is_allowed : GovernanceResult → Bool
is_allowed r = elim (r.decision) [ allow ↦ true | allow_downgrade ↦ true | _ ↦ false ]

unfoldable pub is_blocked : GovernanceResult → Bool
is_blocked r = elim (r.decision) [ block ↦ true | _ ↦ false ]

unfoldable pub was_downgraded : GovernanceResult → Bool
was_downgraded r = elim (r.decision) [ allow_downgrade ↦ true | _ ↦ false ]

-- A number that is tested as a condition: 0 counts as missing.
abbrev pub truthy : Option ℕ → Option ℕ
truthy none = none
truthy (some n) = if n == 0 then none else some n

-- A text that is tested as a condition: the empty text counts as missing.
abbrev pub truthy_text : Option String → Option String
truthy_text none = none
truthy_text (some s) = if str_eq s "" then none else some s

-- The rule is for every model, or for this one.
unfoldable pub model_matches : RuleProxy → String → Bool
model_matches r model = elim (r.model_name) [ none ↦ true | some m ↦ str_eq m model ]

unfoldable pub apply_model_block : RuleProxy → String → Option GovernanceResult
unfolding model_matches
apply_model_block r model =
    if model_matches r model
    then some (record {
      decision = block;
      model_to_use = model;
      rule_id = r.id;
      reason = model_blocked model;
    })
    else none

unfoldable pub apply_rate_limit : RuleProxy → String → ℕ → Option GovernanceResult
apply_rate_limit r model tokens = elim (truthy r.max_tokens_per_request) [
  | none ↦ none
  | some limit ↦
      if ltb limit tokens
      then some (record {
        decision = block;
        model_to_use = model;
        rule_id = r.id;
        reason = request_too_large tokens limit;
      })
      else none
]

unfoldable pub apply_tenant_limit : RuleProxy → String → ℕ → Usage → Option GovernanceResult
apply_tenant_limit r model tokens usage = elim (truthy r.daily_token_limit) [
  | none ↦ none
  | some limit ↦
      if ltb limit (usage.daily_tokens + tokens)
      then some (record {
        decision = block;
        model_to_use = model;
        rule_id = r.id;
        reason = daily_limit_exceeded limit usage.daily_tokens tokens;
      })
      else none
]

unfoldable pub apply_budget_cap : RuleProxy → String → Usage → Option GovernanceResult
apply_budget_cap r model usage = elim (truthy r.monthly_budget_usd) [
  | none ↦ none
  | some budget ↦
      if leb budget usage.monthly_cost_usd
      then some (record {
        decision = block;
        model_to_use = model;
        rule_id = r.id;
        reason = budget_reached budget usage.monthly_cost_usd;
      })
      else none
]

unfoldable pub apply_model_downgrade : RuleProxy → String → Option GovernanceResult
unfolding model_matches
apply_model_downgrade r model =
    if model_matches r model
    then elim (truthy_text r.downgrade_to_model) [
      | none ↦ none
      | some cheaper ↦ some (record {
        decision = allow_downgrade;
        model_to_use = cheaper;
        rule_id = r.id;
        reason = downgraded model cheaper;
      })
    ]
    else none

-- The `if`/`elif` chain over the rule's type.
unfoldable pub dispatch : RuleType → RuleProxy → String → ℕ → Usage → Option GovernanceResult
unfolding apply_model_block apply_rate_limit apply_tenant_limit apply_budget_cap
    apply_model_downgrade
dispatch RuleType.model_block r model tokens usage = apply_model_block r model
dispatch RuleType.rate_limit r model tokens usage = apply_rate_limit r model tokens
dispatch RuleType.tenant_limit r model tokens usage = apply_tenant_limit r model tokens usage
dispatch RuleType.budget_cap r model tokens usage = apply_budget_cap r model usage
dispatch RuleType.model_downgrade r model tokens usage = apply_model_downgrade r model
dispatch (RuleType.other _) r model tokens usage = none

-- `_apply_rule`: `none` means that the rule does not trigger.
unfoldable pub apply_rule : RuleProxy → String → ℕ → Usage → Option GovernanceResult
unfolding dispatch
apply_rule r model tokens usage = dispatch r.rule_type r model tokens usage

-- `for rule in rules`: the first rule that triggers decides.
unfoldable pub first_match : List RuleProxy → String → ℕ → Usage → Option GovernanceResult
first_match [] model tokens usage = none
first_match (r ∷ rules) model tokens usage = elim (apply_rule r model tokens usage) [
  | none ↦ first_match rules model tokens usage
  | some result ↦ some result
]
