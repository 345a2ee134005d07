-- ===== src/Gateway/Rules/Limits.antt =====
-- What a rule forbids, stated apart from the code of `_apply_rule`, and the loop over the rules.
use llm_dashboard.Base.{
  ℕ, ◌+◌, ◌≤◌, ◌<◌, ◌≡◌, refl, ◌≢◌, ◌⊎◌, inl, inr, true, none, some, String, arith, eq_iff, eq_refl,
  Option-cases,
}
use llm_dashboard.Gateway.Rules.{
  RuleType, Decision, Decision-discrete, model_matches, downgraded, RuleProxy, Reason,
  model_blocked, request_too_large, daily_limit_exceeded, budget_reached, Usage, GovernanceResult,
  block, allow_downgrade, apply_rule, dispatch,
}

-- The rule names every model, or this one.
abbrev pub Covers : RuleProxy → String → Type 0
Covers r model = (r.model_name ≡ none) ⊎ (r.model_name ≡ some model)

-- The ways in which a rule forbids a call. A limit of 0 counts as no limit.
pub data Forbids (r : RuleProxy) (model : String) (tokens : ℕ) (usage : Usage) : Type 0 where
  blocked_model : r.rule_type ≡ RuleType.model_block → Covers r model → Forbids r model tokens usage
  too_large :
      (limit : ℕ)
      → r.rule_type ≡ RuleType.rate_limit
      → r.max_tokens_per_request ≡ some limit
      → 0 < limit
      → limit < tokens
      → Forbids r model tokens usage
  over_daily_limit :
      (limit : ℕ)
      → r.rule_type ≡ RuleType.tenant_limit
      → r.daily_token_limit ≡ some limit
      → 0 < limit
      → limit < usage.daily_tokens + tokens
      → Forbids r model tokens usage
  over_budget :
      (budget : ℕ)
      → r.rule_type ≡ RuleType.budget_cap
      → r.monthly_budget_usd ≡ some budget
      → 0 < budget
      → budget ≤ usage.monthly_cost_usd
      → Forbids r model tokens usage

-- The rule sends the call to another model.
pub record Redirects (r : RuleProxy) (model cheaper : String) : Type 0 where
  pub kind : r.rule_type ≡ RuleType.model_downgrade
  pub covers : Covers r model
  pub target : r.downgrade_to_model ≡ some cheaper
  pub named : cheaper ≢ ""

-- The result blocks the call for this rule, under the model that was asked for.
pub record IsBlockBy (r : RuleProxy) (asked : String) (g : GovernanceResult) : Type 0 where
  pub decision : g.decision ≡ block
  pub model : g.model_to_use ≡ asked
  pub rule : g.rule_id ≡ r.id

abbrev blocked_for : RuleProxy → String → Reason → GovernanceResult
blocked_for r model why = record {
  decision = block;
  model_to_use = model;
  rule_id = r.id;
  reason = why;
}

-- A rule that forbids the call blocks it, under its own identifier.
pub Forbids-apply_rule :
    {r : RuleProxy} {model : String} {tokens : ℕ} {usage : Usage}
    → Forbids r model tokens usage
    → (g : GovernanceResult) × (apply_rule r model tokens usage ≡ some g) × IsBlockBy r model g
unfolding apply_rule
Forbids-apply_rule {r} {model} (blocked_model k (inl e)) = (
  blocked_for r model (model_blocked model),
  ground arith,
  record { decision = refl; model = refl; rule = refl },
)
Forbids-apply_rule {r} {model} (blocked_model k (inr e)) = (
  blocked_for r model (model_blocked model),
  ground (arith, eq_refl model),
  record { decision = refl; model = refl; rule = refl },
)
Forbids-apply_rule {r} {model} {tokens} (too_large limit k e p h) = (
  blocked_for r model (request_too_large tokens limit),
  ground arith,
  record { decision = refl; model = refl; rule = refl },
)
Forbids-apply_rule {r} {model} {tokens} {usage} (over_daily_limit limit k e p h) = (
  blocked_for r model (daily_limit_exceeded limit usage.daily_tokens tokens),
  ground arith,
  record { decision = refl; model = refl; rule = refl },
)
Forbids-apply_rule {r} {model} {tokens} {usage} (over_budget budget k e p h) = (
  blocked_for r model (budget_reached budget usage.monthly_cost_usd),
  ground arith,
  record { decision = refl; model = refl; rule = refl },
)

dispatch_block :
    (k : RuleType) (r : RuleProxy) (model : String) (tokens : ℕ) (usage : Usage)
    {g : GovernanceResult}
    → r.rule_type ≡ k
    → dispatch k r model tokens usage ≡ some g
    → g.decision ≡ block
    → Forbids r model tokens usage
unfolding dispatch
dispatch_block RuleType.model_block r model tokens usage k h b = elim (Option-cases r.model_name) [
  | inl e ↦ blocked_model k (inl e)
  | inr (m, e) ↦ blocked_model k (inr (ground (arith, eq_iff m model)))
]
dispatch_block RuleType.rate_limit r model tokens usage k h b =
    elim (Option-cases r.max_tokens_per_request) [
      | inl e ↦ absurd (ground arith)
      | inr (m, e) ↦ too_large m k e (ground arith) (ground arith)
    ]
dispatch_block RuleType.tenant_limit r model tokens usage k h b =
    elim (Option-cases r.daily_token_limit) [
      | inl e ↦ absurd (ground arith)
      | inr (m, e) ↦ over_daily_limit m k e (ground arith) (ground arith)
    ]
dispatch_block RuleType.budget_cap r model tokens usage k h b =
    elim (Option-cases r.monthly_budget_usd) [
      | inl e ↦ absurd (ground arith)
      | inr (m, e) ↦ over_budget m k e (ground arith) (ground arith)
    ]
dispatch_block RuleType.model_downgrade r model tokens usage k h b = absurd (ground arith)
dispatch_block (RuleType.other _) r model tokens usage k h b = cc

model_matches-Covers :
    (r : RuleProxy) (model : String) → model_matches r model ≡ true → Covers r model
unfolding model_matches
model_matches-Covers r model h = elim (Option-cases r.model_name) [
  | inl e ↦ inl e
  | inr (m, e) ↦ inr (ground (arith, eq_iff m model))
]

Redirects-apply_rule :
    {r : RuleProxy} {model cheaper : String} (tokens : ℕ) (usage : Usage)
    → Redirects r model cheaper
    → apply_rule r model tokens usage
      ≡ some (record {
        decision = allow_downgrade;
        model_to_use = cheaper;
        rule_id = r.id;
        reason = downgraded model cheaper;
      })
unfolding apply_rule
Redirects-apply_rule {r} {model} {cheaper} tokens usage w = elim (w.covers) [
  | inl e ↦
      let k = w.kind in let t = w.target in let n = w.named in ground (arith, eq_iff cheaper "")
  | inr e ↦
      let k = w.kind in
      let t = w.target in let n = w.named in ground (arith, eq_iff cheaper "", eq_refl model)
]

dispatch_ne_block :
    (k : RuleType) (r : RuleProxy) (model : String) (tokens : ℕ) (usage : Usage)
    {g : GovernanceResult}
    → r.rule_type ≡ k
    → dispatch k r model tokens usage ≡ some g
    → g.decision ≢ block
    → (cheaper : String) × Redirects r model cheaper
      × (g.model_to_use ≡ cheaper)
      × (g.decision ≡ allow_downgrade)
unfolding dispatch
dispatch_ne_block RuleType.model_block r model tokens usage k h b = absurd (ground arith)
dispatch_ne_block RuleType.rate_limit r model tokens usage k h b = absurd (ground arith)
dispatch_ne_block RuleType.tenant_limit r model tokens usage k h b = absurd (ground arith)
dispatch_ne_block RuleType.budget_cap r model tokens usage k h b = absurd (ground arith)
dispatch_ne_block RuleType.model_downgrade r model tokens usage k h b =
    elim (Option-cases r.downgrade_to_model) [
      | inl e ↦ absurd (ground arith)
      | inr (c, e) ↦ (
        c,
        record {
          kind = k;
          covers = model_matches-Covers r model (ground arith);
          target = e;
          named = ground (arith, eq_iff c "");
        },
        ground arith,
        ground arith,
      )
    ]
dispatch_ne_block (RuleType.other _) r model tokens usage k h b = cc

-- The rule leaves the call alone.
pub record IsQuiet (r : RuleProxy) (model : String) (tokens : ℕ) (usage : Usage) : Type 0 where
  pub permits : ¬ Forbids r model tokens usage
  pub keeps : (cheaper : String) → ¬ Redirects r model cheaper

-- A rule that does not trigger neither forbids the call nor redirects it.
pub apply_rule-IsQuiet :
    (r : RuleProxy) (model : String) (tokens : ℕ) (usage : Usage)
    → apply_rule r model tokens usage ≡ none
    → IsQuiet r model tokens usage
apply_rule-IsQuiet r model tokens usage h = record {
  permits = λ f. let (g, e, _) = Forbids-apply_rule f in cc;
  keeps = λ c w. cc (Redirects-apply_rule tokens usage w);
}

Decision-cases : (d : Decision) → (d ≡ block) ⊎ (d ≢ block)
Decision-cases d = elim (Decision-discrete d block) [ yes p ↦ inl p | no n ↦ inr n ]

dispatch_result :
    (k : RuleType) (r : RuleProxy) (model : String) (tokens : ℕ) (usage : Usage)
    {g : GovernanceResult}
    → dispatch k r model tokens usage ≡ some g
    → (g.rule_id ≡ r.id) × (g.decision ≡ block → g.model_to_use ≡ model)
unfolding dispatch
dispatch_result RuleType.model_block r model tokens usage h = (ground arith, λ b. ground arith)
dispatch_result RuleType.rate_limit r model tokens usage h = (ground arith, λ b. ground arith)
dispatch_result RuleType.tenant_limit r model tokens usage h = (ground arith, λ b. ground arith)
dispatch_result RuleType.budget_cap r model tokens usage h = (ground arith, λ b. ground arith)
dispatch_result RuleType.model_downgrade r model tokens usage h = (ground arith, λ b. ground arith)
dispatch_result (RuleType.other _) r model tokens usage h = (cc, λ b. cc)

-- How a rule that triggers comes to its result.
pub data Decides (r : RuleProxy) (model : String) (tokens : ℕ) (usage : Usage)
    (g : GovernanceResult) : Type 0 where
  forbidden : Forbids r model tokens usage → IsBlockBy r model g → Decides r model tokens usage g
  redirected :
      Redirects r model g.model_to_use
      → g.decision ≡ allow_downgrade
      → g.rule_id ≡ r.id
      → Decides r model tokens usage g

-- A rule that triggers forbids the call and blocks it under the model asked for, or redirects it
-- and downgrades it to the named model; either way the result carries the rule's identifier.
pub apply_rule-Decides :
    (r : RuleProxy) (model : String) (tokens : ℕ) (usage : Usage) {g : GovernanceResult}
    → apply_rule r model tokens usage ≡ some g
    → Decides r model tokens usage g
unfolding apply_rule
apply_rule-Decides r model tokens usage {g} h =
    let (rule, same) = dispatch_result r.rule_type r model tokens usage h in
    elim (Decision-cases g.decision) [
      | inl b ↦
          forbidden (dispatch_block r.rule_type r model tokens usage refl h b)
            (record { decision = b; model = same b; rule = rule })
      | inr n ↦
          let (c, w, to, d) = dispatch_ne_block r.rule_type r model tokens usage refl h n in
          redirected (rw to w) d rule
    ]
