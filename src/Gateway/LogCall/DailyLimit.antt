-- ===== src/Gateway/LogCall/DailyLimit.antt =====
-- A call that is logged fits its tenant's daily limit, and every call keeps the guard in place.
use llm_dashboard.Base.{
  ℕ, ◌+◌, ◌≤◌, ◌<◌, ◌≡◌, ◌≢◌, refl, ◌⊎◌, inl, inr, false, Option, none, some, String, arith,
  Option-cases, Bool-cases,
}
use llm_dashboard.Gateway.Rules.{GovernanceResult, is_blocked, block, truthy_text}
use llm_dashboard.Gateway.RuleStore.{Codec, IsFaithful}
use llm_dashboard.Gateway.World.{World, CallRequest, CallResult}
use llm_dashboard.Gateway.Governance.{
  load_rules, experiment_decision, experiment_query_fails, evaluate_governance,
  get_active_experiment_for_prompt,
}
use llm_dashboard.Gateway.LogCall.{
  check_semantic_cache, finish, or_internal, finish_blocked, internal_error, process,
}
use llm_dashboard.Gateway.LogCall.Outcome.{load_rules-KeepsBooks}
use llm_dashboard.Gateway.LogCall.Tables.{finish-KeepsTables}
use llm_dashboard.Gateway.LogCall.Guard.{
  IsGuarded, IsGuarded-of, load_rules-Holds, load_rules-IsGuarded, evaluate_rules-fits,
}
use llm_dashboard.Gateway.Governance.Limits.{evaluate_governance_rules}
use llm_dashboard.Quota.{usage}

is_blocked-false : (g : GovernanceResult) → is_blocked g ≡ false → g.decision ≢ block
unfolding is_blocked
is_blocked-false g h = λ d. ground arith

-- A blocked call has no log row.
or_internal_unlogged :
    (r : CallRequest) (g : GovernanceResult) (w : World)
    → (or_internal r (finish_blocked r g w)).1.log_id ≡ none
unfolding or_internal finish_blocked internal_error
or_internal_unlogged r g w = ground arith

check_semantic_cache_unlogged :
    (w : World) (r : CallRequest) {hit : CallResult}
    → check_semantic_cache w r ≡ some hit
    → hit.log_id ≡ none
unfolding check_semantic_cache
check_semantic_cache_unlogged w r e = ground arith

finish_logged :
    (r : CallRequest) (id : ℕ) (w : World) (o : Option GovernanceResult)
    → (finish r id (w, o)).1.log_id ≡ some id
    → (g : GovernanceResult) × (o ≡ some g) × (g.decision ≢ block)
unfolding finish internal_error
finish_logged r id w none h = cc
finish_logged r id w (some g) h = elim (Bool-cases (is_blocked g)) [
  | inl b ↦ absurd (let n = or_internal_unlogged r g w in ground arith)
  | inr a ↦ (g, refl, is_blocked-false g a)
]

experiment_decision_plain :
    (draw : ℕ) (w : World) (tenant model : String) (prompt : Option String)
    → ((p : String) → get_active_experiment_for_prompt tenant p w.experiments ≡ none)
    → experiment_decision draw w tenant model prompt ≡ none
unfolding experiment_decision
experiment_decision_plain draw w tenant model prompt h = elim (Option-cases (truthy_text prompt)) [
  | inl e ↦ rw (e, experiment_decision) refl
  | inr (p, e) ↦ let q = h p in ground arith
]

-- A call that is logged fits what is left of its tenant's limit for the day.
pub process-fits :
    (c : Codec) (f : IsFaithful c) (limit draw id : ℕ) (w : World) (r : CallRequest)
    → 0 < limit
    → IsGuarded c r.tenant_id limit w
    → (process c draw id w r).1.log_id ≡ some id
    → (usage w.clock r.tenant_id w.quota).daily_tokens + r.total_tokens ≤ limit
unfolding process
process-fits c f limit draw id w r pos h l = elim (Option-cases (check_semantic_cache w r)) [
  | inr (hit, e) ↦ absurd (let n = check_semantic_cache_unlogged w r e in ground arith)
  | inl miss ↦
      let e = evaluate_governance c draw w r.tenant_id r.model r.total_tokens r.prompt_name in
      let (g, eg, open_) = finish_logged r id e.0 e.1 (rw (miss, process) at l) in
      let (rules, loaded, run) =
        evaluate_governance_rules c draw w r.tenant_id r.model r.total_tokens r.prompt_name
          (experiment_decision_plain draw w r.tenant_id r.model r.prompt_name h.plain) eg in
      let holds = load_rules-Holds c f r.tenant_id limit w h loaded in
      let k = load_rules-KeepsBooks c w r.tenant_id in
      let fits =
        evaluate_rules-fits c f r.tenant_id limit (load_rules c w r.tenant_id).0 rules r.model
          r.total_tokens holds pos run open_ in
      rw (k.quota, k.clock) at fits
]

-- An evaluation leaves the world as it is, or as loading the rules leaves it.
evaluate_governance_world :
    (c : Codec) (draw : ℕ) (w : World) (u model : String) (n : ℕ) (prompt : Option String)
    → let w' = (evaluate_governance c draw w u model n prompt).0 in
      (w' ≡ w) ⊎ (w' ≡ (load_rules c w u).0)
unfolding evaluate_governance
evaluate_governance_world c draw w u model n prompt =
    elim (Bool-cases (experiment_query_fails w prompt)) [
      | inl fails ↦ inl (ground arith)
      | inr runs ↦ elim (Option-cases (experiment_decision draw w u model prompt)) [
        | inr (g, e) ↦ inl (ground arith)
        | inl e ↦ inr (ground arith)
      ]
    ]

module _ (c : Codec) (f : IsFaithful c) (tenant : String) (limit : ℕ) where
  pub process-IsGuarded :
      (draw id : ℕ) (w : World) (r : CallRequest)
      → IsGuarded c tenant limit w
      → IsGuarded c tenant limit (process c draw id w r).0
  unfolding process
  process-IsGuarded draw id w r h = elim (Option-cases (check_semantic_cache w r)) [
    | inr (hit, e) ↦ rw (e, process) h
    | inl miss ↦
        let e = evaluate_governance c draw w r.tenant_id r.model r.total_tokens r.prompt_name in
        let k = finish-KeepsTables r id e.0 e.1 in
        let g : IsGuarded c tenant limit e.0 =
          elim (evaluate_governance_world c draw w r.tenant_id r.model r.total_tokens
            r.prompt_name) [
              | inl same ↦ rw same h
              | inr loaded ↦ rw loaded (load_rules-IsGuarded c f tenant limit w r.tenant_id h)
            ] in
        rw (miss, process)
          (IsGuarded-of c f tenant limit g k.rules k.experiments (rw (k.rule_cache) (g.cached)))
  ]
