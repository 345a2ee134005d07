-- ===== src/Gateway/LogCall/Tables.antt =====
-- What follows an evaluation changes neither the rules, nor the experiments, nor the rule cache.
use llm_dashboard.Base.{ℕ, ◌≡◌, refl, ◌∙◌, Option, none, some, arith, Bool-cases, inl, inr}
use llm_dashboard.Gateway.Rules.{GovernanceResult, is_blocked, was_downgraded}
use llm_dashboard.Gateway.World.{World, CallRequest, Event, usage_logged, call_logged}
use llm_dashboard.Gateway.LogCall.{
  finish, finish_blocked, finish_allowed, or_internal, persist_log, update_usage_counters, count,
  publish, store_semantic_cache, record_blocked_decision,
}
use llm_dashboard.Quota.{increment_usage}

pub record KeepsTables (w w' : World) : Type 0 where
  pub rules : w'.rules ≡ w.rules
  pub experiments : w'.experiments ≡ w.experiments
  pub rule_cache : w'.rule_cache ≡ w.rule_cache

KeepsTables-trans : {u v w : World} → KeepsTables u v → KeepsTables v w → KeepsTables u w
KeepsTables-trans h k = record {
  rules = k.rules ∙ h.rules;
  experiments = k.experiments ∙ h.experiments;
  rule_cache = k.rule_cache ∙ h.rule_cache;
}

persist_log-KeepsTables :
    (r : CallRequest) (g : GovernanceResult) (id : ℕ) (w : World)
    → KeepsTables w (persist_log r g id w)
unfolding persist_log
persist_log-KeepsTables r g id w = ground arith

count_tables : (r : CallRequest) (w : World) → KeepsTables w (update_usage_counters r w)
unfolding update_usage_counters count increment_usage
count_tables r w = ground arith

store-KeepsTables : (r : CallRequest) (w : World) → KeepsTables w (store_semantic_cache r w)
unfolding store_semantic_cache
store-KeepsTables r w = ground arith

publish-KeepsTables : (e : Event) (w : World) → KeepsTables w (publish e w)
unfolding publish
publish-KeepsTables e w = record { rules = refl; experiments = refl; rule_cache = refl }

finish_blocked-KeepsTables :
    (r : CallRequest) (g : GovernanceResult) (w : World)
    → KeepsTables w (or_internal r (finish_blocked r g w)).0
unfolding or_internal finish_blocked record_blocked_decision publish
finish_blocked-KeepsTables r g w = ground arith

finish_allowed-KeepsTables :
    (r : CallRequest) (g : GovernanceResult) (id : ℕ) (w : World)
    → KeepsTables w (finish_allowed r g id w).0
unfolding finish_allowed
finish_allowed-KeepsTables r g id w =
    let logged = update_usage_counters r (persist_log r g id w) in
    let first =
      publish
        (call_logged id r.tenant_id g.model_to_use r.total_tokens (was_downgraded g) g.rule_id)
        logged in
    let second = publish (usage_logged id r.tenant_id g.model_to_use r.total_tokens) first in
    KeepsTables-trans (persist_log-KeepsTables r g id w) (
      KeepsTables-trans (count_tables r (persist_log r g id w)) (
        KeepsTables-trans (publish-KeepsTables _ logged)
          (KeepsTables-trans (publish-KeepsTables _ first) (store-KeepsTables r second))))

pub finish-KeepsTables :
    (r : CallRequest) (id : ℕ) (w : World) (o : Option GovernanceResult)
    → KeepsTables w (finish r id (w, o)).0
unfolding finish
finish-KeepsTables r id w none = record { rules = refl; experiments = refl; rule_cache = refl }
finish-KeepsTables r id w (some g) = elim (Bool-cases (is_blocked g)) [
  | inl b ↦ rw b (finish_blocked-KeepsTables r g w)
  | inr a ↦ rw a (finish_allowed-KeepsTables r g id w)
]
