-- ===== src/Gateway/LogCall/Guard.antt =====
-- A tenant under a daily token limit: what the tables and the rule cache must hold, that a call
-- keeps this, and that a call that goes through fits the limit.
use llm_dashboard.Base.{
  ℕ, ◌+◌, ◌≤◌, ◌<◌, ◌≡◌, ◌≢◌, sym, ◌∙◌, ap, ◌⊎◌, inl, inr, true, none, some, List, [], ◌∷◌, map,
  String, str_eq, eq_iff, arith, Option-cases, Bool-cases, leb, leb→le, In, All_at, In-middle,
  In-map, In-map_inv,
}
use llm_dashboard.Gateway.Rules.{RuleType, RuleProxy, GovernanceResult, Usage, block, first_match}
use llm_dashboard.Gateway.Rules.Limits.{IsQuiet, over_daily_limit, forbidden, redirected}
use llm_dashboard.Gateway.Rules.Order.{first_match-none, first_match-IsDecidedBy}
use llm_dashboard.Gateway.RuleStore.{
  Codec, IsFaithful, Rule, get_active_rules_for_tenant, rule_to_dict, proxies,
}
use llm_dashboard.Gateway.RuleStore.RoundTrip.{view, proxies-map}
use llm_dashboard.Gateway.RuleStore.Selection.{get_active_rules_for_tenant-IsEligible}
use llm_dashboard.Gateway.World.{World, CacheEntry}
use llm_dashboard.Gateway.Governance.{
  get_cached_rule, set_cached_rule, load_rules, get_active_experiment_for_prompt, evaluate_rules,
  decide,
}
use llm_dashboard.Quota.{usage, get_current_usage}

-- The rules that the engine sees hold the limit, and none of them redirects a call.
pub record Holds (limit : ℕ) (rules : List RuleProxy) : Type 0 where
  pub rule : RuleProxy
  pub listed : In rule rules
  pub kind : rule.rule_type ≡ RuleType.tenant_limit
  pub bound : rule.daily_token_limit ≡ some limit
  pub straight : (x : RuleProxy) → In x rules → x.rule_type ≢ RuleType.model_downgrade

-- The table has an active rule without dates that limits the tenant's daily tokens, no rule of
-- the table downgrades a model, no experiment runs for the tenant, and what the rule cache keeps
-- for the tenant holds the limit as well.
pub record IsGuarded (c : Codec) (tenant : String) (limit : ℕ) (w : World) : Type 0 where
  pub rule : Rule
  pub listed : In rule w.rules
  pub kind : rule.rule_type ≡ RuleType.tenant_limit
  pub bound : rule.daily_token_limit ≡ some limit
  pub active : rule.is_active ≡ true
  pub scope : (rule.tenant_id ≡ none) ⊎ (rule.tenant_id ≡ some tenant)
  pub started : rule.effective_from ≡ none
  pub unexpired : rule.effective_until ≡ none
  pub straight : (r : Rule) → In r w.rules → r.rule_type ≢ RuleType.model_downgrade
  pub plain : (p : String) → get_active_experiment_for_prompt tenant p w.experiments ≡ none
  pub cached :
      (e : CacheEntry)
      → w.rule_cache tenant ≡ some e
      → (rules : List RuleProxy) × (proxies c e.rules ≡ some rules) × Holds limit rules

module _ (c : Codec) (f : IsFaithful c) (tenant : String) (limit : ℕ) where
  -- What is read from the table holds the limit.
  active_rules-Holds :
      (w : World)
      → IsGuarded c tenant limit w
      → Holds limit (map view (get_active_rules_for_tenant w.clock.now tenant w.rules))
  active_rules-Holds w h =
      let read = (get_active_rules_for_tenant-IsEligible w.clock.now tenant w.rules).0 in
      record {
        rule = view h.rule;
        listed = In-map view h.rule _ (
            (read h.rule).1 (
              h.listed,
              record {
                scope = h.scope;
                active = h.active;
                started = λ t e. absurd (let s = h.started in cc);
                unexpired = λ t e. absurd (let s = h.unexpired in cc);
              },
            ));
        kind = h.kind;
        bound = h.bound;
        straight = λ x m.
            let (r, m', e) = In-map_inv view x _ m in
            λ k. h.straight r ((read r).0 m').0 (ap (λ (y : RuleProxy). y.rule_type) (sym e) ∙ k);
      }

  pub load_rules-Holds :
      (w : World) {rules : List RuleProxy}
      → IsGuarded c tenant limit w
      → (load_rules c w tenant).1 ≡ some rules
      → Holds limit rules
  unfolding load_rules get_cached_rule
  load_rules-Holds w {rules} h loaded = elim (Option-cases (get_cached_rule w tenant)) [
    | inl miss ↦
        let table = proxies-map c f (get_active_rules_for_tenant w.clock.now tenant w.rules) in
        let same : map view (get_active_rules_for_tenant w.clock.now tenant w.rules) ≡ rules =
          ground arith in
        rw (← same) (active_rules-Holds w h)
    | inr (ds, hit) ↦ elim (Option-cases (w.rule_cache tenant)) [
      | inl no_entry ↦ absurd (ground arith)
      | inr (e, here) ↦
          let (kept, p, holds) = h.cached e here in
          let same : kept ≡ rules = ground arith in rw (← same) holds
    ]
  ]

  abbrev pub Cached : World → Type 0
  Cached w =
      (e : CacheEntry)
      → w.rule_cache tenant ≡ some e
      → (rules : List RuleProxy) × (proxies c e.rules ≡ some rules) × Holds limit rules

  -- A world with the same tables and a cache that holds the limit is guarded as well.
  pub IsGuarded-of :
      {w w' : World}
      → IsGuarded c tenant limit w
      → w'.rules ≡ w.rules
      → w'.experiments ≡ w.experiments
      → Cached w'
      → IsGuarded c tenant limit w'
  IsGuarded-of h r x k = record {
    rule = h.rule;
    listed = rw r (h.listed);
    kind = h.kind;
    bound = h.bound;
    active = h.active;
    scope = h.scope;
    started = h.started;
    unexpired = h.unexpired;
    straight = λ y m. h.straight y (rw r at m);
    plain = λ p. rw x (h.plain p);
    cached = k;
  }

  set_cached_rule-Cached :
      (w : World) (u : String)
      → IsGuarded c tenant limit w
      → Cached (
          set_cached_rule w u
            (map (rule_to_dict c) (get_active_rules_for_tenant w.clock.now u w.rules)))
  unfolding set_cached_rule
  set_cached_rule-Cached w u h e q = elim (Bool-cases (w.cache_up)) [
    | inr down ↦ h.cached e (ground arith)
    | inl up ↦ elim (Bool-cases (str_eq u tenant)) [
      | inr other ↦ h.cached e (ground arith)
      | inl same ↦
          let p : u ≡ tenant = (eq_iff u tenant).0 same in
          let k : e.rules
              ≡ map (rule_to_dict c) (get_active_rules_for_tenant w.clock.now tenant w.rules) =
            rw (← p) (ground arith) in
          (
            map view (get_active_rules_for_tenant w.clock.now tenant w.rules),
            rw k (proxies-map c f (get_active_rules_for_tenant w.clock.now tenant w.rules)),
            active_rules-Holds w h,
          )
    ]
  ]

  load_rules_world :
      (w : World) (u : String)
      → ((load_rules c w u).0 ≡ w)
        ⊎ ((load_rules c w u).0
            ≡ set_cached_rule w u
                (map (rule_to_dict c) (get_active_rules_for_tenant w.clock.now u w.rules)))
  unfolding load_rules
  load_rules_world w u = elim (Option-cases (get_cached_rule w u)) [
    | inr (ds, hit) ↦ inl (ground arith)
    | inl miss ↦ elim (Bool-cases w.db_up) [
      | inl up ↦ inr (ground arith)
      | inr down ↦ inl (ground arith)
    ]
  ]

  -- A call of any tenant leaves the guard in place.
  pub load_rules-IsGuarded :
      (w : World) (u : String)
      → IsGuarded c tenant limit w
      → IsGuarded c tenant limit (load_rules c w u).0
  load_rules-IsGuarded w u h = elim (load_rules_world w u) [
    | inl same ↦ rw same h
    | inr stored ↦ rw stored (
        IsGuarded-of h (unfold set_cached_rule in ground arith)
          (unfold set_cached_rule in ground arith) (set_cached_rule-Cached w u h))
  ]

  -- If the loop over such rules does not block a call, the call fits what is left of the limit.
  first_match-fits :
      (rules : List RuleProxy) (model : String) (n : ℕ) (u : Usage)
      → Holds limit rules
      → 0 < limit
      → ((g : GovernanceResult) → first_match rules model n u ≡ some g → g.decision ≢ block)
      → u.daily_tokens + n ≤ limit
  first_match-fits rules model n u h pos open_ = elim (Option-cases (first_match rules model n u)) [
    | inl e ↦
        let quiet =
          All_at (λ x. IsQuiet x model n u) h.rule rules (first_match-none model n u rules e)
            h.listed in
        elim (Bool-cases (leb (u.daily_tokens + n) limit)) [
          | inl le ↦ leb→le _ _ le
          | inr gt ↦
              absurd (quiet.permits (over_daily_limit limit h.kind h.bound pos (ground arith)))
        ]
    | inr (g, e) ↦
        let d = first_match-IsDecidedBy model n u rules e in
        absurd (elim (d.decides) [
          | forbidden _ b ↦ open_ g e b.decision
          | redirected w _ _ ↦
              h.straight d.rule (rw d.split (In-middle d.rule d.before d.after)) w.kind
        ])
  ]

  pub evaluate_rules-fits :
      (w : World) (rules : List RuleProxy) (model : String) (n : ℕ) {g : GovernanceResult}
      → Holds limit rules
      → 0 < limit
      → evaluate_rules w rules tenant model n ≡ some g
      → g.decision ≢ block
      → (usage w.clock tenant w.quota).daily_tokens + n ≤ limit
  unfolding evaluate_rules decide get_current_usage
  evaluate_rules-fits w [] model n h pos e d = absurd h.listed
  evaluate_rules-fits w (r ∷ rules) model n {g} h pos e d =
      first_match-fits (r ∷ rules) model n (usage w.clock tenant w.quota) h pos (λ g' e'. λ b.
        d (let q : g' ≡ g = ground arith in ap (λ (x : GovernanceResult). x.decision) (sym q) ∙ b))
