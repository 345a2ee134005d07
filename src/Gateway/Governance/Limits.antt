-- ===== src/Gateway/Governance/Limits.antt =====
-- What an evaluation promises about the rules in the table.
use llm_dashboard.Base.{
  refl, Bool-cases, if◌then◌else◌, ℕ, ◌≡◌, ◌∙◌, inl, inr, true, Option, none, some, List, [], ◌∷◌,
  map, String, arith, In, All, All_at, In-middle, In-map, In-map_inv, Option-cases,
}
use llm_dashboard.Gateway.Rules.{RuleProxy, Usage, GovernanceResult, allow, block, first_match}
use llm_dashboard.Gateway.Rules.Limits.{IsQuiet, Forbids, Redirects, forbidden, redirected}
use llm_dashboard.Gateway.Rules.Order.{first_match-none, first_match-IsDecidedBy}
use llm_dashboard.Gateway.RuleStore.{Codec, IsFaithful, Rule, get_active_rules_for_tenant}
use llm_dashboard.Gateway.RuleStore.RoundTrip.{view, proxies-map}
use llm_dashboard.Gateway.RuleStore.Selection.{IsEligible, get_active_rules_for_tenant-IsEligible}
use llm_dashboard.Gateway.World.{World}
use llm_dashboard.Gateway.Governance.{
  get_cached_rule, set_cached_rule, load_rules, experiment_decision, experiment_query_fails, decide,
  evaluate_rules, evaluate_governance,
}
use llm_dashboard.Quota.{usage, get_current_usage}

-- On a cache miss the engine sees exactly the active rules of the table for the tenant, or the
-- database fails.
load_rules_miss :
    (c : Codec) (f : IsFaithful c) (w : World) (tenant : String)
    → get_cached_rule w tenant ≡ none
    → (load_rules c w tenant).1 ≡ (
        if w.db_up
        then some (map view (get_active_rules_for_tenant w.clock.now tenant w.rules))
        else none)
unfolding load_rules
load_rules_miss c f w tenant miss =
    ground (arith, proxies-map c f (get_active_rules_for_tenant w.clock.now tenant w.rules))

decide_allow :
    (w : World) (rules : List RuleProxy) (tenant model : String) (tokens : ℕ) {g : GovernanceResult}
    → evaluate_rules w rules tenant model tokens ≡ some g
    → g.decision ≡ allow
    → All (λ r. IsQuiet r model tokens (usage w.clock tenant w.quota)) rules
unfolding evaluate_rules decide get_current_usage
decide_allow w [] tenant model tokens h d = tt
decide_allow w (r ∷ rules) tenant model tokens {g} h d =
    let u = usage w.clock tenant w.quota in
    elim (Option-cases (first_match (r ∷ rules) model tokens u)) [
      | inl e ↦ first_match-none model tokens u (r ∷ rules) e
      | inr (g', e) ↦
          let q : g' ≡ g = ground arith in
          absurd (elim ((first_match-IsDecidedBy model tokens u (r ∷ rules) e).decides) [
            | forbidden _ b ↦ let p = b.decision in ground arith
            | redirected _ k _ ↦ ground arith
          ])
    ]

-- An evaluation that ends without an experiment has loaded rules and evaluated them.
pub evaluate_governance_rules :
    (c : Codec) (draw : ℕ) (w : World) (tenant model : String) (tokens : ℕ) (prompt : Option String)
    {g : GovernanceResult}
    → experiment_decision draw w tenant model prompt ≡ none
    → (evaluate_governance c draw w tenant model tokens prompt).1 ≡ some g
    → (rules : List RuleProxy) × ((load_rules c w tenant).1 ≡ some rules)
      × (evaluate_rules (load_rules c w tenant).0 rules tenant model tokens ≡ some g)
unfolding evaluate_governance
evaluate_governance_rules c draw w tenant model tokens prompt plain h =
    elim (Bool-cases (experiment_query_fails w prompt)) [
      | inl fails ↦ absurd (ground arith)
      | inr runs ↦ elim (Option-cases (load_rules c w tenant).1) [
        | inl failed ↦ absurd (ground arith)
        | inr (rules, loaded) ↦ (rules, loaded, ground arith)
      ]
    ]

-- With the database up, the loaded rules are evaluated.
evaluate_governance_loaded :
    (c : Codec) (draw : ℕ) (w : World) (tenant model : String) (tokens : ℕ) (prompt : Option String)
    → w.db_up ≡ true
    → experiment_decision draw w tenant model prompt ≡ none
    → {rules : List RuleProxy} → (load_rules c w tenant).1 ≡ some rules
    → (evaluate_governance c draw w tenant model tokens prompt).1
      ≡ evaluate_rules (load_rules c w tenant).0 rules tenant model tokens
unfolding evaluate_governance experiment_query_fails
evaluate_governance_loaded c draw w tenant model tokens prompt up plain {rules} l = ground arith

-- The rules, the counters and the clock are not the cache's to change.
load_rules_keeps :
    (c : Codec) (w : World) (tenant : String)
    → let w' = (load_rules c w tenant).0 in
      (w'.quota ≡ w.quota)
      × (w'.clock ≡ w.clock)
      × (w'.quota_up ≡ w.quota_up)
      × (w'.router ≡ w.router)
      × (w'.rules ≡ w.rules)
unfolding load_rules set_cached_rule
load_rules_keeps c w tenant = ground arith

first_match_block :
    (rules : List RuleProxy) (model : String) (tokens : ℕ) (u : Usage) (r : RuleProxy)
    → ((x : RuleProxy) (to : String) → In x rules → ¬ Redirects x model to)
    → In r rules
    → Forbids r model tokens u
    → (g : GovernanceResult) × (first_match rules model tokens u ≡ some g) × (g.decision ≡ block)
first_match_block rules model tokens u r plain i forbids =
    elim (Option-cases (first_match rules model tokens u)) [
      | inl e ↦ absurd (
          (All_at (λ x. IsQuiet x model tokens u) r rules (first_match-none model tokens u rules e)
              i).permits
            forbids)
      | inr (g, e) ↦
          let d = first_match-IsDecidedBy model tokens u rules e in
          (
            g,
            e,
            elim (d.decides) [
              | forbidden _ b ↦ b.decision
              | redirected w _ _ ↦
                  absurd
                    (plain d.rule g.model_to_use (rw d.split (In-middle d.rule d.before d.after)) w)
            ],
          )
    ]

evaluate_rules_block :
    (w : World) (rules : List RuleProxy) (tenant model : String) (tokens : ℕ) (r : RuleProxy)
    → w.quota_up ≡ true
    → ((x : RuleProxy) (to : String) → In x rules → ¬ Redirects x model to)
    → In r rules
    → Forbids r model tokens (usage w.clock tenant w.quota)
    → (g : GovernanceResult) × (evaluate_rules w rules tenant model tokens ≡ some g)
      × (g.decision ≡ block)
unfolding evaluate_rules decide get_current_usage
evaluate_rules_block w [] tenant model tokens r up plain i forbids = absurd i
evaluate_rules_block w (x ∷ rules) tenant model tokens r up plain i forbids =
    let (g, e, d) =
      first_match_block (x ∷ rules) model tokens (usage w.clock tenant w.quota) r plain i forbids in
    (g, ground arith, d)

module _ (c : Codec) (f : IsFaithful c) (draw : ℕ) (w : World) (tenant model : String) (tokens : ℕ)
    (prompt : Option String) (plain : experiment_decision draw w tenant model prompt ≡ none)
    (miss : get_cached_rule w tenant ≡ none) where
  abbrev seen : List RuleProxy
  seen = map view (get_active_rules_for_tenant w.clock.now tenant w.rules)

  -- Where no experiment takes over and the rules are read from the table, a plain allow means that
  -- every rule of the table that applies to the tenant at this time leaves the call alone: it
  -- neither forbids it at the tenant's current usage nor redirects it.
  pub evaluate_governance-allow :
      {g : GovernanceResult}
      → (evaluate_governance c draw w tenant model tokens prompt).1 ≡ some g
      → g.decision ≡ allow
      → (r : Rule) → In r w.rules
      → IsEligible w.clock.now tenant r
      → IsQuiet (view r) model tokens (usage w.clock tenant w.quota)
  evaluate_governance-allow {g} h d r i e =
      let (rules, loaded, run) =
        evaluate_governance_rules c draw w tenant model tokens prompt plain h in
      let table = load_rules_miss c f w tenant miss in
      let same : rules ≡ seen = ground arith in
      let (q, k, _, _, _) = load_rules_keeps c w tenant in
      let all =
        decide_allow (load_rules c w tenant).0 seen tenant model tokens (rw same at run) d in
      let read =
        ((get_active_rules_for_tenant-IsEligible w.clock.now tenant w.rules).0 r).1 (i, e) in
      let here =
        All_at
          (λ x.
            IsQuiet x model tokens
              (usage (load_rules c w tenant).0.clock tenant (load_rules c w tenant).0.quota))
          (view r) seen all (In-map view r _ read) in
      rw (q, k) at here

  -- Where no experiment takes over, the rules are read from the table, the counters and the database
  -- answer, and no rule that applies to the tenant redirects the model, a rule that applies and
  -- forbids the call makes the evaluation block it.
  pub evaluate_governance-block :
      w.quota_up ≡ true
      → w.db_up ≡ true
      → ((r : Rule) (to : String)
          → In r w.rules
          → IsEligible w.clock.now tenant r
          → ¬ Redirects (view r) model to)
      → (r : Rule) → In r w.rules
      → IsEligible w.clock.now tenant r
      → Forbids (view r) model tokens (usage w.clock tenant w.quota)
      → (g : GovernanceResult) × ((evaluate_governance c draw w tenant model tokens prompt).1
          ≡ some g)
        × (g.decision ≡ block)
  evaluate_governance-block up db none_redirects r i e forbids =
      let (q, k, u, _, _) = load_rules_keeps c w tenant in
      let read = get_active_rules_for_tenant-IsEligible w.clock.now tenant w.rules in
      let (g, h, d) =
        evaluate_rules_block (load_rules c w tenant).0 seen tenant model tokens (view r) (u ∙ up)
          (λ x to m red.
            let (b, m', p) = In-map_inv view x _ m in
            let (ib, eb) = (read.0 b).0 m' in none_redirects b to ib eb (rw p at red))
          (In-map view r _ ((read.0 r).1 (i, e))) (rw (q, k) forbids) in
      (
        g,
        evaluate_governance_loaded c draw w tenant model tokens prompt db plain
              (load_rules_miss c f w tenant miss ∙ rw db refl)
            ∙ h,
        d,
      )
