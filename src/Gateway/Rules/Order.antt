-- ===== src/Gateway/Rules/Order.antt =====
-- The loop over the rules: the first rule that triggers decides, and a call that no rule stops
-- meets every rule.
use llm_dashboard.Base.{
  ℕ, ◌≡◌, refl, none, some, List, [], ◌∷◌, ◌++◌, String, All, arith, Option-cases, inl, inr,
}
use llm_dashboard.Gateway.Rules.{RuleProxy, Usage, GovernanceResult, apply_rule, first_match}
use llm_dashboard.Gateway.Rules.Limits.{IsQuiet, Decides, apply_rule-IsQuiet, apply_rule-Decides}

-- The rules split at the one that decides: those before it leave the call alone.
pub record IsDecidedBy (rules : List RuleProxy) (model : String) (tokens : ℕ) (usage : Usage)
    (g : GovernanceResult) : Type 0 where
  pub before : List RuleProxy
  pub rule : RuleProxy
  pub after : List RuleProxy
  pub split : rules ≡ before ++ rule ∷ after
  pub quiet : All (λ r. IsQuiet r model tokens usage) before
  pub decides : Decides rule model tokens usage g

module _ (model : String) (tokens : ℕ) (usage : Usage) where
  -- If the loop over the rules returns a result, the list splits into rules that leave the call
  -- alone, a rule that decides the call with this result, and the rest.
  pub first_match-IsDecidedBy :
      (rules : List RuleProxy) {g : GovernanceResult}
      → first_match rules model tokens usage ≡ some g
      → IsDecidedBy rules model tokens usage g
  unfolding first_match
  first_match-IsDecidedBy [] h = cc
  first_match-IsDecidedBy (r ∷ rules) {g} h =
      elim (Option-cases (apply_rule r model tokens usage)) [
        | inl e ↦
            let d = first_match-IsDecidedBy rules {g = g} (rw (← h) (ground arith)) in
            record {
              before = r ∷ d.before;
              rule = d.rule;
              after = d.after;
              split = rw (d.split);
              quiet = (apply_rule-IsQuiet r model tokens usage e, d.quiet);
              decides = d.decides;
            }
        | inr (g', e) ↦ record {
          before = [];
          rule = r;
          after = rules;
          split = refl;
          quiet = tt;
          decides = apply_rule-Decides r model tokens usage (ground arith);
        }
      ]

  -- If the loop finds nothing, every rule leaves the call alone.
  pub first_match-none :
      (rules : List RuleProxy)
      → first_match rules model tokens usage ≡ none
      → All (λ r. IsQuiet r model tokens usage) rules
  unfolding first_match
  first_match-none [] h = tt
  first_match-none (r ∷ rules) h = elim (Option-cases (apply_rule r model tokens usage)) [
    | inl e ↦ (apply_rule-IsQuiet r model tokens usage e, first_match-none rules (ground arith))
    | inr (g, e) ↦ absurd (ground arith)
  ]
