-- ===== src/Gateway/Fallback/Chain.antt =====
-- The fallback is the first model of the chain whose provider is healthy.
use llm_dashboard.Base.{ℕ, ◌≡◌, Bool, true, false, ◌++◌, Option, none, some, [], ◌∷◌, String}
use llm_dashboard.Gateway.Rules.{GovernanceResult, allow_fallback, fallback}
use llm_dashboard.Gateway.World.{World, DecisionRow, Event, usage_fallback}
use llm_dashboard.Gateway.Fallback.{
  Health, is_healthy, get_provider_for_model, Resolution, no_fallback, flush_failed, use_model,
}

-- The provider of the model counts as healthy.
abbrev pub has_healthy_provider : ℕ → Health → String → Bool
has_healthy_provider now h m = (is_healthy now (get_provider_for_model m) h).1

-- The row of the audit that tells of a fallback.
abbrev pub fallback_row : String → String → String → ℕ → DecisionRow
fallback_row tenant original chosen status = record {
  tenant_id = tenant;
  model_requested = original;
  model_used = some chosen;
  decision = allow_fallback;
  reason = fallback original chosen status;
  rule_id = none;
}

abbrev pub fallback_event : String → String → String → ℕ → Event
fallback_event tenant original chosen status =
    usage_fallback tenant original (get_provider_for_model original) chosen
      (get_provider_for_model chosen) status

-- The fallback that is returned.
abbrev pub fallback_to : String → String → ℕ → GovernanceResult
fallback_to original chosen status = record {
  decision = allow_fallback;
  model_to_use = chosen;
  rule_id = none;
  reason = fallback original chosen status;
}

-- How the resolution ends, given the first model of the chain whose provider is healthy.
pub data FallbackOutcome (tenant original : String) (status : ℕ) (w w' : World)
    : Option String → Resolution → Type 0 where
  without : w' ≡ w → FallbackOutcome tenant original status w w' none no_fallback
  switched :
      (m : String)
      → w.db_up ≡ true
      → w' ≡ record w {
        decisions = fallback_row tenant original m status ∷ w.decisions;
        events = w.events ++ fallback_event tenant original m status ∷ [];
      }
      → FallbackOutcome tenant original status w w'
          (some m)
          (use_model (fallback_to original m status))
  not_written :
      (m : String)
      → w.db_up ≡ false
      → w' ≡ w
      → FallbackOutcome tenant original status w w' (some m) flush_failed

-- The state after a fallback was announced.
abbrev pub with_fallback : String → String → String → ℕ → World → World
with_fallback tenant original m status w = record w {
  decisions = fallback_row tenant original m status ∷ w.decisions;
  events = w.events ++ fallback_event tenant original m status ∷ [];
}
