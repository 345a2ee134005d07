-- ===== src/Gateway/Fallback.antt =====
-- What happens when a provider fails: fallback chains and the circuit breaker
-- (modules/gateway/services/mode_router.py) and resolve_fallback of
-- modules/gateway/services/gateway_service.py. Times are milliseconds. The configuration registry is a map
-- from keys to values; the provider's error message is left out.
pub mod Breaker
pub mod Chain
use Prim.Native.String.{◌++◌ as append}
use llm_dashboard.Base.{
  ℕ, ◌+◌, ◌==◌, Bool, true, false, ◌||◌, Option, none, some, List, [], ◌∷◌, String, str_eq, ltb,
  leb, if◌then◌else◌, head,
}
use llm_dashboard.Gateway.Rules.{GovernanceResult, allow_fallback, fallback}
use llm_dashboard.Gateway.World.{World, DecisionRow, usage_fallback}
use llm_dashboard.Gateway.LogCall.{publish}

-- `MODEL_TO_PROVIDER`
abbrev pub model_to_provider : List (String × String)
model_to_provider =
    ("gpt-4o", "openai")
    ∷ ("gpt-4o-mini", "openai")
    ∷ ("gpt-4-turbo", "openai")
    ∷ ("gpt-3.5-turbo", "openai")
    ∷ ("claude-3-5-sonnet-20241022", "anthropic")
    ∷ ("claude-3-haiku-20240307", "anthropic")
    ∷ ("claude-3-opus-20240229", "anthropic")
    ∷ ("llama-3.3-70b-versatile", "groq")
    ∷ ("llama-3.1-8b-instant", "groq")
    ∷ ("mixtral-8x7b-32768", "groq")
    ∷ ("gemini-1.5-pro", "google")
    ∷ ("gemini-1.5-flash", "google")
    ∷ []

-- `DEFAULT_FALLBACK_CHAINS`
abbrev pub default_fallback_chains : List (String × List String)
default_fallback_chains =
    ("gpt-4o", "claude-3-5-sonnet-20241022" ∷ "llama-3.3-70b-versatile" ∷ [])
    ∷ ("gpt-4o-mini", "claude-3-haiku-20240307" ∷ "llama-3.3-70b-versatile" ∷ [])
    ∷ ("claude-3-5-sonnet-20241022", "gpt-4o" ∷ "llama-3.3-70b-versatile" ∷ [])
    ∷ ("claude-3-haiku-20240307", "gpt-4o-mini" ∷ "llama-3.3-70b-versatile" ∷ [])
    ∷ ("llama-3.3-70b-versatile", "gpt-4o-mini" ∷ "claude-3-haiku-20240307" ∷ [])
    ∷ []

-- `d.get(k, default)`
unfoldable pub lookup {ℓ} : {A : Type ℓ} → A → String → List (String × A) → A
lookup default k [] = default
lookup default k ((j, v) ∷ d) = if str_eq j k then v else lookup default k d

unfoldable pub get_provider_for_model : String → String
unfolding lookup
get_provider_for_model model = lookup "unknown" model model_to_provider

unfoldable pub is_retryable_error : ℕ → Bool
is_retryable_error code =
    code == 429 || (code == 500 || (code == 502 || (code == 503 || code == 504)))

-- A configured chain: a list, or one value that stands for a list.
pub data ConfigValue : Type 0 where
  one : String → ConfigValue
  several : List String → ConfigValue

abbrev pub Config : Type 0
Config = String → Option ConfigValue

-- A configured value as a list; a missing or empty value is none.
unfoldable pub configured : Option ConfigValue → Option (List String)
configured none = none
configured (some (one m)) = if str_eq m "" then none else some (m ∷ [])
configured (some (several [])) = none
configured (some (several (m ∷ ms))) = some (m ∷ ms)

-- The tenant's chain, if there is a tenant.
unfoldable pub tenant_chain : Config → String → String → Option (List String)
unfolding configured
tenant_chain cfg model tenant =
    if str_eq tenant ""
    then none
    else configured (cfg (append "gateway.fallback." (append tenant (append "." model))))

unfoldable pub get_fallback_chain : Config → String → String → List String
unfolding tenant_chain configured lookup
get_fallback_chain cfg model tenant = elim (tenant_chain cfg model tenant) [
  | some chain ↦ chain
  | none ↦ elim (configured (cfg (append "gateway.fallback." model))) [
    | some chain ↦ chain
    | none ↦ lookup [] model default_fallback_chains
  ]
]

abbrev pub failure_threshold : ℕ
failure_threshold = 3

-- `COOLDOWN_SECONDS`, in milliseconds.
abbrev pub cooldown : ℕ
cooldown = 60000

-- `ProviderHealthTracker`
pub record Health : Type 0 where
  pub failures : String → Option ℕ
  pub cooldown_until : String → Option ℕ

-- `d[k] = v`, or `d.pop(k, None)` for none.
unfoldable pub set_key : String → Option ℕ → (String → Option ℕ) → String → Option ℕ
set_key k v d j = if str_eq k j then v else d j

unfoldable pub count_failure : Option ℕ → ℕ
count_failure none = 1
count_failure (some n) = n + 1

unfoldable pub record_failure : ℕ → String → Health → Health
unfolding set_key count_failure
record_failure now p h =
    let n = count_failure (h.failures p) in
    record {
      failures = set_key p (some n) h.failures;
      cooldown_until =
          if leb failure_threshold n
          then set_key p (some (now + cooldown)) h.cooldown_until
          else h.cooldown_until;
    }

unfoldable pub record_success : String → Health → Health
unfolding set_key
record_success p h = record {
  failures = set_key p none h.failures;
  cooldown_until = set_key p none h.cooldown_until;
}

-- An expired cooldown is forgotten, with the failures.
unfoldable pub is_healthy : ℕ → String → Health → Health × Bool
unfolding record_success
is_healthy now p h = elim (h.cooldown_until p) [
  | none ↦ (h, true)
  | some t ↦ if ltb t now then (record_success p h, true) else (h, false)
]

-- The loop over the chain.
unfoldable pub viable_fallbacks : ℕ → List String → Health → Health × List String
unfolding is_healthy
viable_fallbacks now [] h = (h, [])
viable_fallbacks now (m ∷ chain) h =
    let (h1, healthy) = is_healthy now (get_provider_for_model m) h in
    let (h2, rest) = viable_fallbacks now chain h1 in (h2, if healthy then m ∷ rest else rest)

-- What `resolve_fallback` returns, or that the write to the database raised.
pub data Resolution : Type 0 where
  no_fallback flush_failed : Resolution
  use_model : GovernanceResult → Resolution

-- The audit row, the event and the result.
unfoldable pub announce_fallback : String → String → String → ℕ → World → World × Resolution
unfolding publish
announce_fallback tenant original chosen status w =
    if w.db_up
    then (
      publish
          (usage_fallback tenant original (get_provider_for_model original) chosen
            (get_provider_for_model chosen) status)
          (record w {
            decisions =
                record {
                  tenant_id = tenant;
                  model_requested = original;
                  model_used = some chosen;
                  decision = allow_fallback;
                  reason = fallback original chosen status;
                  rule_id = none;
                }
                ∷ w.decisions;
          }),
      use_model (record {
        decision = allow_fallback;
        model_to_use = chosen;
        rule_id = none;
        reason = fallback original chosen status;
      }),
    )
    else (w, flush_failed)

-- The part after a retryable error, on the providers' health as it is then.
unfoldable pub choose_fallback :
    Config → ℕ → String → String → ℕ → Health → World → Health × (World × Resolution)
unfolding get_fallback_chain viable_fallbacks announce_fallback
choose_fallback cfg now tenant original status h w =
    let found = viable_fallbacks now (get_fallback_chain cfg original tenant) h in
    (
      found.0,
      elim (head found.1) [
        | none ↦ (w, no_fallback)
        | some chosen ↦ announce_fallback tenant original chosen status w
      ],
    )

unfoldable pub resolve_fallback :
    Config → ℕ → String → String → ℕ → Health → World → Health × (World × Resolution)
unfolding is_retryable_error record_failure choose_fallback
resolve_fallback cfg now tenant original status h w =
    if is_retryable_error status
    then choose_fallback cfg now tenant original status
        (record_failure now (get_provider_for_model original) h) w
    else (h, (w, no_fallback))
