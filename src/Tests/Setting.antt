-- ===== src/Tests/Setting.antt =====
-- A small concrete setting: a codec, a world with one limited tenant, a security service.
use Prim.Native.String.{◌++◌ as append, len}
use package.text.Mathlib.TextPositions.{len-append}
use llm_dashboard.Base.{
  ℕ, zero, suc, ◌-◌, ◌≡◌, refl, ap, true, false, none, some, [], ◌∷◌, String, str_eq, arith,
  Bool-cases, inl, inr, eq_iff,
}
use llm_dashboard.Gateway.Rules.{RuleType}
use llm_dashboard.Gateway.RuleStore.{Codec, IsFaithful, Rule}
use llm_dashboard.Gateway.Security.{Models}
use llm_dashboard.Gateway.SmartRouter.{init}
use llm_dashboard.Gateway.World.{World, CallRequest, text}
use llm_dashboard.Quota.{Clock}

-- Numbers in unary, with one stroke more than the number.
abbrev unary : ℕ → String
unary zero = "1"
unary (suc n) = append "1" (unary n)

len-unary : (n : ℕ) → len (unary n) ≡ suc n
len-unary zero = refl
len-unary (suc n) = omega (arith, len-append "1" (unary n), len-unary n)

read_back : (n : ℕ) → len (unary n) - 1 ≡ n
read_back n = omega (arith, len-unary n)

unary_nonempty : (n : ℕ) → str_eq (unary n) "" ≡ false
unary_nonempty n = elim (Bool-cases (str_eq (unary n) "")) [
  | inr f ↦ f
  | inl t ↦ absurd (let e = ap len ((eq_iff (unary n) "").0 t) in omega (arith, len-unary n))
]

abbrev pub unary_codec : Codec
unary_codec = record {
  show_uuid = unary;
  read_uuid = λ s. some (len s - 1);
  show_decimal = unary;
  read_decimal = λ s. some (len s - 1);
}

pub unary_codec-IsFaithful : IsFaithful unary_codec
unary_codec-IsFaithful = record {
  uuid = λ n. ap some (read_back n);
  uuid_nonempty = unary_nonempty;
  decimal = λ n. ap some (read_back n);
  decimal_nonempty = unary_nonempty;
}

-- At most 1000 tokens a day for "acme".
abbrev pub daily_rule : Rule
daily_rule = record {
  id = 7;
  rule_type = RuleType.tenant_limit;
  tenant_id = some "acme";
  model_name = none;
  daily_token_limit = some 1000;
  monthly_token_limit = none;
  monthly_budget_usd = none;
  max_tokens_per_request = none;
  priority = 100;
  is_active = true;
  downgrade_to_model = none;
  effective_from = none;
  effective_until = none;
  created_at = 1;
  updated_at = 1;
}

abbrev pub noon : Clock
noon = record { now = 43200; today = 20260301; month = 202603 }

abbrev pub small_world : World
small_world = record {
  rules = daily_rule ∷ [];
  experiments = [];
  rule_cache = λ _. none;
  rule_cache_ttl = 300;
  quota = λ _. none;
  clock = noon;
  router = init;
  semantic = λ _ _ _. none;
  stored = [];
  logs = [];
  decisions = [];
  events = [];
  sessions = [];
  session_uuid = "u1";
  cache_up = true;
  quota_up = true;
  db_up = true;
}

abbrev pub call_of : ℕ → CallRequest
call_of tokens = record {
  tenant_id = "acme";
  model = "gpt-4o";
  provider = "openai";
  input_tokens = tokens;
  output_tokens = 0;
  total_tokens = tokens;
  cost_usd = 5;
  error_message = none;
  metadata = ("password", text "x") ∷ ("prompt", text "hello") ∷ [];
  prompt_text = none;
  completion_text = none;
  prompt_name = none;
  session_id = some "s1";
  agent_id = none;
  user_id = none;
  duration_ms = some 20;
}

-- An analyzer that finds nothing, and texts that are in lower case already.
abbrev pub plain_models : Models
plain_models = record {
  analyze = λ _. some [];
  anonymize = λ s _. some s;
  classifier = none;
  upper = λ s. s;
  lower = λ s. s;
}
