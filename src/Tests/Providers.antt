-- ===== src/Tests/Providers.antt =====
-- The circuit breaker and the fallback chains at concrete inputs.
use llm_dashboard.Base.{◌+◌, ◌≡◌, ◌≢◌, refl, ap, true, none, String, ltb, str_eq}
use llm_dashboard.Gateway.Fallback.{Health, Config, is_healthy, record_failure, record_success}
use llm_dashboard.Gateway.Fallback.Breaker.{fail_thrice, is_healthy-record_failure}

abbrev clean : Health
clean = record { failures = λ _. none; cooldown_until = λ _. none }

abbrev no_overrides : Config
no_overrides _ = none

abbrev groq : String
groq = "groq"

groq_is_another : groq ≢ "openai"
groq_is_another e = let same = ap (str_eq groq) e in cc

is_healthy-record_failure_example :
    ((is_healthy 50000 "openai" (record_failure 20 "openai" (record_failure 10 "openai" clean))).1
      ≡ true)
    × ((is_healthy 50000 "openai" (fail_thrice "openai" 10 20 30 clean)).1 ≡ ltb (30 + 60000) 50000)
    × ((is_healthy 50000 "openai" (record_success "openai" (fail_thrice "openai" 10 20 30 clean))).1
        ≡ true)
    × ((is_healthy 50000 "groq" (fail_thrice "openai" 10 20 30 clean)).1
        ≡ (is_healthy 50000 "groq" clean).1)
is_healthy-record_failure_example =
    is_healthy-record_failure "openai" "groq" 10 20 30 50000 clean refl refl groq_is_another
