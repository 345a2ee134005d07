-- ===== src/Tests/Counters.antt =====
-- The usage counters at concrete inputs.
use llm_dashboard.Base.{◌+◌, ◌*◌, ◌≡◌, refl, none, List, [], ◌∷◌, arith, ltb, if◌then◌else◌}
use llm_dashboard.Quota.{tokens, daily, monthly, key_eq, Redis, get_or_zero, increment}
use llm_dashboard.Quota.Reads.{get_or_zero-increment}
use llm_dashboard.Quota.Day.{Call, run, total, get_or_zero-run}
use llm_dashboard.Tests.Setting.{noon}

abbrev empty : Redis
empty _ = none

get_or_zero-increment_example :
    let after = increment tokens noon "acme" 5 empty in
    (get_or_zero 50000 after (daily "acme" tokens 20260301) ≡ (
      if key_eq (daily "acme" tokens 20260301) (daily "acme" tokens 20260301)
      then (if ltb 50000 (43200 + 25 * 3600)
          then get_or_zero 43200 empty (daily "acme" tokens 20260301) + 5
          else 0)
      else get_or_zero 50000 empty (daily "acme" tokens 20260301)))
    × (get_or_zero 50000 after (monthly "acme" tokens 20260301) ≡ (
        if key_eq (monthly "acme" tokens 202603) (monthly "acme" tokens 20260301)
        then (if ltb 50000 (43200 + 35 * 24 * 3600)
            then get_or_zero 43200 empty (monthly "acme" tokens 202603) + 5
            else 0)
        else get_or_zero 50000 empty (monthly "acme" tokens 20260301)))
get_or_zero-increment_example =
    get_or_zero-increment tokens tokens noon "acme" "acme" 5 20260301 50000 empty

abbrev two_calls : List Call
two_calls =
    record { clock = noon; tenant = "acme"; amount = 5 }
    ∷ record { clock = record noon { now = 50000 }; tenant = "acme"; amount = 7 }
    ∷ []

get_or_zero-run_example :
    get_or_zero 60000 (run tokens two_calls empty) (daily "acme" tokens 20260301)
    ≡ total "acme" two_calls
get_or_zero-run_example =
    get_or_zero-run tokens "acme" 0 20260301 two_calls empty 60000 refl
      (((omega arith, omega arith), refl), (((omega arith, omega arith), refl), tt))
      (omega arith, omega arith)
