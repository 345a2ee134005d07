-- ===== src/Tests/Trials.antt =====
-- Experiments at concrete inputs.
use llm_dashboard.Base.{
  ℕ, ◌+◌, ◌-◌, ◌*◌, ◌/◌, ◌==◌, ltb, min, ◌≡◌, refl, none, some, List, [], ◌∷◌, String, map, All,
  false, if◌then◌else◌,
}
use llm_dashboard.Tracing.Experiments.{
  Numbers, TrialResult, create_experiment, start_experiment, record_result, add_to_variant,
  add_result, running_average, check_if_enough, check_significance, metric_values, compare_values,
  p_value_of, declare_result, lower_is_better, is_experiment, no_results,
}
use llm_dashboard.Tracing.Experiments.Winner.{
  Op, creates, starts, records, run, step, kept, IsEarned, run-IsEarned,
}

-- Whole numbers in place of floats; every test is significant.
abbrev whole : Numbers
whole = record {
  F = ℕ;
  of_ℕ = λ n. n;
  plus = λ x y. x + y;
  minus = λ x y. x - y;
  times = λ x y. x * y;
  divide = λ x y. if y == 0 then none else some (x / y);
  sqrt = λ x. some x;
  erf = λ x. x;
  absolute = λ x. x;
  smaller = min;
  round = λ x digits. x;
  less = ltb;
  equal = λ x y. x == y;
  half = 0;
  level = 3;
  thousandth = 1;
  below_one = 1;
}

abbrev good : String → ℕ → TrialResult whole
good v quality = record {
  variant = v;
  latency_ms = 20;
  cost_usd = 3;
  quality_score = quality;
  tokens = 7;
  is_error = false;
}

abbrev ops : List (Op whole)
ops =
    creates "e1" "acme" "short" "greeting" 1 2 5 "quality_score" 1
    ∷ starts 10 "e1"
    ∷ records 11 "e1" (good "A" 10)
    ∷ records 12 "e1" (good "B" 6)
    ∷ []

a_wins : map (λ e. e.winner) (run whole ops []) ≡ some "A" ∷ []
unfolding run step kept create_experiment no_results start_experiment record_result is_experiment
    add_to_variant add_result running_average check_if_enough check_significance metric_values
    compare_values p_value_of declare_result lower_is_better
a_wins = refl

run-IsEarned_example : All (IsEarned whole) (run whole ops [])
run-IsEarned_example = run-IsEarned whole ops [] tt
