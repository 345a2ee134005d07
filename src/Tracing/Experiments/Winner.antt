-- ===== src/Tracing/Experiments/Winner.antt =====
-- When an experiment has a winner.
use llm_dashboard.Base.{
  ℕ, ◌+◌, ◌≡◌, ◌≤◌, refl, Bool, ◌⊎◌, inl, inr, Option, none, some, List, [], ◌∷◌, String, leb→le,
  arith, All, All_at, In-find, find, update_where, All-update_where, Bool-cases, Option-cases,
}
use llm_dashboard.Tracing.Experiments.{
  Numbers, Arm, LlmExperiment, TrialResult, is_experiment, create_experiment, start_experiment,
  pause_experiment, complete_experiment, add_result, add_to_variant, compare_values, declare_result,
  check_significance, check_if_enough, record_result, count_call, count_variant,
  increment_experiment_counters,
}

pub data Op (N : Numbers) : Type 0 where
  creates : String → String → String → String → ℕ → ℕ → N.F → String → ℕ → Op N
  starts : ℕ → String → Op N
  pauses : String → Op N
  completes : ℕ → String → Op N
  records : ℕ → String → TrialResult N → Op N
  counts : String → String → N.F → N.F → Bool → Op N

module _ (N : Numbers) where
  -- The table after an operation; one that raises leaves it.
  unfoldable pub kept :
      List (LlmExperiment N) → Option (List (LlmExperiment N)) → List (LlmExperiment N)
  kept rows none = rows
  kept rows (some new) = new

  unfoldable pub step : Op N → List (LlmExperiment N) → List (LlmExperiment N)
  unfolding kept
  step (creates i t n p va vb split metric m) rows =
      create_experiment N i t n p va vb split metric m rows
  step (starts now i) rows = start_experiment N now i rows
  step (pauses i) rows = pause_experiment N i rows
  step (completes now i) rows = complete_experiment N now i rows
  step (records now i c) rows = kept rows (record_result N now i c rows)
  step (counts i v cost duration success) rows =
      increment_experiment_counters N i v cost duration success rows

  unfoldable pub run : List (Op N) → List (LlmExperiment N) → List (LlmExperiment N)
  unfolding step
  run [] rows = rows
  run (o ∷ os) rows = run os (step o rows)

  -- Each variant has the calls that the experiment asks for.
  abbrev pub HasSamples : LlmExperiment N → Type 0
  HasSamples e = (e.min_samples ≤ e.a.requests) × (e.min_samples ≤ e.b.requests)

  -- A winner or a p-value is there only where each variant has these calls.
  abbrev pub IsEarned : LlmExperiment N → Type 0
  IsEarned e = ((e.winner ≡ none) × (e.p_value ≡ none)) ⊎ HasSamples e

  -- The columns that a winner depends on are the same.
  abbrev SameCounts : LlmExperiment N → LlmExperiment N → Type 0
  SameCounts e e' =
      (e'.a.requests ≡ e.a.requests)
      × (e'.b.requests ≡ e.b.requests)
      × (e'.min_samples ≡ e.min_samples)

  declare-SameCounts :
      (now : ℕ) (x y p : N.F) (e : LlmExperiment N) → SameCounts e (declare_result N now x y p e)
  unfolding declare_result
  declare-SameCounts now x y p e = elim (Bool-cases (N.less p N.level)) [
    | inl t ↦ rw t (refl, refl, refl)
    | inr f ↦ rw f (refl, refl, refl)
  ]

  compare-SameCounts :
      (now : ℕ) (e : LlmExperiment N) (x y : N.F) (e' : LlmExperiment N)
      → compare_values N now e x y ≡ some e'
      → SameCounts e e'
  unfolding compare_values
  compare-SameCounts now e x y e' h =
      let declared = λ (p : N.F). declare-SameCounts now x y p e in grind arith

  check-SameCounts :
      (now : ℕ) (e e' : LlmExperiment N) → check_significance N now e ≡ some e' → SameCounts e e'
  unfolding check_significance
  check-SameCounts now e e' h =
      let compared = λ (x : N.F) (y : N.F). compare-SameCounts now e x y e' in grind arith

  enough-IsEarned :
      (now : ℕ) (e e' : LlmExperiment N)
      → check_if_enough N now e ≡ some e'
      → IsEarned e
      → IsEarned e'
  unfolding check_if_enough
  enough-IsEarned now e e' h earned =
      let checked = check-SameCounts now e e' in
      let a_enough = leb→le e.min_samples e.a.requests in
      let b_enough = leb→le e.min_samples e.b.requests in grind arith

  add_result-more :
      (c : TrialResult N) (r r' : Arm N) → add_result N c r ≡ some r' → r'.requests ≡ r.requests + 1
  unfolding add_result
  add_result-more c r r' h = ground arith

  count_call-more :
      (cost duration : N.F) (success : Bool) (r r' : Arm N)
      → count_call N cost duration success r ≡ some r'
      → r'.requests ≡ r.requests + 1
  unfolding count_call
  count_call-more cost duration success r r' h = ground arith

  add_to_variant-IsEarned :
      (c : TrialResult N) (e e' : LlmExperiment N)
      → add_to_variant N c e ≡ some e'
      → IsEarned e
      → IsEarned e'
  unfolding add_to_variant
  add_to_variant-IsEarned c e e' h earned =
      let a_more = add_result-more c e.a in let b_more = add_result-more c e.b in grind arith

  count_variant-IsEarned :
      (v : String) (cost duration : N.F) (success : Bool) (e e' : LlmExperiment N)
      → count_variant N v cost duration success e ≡ some e'
      → IsEarned e
      → IsEarned e'
  unfolding count_variant
  count_variant-IsEarned v cost duration success e e' h earned =
      let a_more = count_call-more cost duration success e.a in
      let b_more = count_call-more cost duration success e.b in grind arith

  replaced-IsEarned :
      (i : String) (new : LlmExperiment N) (rows : List (LlmExperiment N))
      → IsEarned new
      → All IsEarned rows
      → All IsEarned (update_where (is_experiment N i) (λ _. new) rows)
  replaced-IsEarned i new rows h =
      All-update_where IsEarned (is_experiment N i) (λ _. new) (λ x hx. h) rows

  found-IsEarned :
      (i : String) (e : LlmExperiment N) (rows : List (LlmExperiment N))
      → find (is_experiment N i) rows ≡ some e
      → All IsEarned rows
      → IsEarned e
  found-IsEarned i e rows found h =
      All_at IsEarned e rows h (In-find (is_experiment N i) e rows found).0

  record_result-IsEarned :
      (now : ℕ) (i : String) (c : TrialResult N) (rows : List (LlmExperiment N))
      → All IsEarned rows
      → All IsEarned (kept rows (record_result N now i c rows))
  unfolding record_result kept
  record_result-IsEarned now i c rows h = elim (Option-cases (find (is_experiment N i) rows)) [
    | inl e ↦ rw (record_result, e) h
    | inr (e, found) ↦ elim (Option-cases (add_to_variant N c e)) [
      | inl f ↦ rw (record_result, found, f) h
      | inr (e', added) ↦ elim (Option-cases (check_if_enough N now e')) [
        | inl f ↦ rw (record_result, found, added, f) h
        | inr (new, checked) ↦
            rw (record_result, found, added, checked)
              (replaced-IsEarned i new rows
                (enough-IsEarned now e' new checked
                  (add_to_variant-IsEarned c e e' added (found-IsEarned i e rows found h)))
                h)
      ]
    ]
  ]

  increment-IsEarned :
      (i v : String) (cost duration : N.F) (success : Bool) (rows : List (LlmExperiment N))
      → All IsEarned rows
      → All IsEarned (increment_experiment_counters N i v cost duration success rows)
  unfolding increment_experiment_counters
  increment-IsEarned i v cost duration success rows h =
      elim (Option-cases (find (is_experiment N i) rows)) [
        | inl e ↦ rw (increment_experiment_counters, e) h
        | inr (e, found) ↦ elim (Option-cases (count_variant N v cost duration success e)) [
          | inl f ↦ rw (increment_experiment_counters, found, f) h
          | inr (new, counted) ↦
              rw (increment_experiment_counters, found, counted)
                (replaced-IsEarned i new rows
                  (count_variant-IsEarned v cost duration success e new counted
                    (found-IsEarned i e rows found h))
                  h)
        ]
      ]

  step-IsEarned :
      (o : Op N) (rows : List (LlmExperiment N)) → All IsEarned rows → All IsEarned (step o rows)
  unfolding step create_experiment start_experiment pause_experiment complete_experiment
  step-IsEarned (creates i t n p va vb split metric m) rows h = (inl (refl, refl), h)
  step-IsEarned (starts now i) rows h =
      All-update_where IsEarned (is_experiment N i) _ (λ x hx. hx) rows h
  step-IsEarned (pauses i) rows h =
      All-update_where IsEarned (is_experiment N i) _ (λ x hx. hx) rows h
  step-IsEarned (completes now i) rows h =
      All-update_where IsEarned (is_experiment N i) _ (λ x hx. hx) rows h
  step-IsEarned (records now i c) rows h = record_result-IsEarned now i c rows h
  step-IsEarned (counts i v cost duration success) rows h =
      increment-IsEarned i v cost duration success rows h

  -- After any sequence of operations on a table in which this holds: an experiment that has a winner
  -- or a p-value has, for each of its two variants, at least as many calls as its min_samples,
  -- whichever way the floats compute, and also where an operation raises.
  pub run-IsEarned :
      (os : List (Op N)) (rows : List (LlmExperiment N))
      → All IsEarned rows
      → All IsEarned (run os rows)
  unfolding run
  run-IsEarned [] rows h = h
  run-IsEarned (o ∷ os) rows h = run-IsEarned os (step o rows) (step-IsEarned o rows h)
