-- ===== src/Tracing/Experiments.antt =====
-- Experiments between two versions of a prompt (ExperimentService of modules/tracing/service.py and
-- modules/tracing/repositories/experiment_repository.py). Python's floats and math are a parameter,
-- with `none` where a division by zero or a square root raises.
pub mod Winner
use llm_dashboard.Base.{
  ℕ, ◌+◌, ◌-◌, leb, Bool, true, false, ◌&&◌, ◌||◌, if◌then◌else◌, Option, none, some, List, [], ◌∷◌,
  String, str_eq, filter, find, update_where,
}

infixl 5 ◌>>=◌
abbrev pub ◌>>=◌ : {A B : Type 0} → Option A → (A → Option B) → Option B
none >>= f = none
some a >>= f = f a

pub record Numbers : Type 1 where
  pub F : Type 0
  pub of_ℕ : ℕ → F
  pub plus : F → F → F
  pub minus : F → F → F
  pub times : F → F → F
  pub divide : F → F → Option F
  pub sqrt : F → Option F
  pub erf : F → F
  pub absolute : F → F
  pub smaller : F → F → F
  pub round : F → ℕ → F
  pub less : F → F → Bool
  pub equal : F → F → Bool
  -- 0.5, 0.05, 0.001 and 0.999
  pub half : F
  pub level : F
  pub thousandth : F
  pub below_one : F

pub data ExperimentStatus : Type 0 where
  draft : ExperimentStatus
  running : ExperimentStatus
  paused : ExperimentStatus
  completed : ExperimentStatus
  cancelled : ExperimentStatus

unfoldable pub is_running : ExperimentStatus → Bool
is_running running = true
is_running _ = false

unfoldable pub at_least_one : ℕ → ℕ
at_least_one n = if leb 1 n then n else 1

module _ (N : Numbers) where
  -- The columns of one variant: `a_requests`, `a_avg_latency_ms` and so on.
  pub record Arm : Type 0 where
    pub requests : ℕ
    pub avg_latency_ms : N.F
    pub avg_cost_usd : N.F
    pub avg_quality : N.F
    pub error_count : ℕ
    pub total_tokens : ℕ

  pub record LlmExperiment : Type 0 where
    pub id : String
    pub tenant_id : String
    pub name : String
    pub prompt_name : String
    pub variant_a_version : ℕ
    pub variant_b_version : ℕ
    pub traffic_split : N.F
    pub primary_metric : String
    pub a : Arm
    pub b : Arm
    pub status : ExperimentStatus
    pub winner : Option String
    pub p_value : Option N.F
    pub confidence_level : Option N.F
    pub min_samples : ℕ
    pub started_at : Option ℕ
    pub ended_at : Option ℕ

  -- The arguments of `record_result`.
  pub record TrialResult : Type 0 where
    pub variant : String
    pub latency_ms : N.F
    pub cost_usd : N.F
    pub quality_score : N.F
    pub tokens : ℕ
    pub is_error : Bool

  unfoldable pub is_experiment : String → LlmExperiment → Bool
  is_experiment i e = str_eq e.id i

  unfoldable pub no_results : Arm
  no_results = record {
    requests = 0;
    avg_latency_ms = N.of_ℕ 0;
    avg_cost_usd = N.of_ℕ 0;
    avg_quality = N.of_ℕ 0;
    error_count = 0;
    total_tokens = 0;
  }

  -- The row that `create_experiment` adds, for the arguments it is called with.
  unfoldable pub create_experiment :
      String
      → String
      → String
      → String
      → ℕ
      → ℕ
      → N.F
      → String
      → ℕ
      → List LlmExperiment
      → List LlmExperiment
  unfolding no_results
  create_experiment uid tenant name prompt va vb split metric min_samples rows =
      record {
        id = uid;
        tenant_id = tenant;
        name = name;
        prompt_name = prompt;
        variant_a_version = va;
        variant_b_version = vb;
        traffic_split = split;
        primary_metric = metric;
        a = no_results;
        b = no_results;
        status = draft;
        winner = none;
        p_value = none;
        confidence_level = none;
        min_samples = min_samples;
        started_at = none;
        ended_at = none;
      }
      ∷ rows

  unfoldable pub start_experiment : ℕ → String → List LlmExperiment → List LlmExperiment
  unfolding is_experiment
  start_experiment now i rows =
      update_where (is_experiment i) (λ e. record e { status = running; started_at = some now })
        rows

  unfoldable pub pause_experiment : String → List LlmExperiment → List LlmExperiment
  unfolding is_experiment
  pause_experiment i rows = update_where (is_experiment i) (λ e. record e { status = paused }) rows

  unfoldable pub complete_experiment : ℕ → String → List LlmExperiment → List LlmExperiment
  unfolding is_experiment
  complete_experiment now i rows =
      update_where (is_experiment i) (λ e. record e { status = completed; ended_at = some now })
        rows

  -- `avg + (x - avg) / n`
  unfoldable pub running_average : N.F → N.F → ℕ → Option N.F
  running_average avg x n = do
    change ← N.divide (N.minus x avg) (N.of_ℕ n)
    some (N.plus avg change)

  unfoldable pub add_result : TrialResult → Arm → Option Arm
  unfolding running_average
  add_result c r = do
    latency ← running_average r.avg_latency_ms c.latency_ms (r.requests + 1)
    cost ← running_average r.avg_cost_usd c.cost_usd (r.requests + 1)
    quality ← running_average r.avg_quality c.quality_score (r.requests + 1)
    some (record {
      requests = r.requests + 1;
      avg_latency_ms = latency;
      avg_cost_usd = cost;
      avg_quality = quality;
      error_count = if c.is_error then r.error_count + 1 else r.error_count;
      total_tokens = r.total_tokens + c.tokens;
    })

  unfoldable pub error_rate : Arm → Option N.F
  unfolding at_least_one
  error_rate r = N.divide (N.of_ℕ r.error_count) (N.of_ℕ (at_least_one r.requests))

  -- The values of the two variants that are compared; the inner `none` is a metric that is unknown.
  unfoldable pub metric_values : LlmExperiment → Option (Option (N.F × N.F))
  unfolding error_rate
  metric_values e =
      let rates : Option (Option (N.F × N.F)) = (do
        x ← error_rate e.a
        y ← error_rate e.b
        some (some (x, y))) in
      if str_eq e.primary_metric "quality_score"
      then some (some (e.a.avg_quality, e.b.avg_quality))
      else if str_eq e.primary_metric "latency"
      then some (some (e.a.avg_latency_ms, e.b.avg_latency_ms))
      else if str_eq e.primary_metric "cost"
      then some (some (e.a.avg_cost_usd, e.b.avg_cost_usd))
      else if str_eq e.primary_metric "error_rate"
      then rates
      else some none

  unfoldable pub lower_is_better : String → Bool
  lower_is_better metric =
      str_eq metric "latency" || (str_eq metric "cost" || str_eq metric "error_rate")

  unfoldable pub declare_result : ℕ → N.F → N.F → N.F → LlmExperiment → LlmExperiment
  unfolding lower_is_better
  declare_result now x y p e =
      let tested : LlmExperiment = record e {
        p_value = some (N.round p 6);
        confidence_level = some (N.round (N.minus (N.of_ℕ 1) p) 4);
      } in
      let a_wins = if lower_is_better e.primary_metric then N.less x y else N.less y x in
      if N.less p N.level
      then record tested {
        winner = some (if a_wins then "A" else "B");
        status = completed;
        ended_at = some now;
      }
      else tested

  -- The two-tailed p-value.
  unfoldable pub p_value_of : N.F → N.F → N.F → N.F → N.F → Option N.F
  p_value_of x y pooled na nb = do
    ia ← N.divide (N.of_ℕ 1) na
    ib ← N.divide (N.of_ℕ 1) nb
    root ← N.sqrt (
        N.times (N.times pooled (N.minus (N.of_ℕ 1) (N.smaller pooled N.below_one))) (N.plus ia ib))
    z ← N.divide (N.absolute (N.minus x y)) (if N.equal root (N.of_ℕ 0) then N.thousandth else root)
    root_two ← N.sqrt (N.of_ℕ 2)
    ratio ← N.divide z root_two
    some
        (N.times (N.of_ℕ 2) (N.minus (N.of_ℕ 1) (N.times N.half (N.plus (N.of_ℕ 1) (N.erf ratio)))))

  unfoldable pub compare_values : ℕ → LlmExperiment → N.F → N.F → Option LlmExperiment
  unfolding p_value_of declare_result
  compare_values now e x y =
      let na = N.of_ℕ e.a.requests in
      let nb = N.of_ℕ e.b.requests in
      N.divide (N.plus (N.times x na) (N.times y nb)) (N.of_ℕ (e.a.requests + e.b.requests))
      >>= λ pooled.
          if N.equal pooled (N.of_ℕ 0) || N.equal pooled (N.of_ℕ 1)
          then some e
          else (p_value_of x y pooled na nb >>= λ p. some (declare_result now x y p e))

  unfoldable pub check_significance : ℕ → LlmExperiment → Option LlmExperiment
  unfolding metric_values compare_values
  check_significance now e = metric_values e >>= λ values. elim values [
    | none ↦ some e
    | some (x, y) ↦ compare_values now e x y
  ]

  unfoldable pub add_to_variant : TrialResult → LlmExperiment → Option LlmExperiment
  unfolding add_result
  add_to_variant c e =
      if str_eq c.variant "A"
      then (add_result c e.a >>= λ r. some (record e { a = r }))
      else (add_result c e.b >>= λ r. some (record e { b = r }))

  unfoldable pub check_if_enough : ℕ → LlmExperiment → Option LlmExperiment
  unfolding check_significance
  check_if_enough now e =
      if leb e.min_samples e.a.requests && leb e.min_samples e.b.requests
      then check_significance now e
      else some e

  -- An exception leaves the table as it was.
  unfoldable pub record_result :
      ℕ → String → TrialResult → List LlmExperiment → Option (List LlmExperiment)
  unfolding is_experiment add_to_variant check_if_enough
  record_result now i c rows = elim (find (is_experiment i) rows) [
    | none ↦ some rows
    | some e ↦ add_to_variant c e >>= λ e'.
        check_if_enough now e' >>= λ new. some (update_where (is_experiment i) (λ _. new) rows)
  ]

  unfoldable pub is_routed : String → String → LlmExperiment → Bool
  unfolding is_running
  is_routed tenant prompt e =
      str_eq e.tenant_id tenant && (str_eq e.prompt_name prompt && is_running e.status)

  -- `random.random() < self.traffic_split`
  unfoldable pub select_variant : N.F → LlmExperiment → String × ℕ
  select_variant draw e =
      if N.less draw e.traffic_split then ("B", e.variant_b_version) else ("A", e.variant_a_version)

  -- `scalar_one_or_none` raises, the outer `none`, where several experiments run for the prompt.
  unfoldable pub route_found : N.F → List LlmExperiment → Option (Option (String × ℕ))
  unfolding select_variant
  route_found draw [] = some none
  route_found draw (e ∷ []) = some (some (select_variant draw e))
  route_found draw (e ∷ e' ∷ es) = none

  unfoldable pub route_traffic :
      N.F → String → String → List LlmExperiment → Option (Option (String × ℕ))
  unfolding is_routed route_found
  route_traffic draw tenant prompt rows = route_found draw (filter (is_routed tenant prompt) rows)

  -- `((avg * (n - 1)) + x) / n` at the number after the call
  unfoldable pub weighted_average : N.F → N.F → ℕ → Option N.F
  weighted_average avg x n = N.divide (N.plus (N.times avg (N.of_ℕ (n - 1))) x) (N.of_ℕ n)

  unfoldable pub count_call : N.F → N.F → Bool → Arm → Option Arm
  unfolding weighted_average
  count_call cost duration success r = do
    latency ← weighted_average r.avg_latency_ms duration (r.requests + 1)
    spent ← weighted_average r.avg_cost_usd cost (r.requests + 1)
    some (record r {
      requests = r.requests + 1;
      error_count = if success then r.error_count else r.error_count + 1;
      avg_latency_ms = latency;
      avg_cost_usd = spent;
    })

  unfoldable pub count_variant : String → N.F → N.F → Bool → LlmExperiment → Option LlmExperiment
  unfolding count_call
  count_variant variant cost duration success e =
      let for_a = count_call cost duration success e.a >>= λ r. some (record e { a = r }) in
      let for_b = count_call cost duration success e.b >>= λ r. some (record e { b = r }) in
      if str_eq variant "A" then for_a else if str_eq variant "B" then for_b else some e

  -- Whatever raises is rolled back and not passed on.
  unfoldable pub increment_experiment_counters :
      String → String → N.F → N.F → Bool → List LlmExperiment → List LlmExperiment
  unfolding is_experiment count_variant
  increment_experiment_counters i variant cost duration success rows =
      elim (find (is_experiment i) rows) [
        | none ↦ rows
        | some e ↦ elim (count_variant variant cost duration success e) [
          | none ↦ rows
          | some new ↦ update_where (is_experiment i) (λ _. new) rows
        ]
      ]
