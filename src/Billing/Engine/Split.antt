-- ===== src/Billing/Engine/Split.antt =====
-- What the contract engine conserves: tokens between the allowance and the overage, and tokens,
-- calls and cost between the log and the model breakdown.
use llm_dashboard.Base.{
  ℕ, ◌+◌, ◌*◌, ◌≤◌, ◌<◌, ◌≡◌, refl, ◌∙◌, ◌↔◌, ◌&&◌, not, some, List, [], ◌∷◌, String, arith, filter,
  map, length, sort_desc, insert_desc,
}
use llm_dashboard.Billing.Contracts.{Contract, forfait}
use llm_dashboard.Billing.Engine.{
  Floats, MonthlyUsage, ModelUsage, LogRow, of_month, sum_tokens, sum_cost, add_to_group, rounded,
  round6, group_by_model, get_model_breakdown_for_month, get_monthly_usage, apply_contract,
  forfait_amounts,
}

-- Under an allowance every token of the month is counted once, inside the allowance or above it;
-- the part inside never exceeds the allowance, and there is a part above exactly if the month's
-- tokens exceed it.
pub apply_contract-splits :
    (fl : Floats) (u : MonthlyUsage) (k : Contract)
    → k.contract_type ≡ forfait
    → let a = apply_contract fl u k in
      (a.forfait_tokens_used + a.overage_tokens ≡ u.total_tokens)
      × (a.forfait_tokens_used ≤ k.forfait_tokens)
      × ((0 < a.overage_tokens) ↔ (k.forfait_tokens < u.total_tokens))
unfolding apply_contract
apply_contract-splits fl u k h = rw (h, apply_contract) (unfold forfait_amounts in ground arith)

-- A measure of the groups, summed.
pub sum_groups : (ModelUsage → ℕ) → List ModelUsage → ℕ
sum_groups f [] = 0
sum_groups f (m ∷ ms) = f m + sum_groups f ms

sum_groups-insert_desc :
    (f : ModelUsage → ℕ) (m : ModelUsage) (ms : List ModelUsage)
    → sum_groups f (insert_desc (λ x. x.total_cost) m ms) ≡ f m + sum_groups f ms
unfolding sum_groups
sum_groups-insert_desc f m [] = refl
sum_groups-insert_desc f m (x ∷ ms) = ground (arith, sum_groups-insert_desc f m ms)

sum_groups-sort_desc :
    (f : ModelUsage → ℕ) (ms : List ModelUsage)
    → sum_groups f (sort_desc (λ x. x.total_cost) ms) ≡ sum_groups f ms
unfolding sum_groups
sum_groups-sort_desc f [] = refl
sum_groups-sort_desc f (m ∷ ms) = omega (
  arith,
  sum_groups-insert_desc f m (sort_desc (λ x. x.total_cost) ms),
  sum_groups-sort_desc f ms,
)

sum_groups-add_to_group :
    (r : LogRow) (ms : List ModelUsage)
    → (sum_groups (λ m. m.total_tokens) (add_to_group r ms)
        ≡ r.total_tokens + sum_groups (λ m. m.total_tokens) ms)
      × (sum_groups (λ m. m.total_cost) (add_to_group r ms)
          ≡ r.cost_usd + sum_groups (λ m. m.total_cost) ms)
      × (sum_groups (λ m. m.call_count) (add_to_group r ms) ≡ 1 + sum_groups (λ m. m.call_count) ms)
unfolding sum_groups add_to_group
sum_groups-add_to_group r [] = ground arith
sum_groups-add_to_group r (m ∷ ms) = ground (arith, sum_groups-add_to_group r ms)

sum_groups-group_by_model :
    (rows : List LogRow)
    → (sum_groups (λ m. m.total_tokens) (group_by_model rows) ≡ sum_tokens rows)
      × (sum_groups (λ m. m.total_cost) (group_by_model rows) ≡ sum_cost rows)
      × (sum_groups (λ m. m.call_count) (group_by_model rows) ≡ length rows)
unfolding sum_groups group_by_model sum_tokens sum_cost
sum_groups-group_by_model [] = (refl, refl, refl)
sum_groups-group_by_model (r ∷ rows) =
    omega (arith, sum_groups-add_to_group r (group_by_model rows), sum_groups-group_by_model rows)

-- The rows of the log that the breakdown is about.
abbrev pub billed : String → ℕ → List LogRow → List LogRow
billed tenant ym log = filter (λ r. of_month tenant ym r && r.succeeded) log

-- Rounding changes the tokens and the calls of no group, and each group's cost, in hundred-millionths,
-- by 50 at most.
sum_groups-rounded :
    (ms : List ModelUsage)
    → (sum_groups (λ m. m.total_tokens) (map rounded ms) ≡ sum_groups (λ m. m.total_tokens) ms)
      × (sum_groups (λ m. m.call_count) (map rounded ms) ≡ sum_groups (λ m. m.call_count) ms)
      × (100 * sum_groups (λ m. m.total_cost) (map rounded ms)
          ≤ sum_groups (λ m. m.total_cost) ms + 50 * length (map rounded ms))
      × (sum_groups (λ m. m.total_cost) ms
          ≤ 100 * sum_groups (λ m. m.total_cost) (map rounded ms) + 50 * length (map rounded ms))
unfolding sum_groups rounded round6
sum_groups-rounded [] = omega arith
sum_groups-rounded (m ∷ ms) = omega (arith, sum_groups-rounded ms)

-- Over the groups of the breakdown by model the tokens and the calls sum up to those of the tenant's
-- successful calls of the month. The costs that it shows, in millionths, sum up to the cost of these
-- calls up to half a millionth for each group.
pub get_model_breakdown_for_month-conserves :
    (tenant : String) (ym : ℕ) (log : List LogRow)
    → let groups = get_model_breakdown_for_month tenant ym log in
      let shown = 100 * sum_groups (λ m. m.total_cost) groups in
      let spent = sum_cost (billed tenant ym log) in
      (sum_groups (λ m. m.total_tokens) groups ≡ sum_tokens (billed tenant ym log))
      × (sum_groups (λ m. m.call_count) groups ≡ length (billed tenant ym log))
      × (shown ≤ spent + 50 * length groups)
      × (spent ≤ shown + 50 * length groups)
unfolding get_model_breakdown_for_month
get_model_breakdown_for_month-conserves tenant ym log =
    let rows = billed tenant ym log in
    let (t, c, n) = sum_groups-group_by_model rows in
    let sorted = sort_desc (λ m. m.total_cost) (group_by_model rows) in
    let st = sum_groups-sort_desc (λ m. m.total_tokens) (group_by_model rows) in
    let sc = sum_groups-sort_desc (λ m. m.total_cost) (group_by_model rows) in
    let sn = sum_groups-sort_desc (λ m. m.call_count) (group_by_model rows) in
    let (rt, rn, low, high) = sum_groups-rounded sorted in
    (rt ∙ st ∙ t, rn ∙ sn ∙ n, omega arith, omega arith)

successes_and_failures :
    (rows : List LogRow)
    → length (filter (λ r. r.succeeded) rows) + length (filter (λ r. not r.succeeded) rows)
      ≡ length rows
successes_and_failures [] = refl
successes_and_failures (r ∷ rows) = ground (arith, successes_and_failures rows)

-- A month with usage has at least one call, its successful and failed calls make up all calls, and
-- its tokens are those of all its rows in the log.
pub get_monthly_usage_counts :
    (tenant : String) (ym : ℕ) (log : List LogRow) {u : MonthlyUsage}
    → get_monthly_usage tenant ym log ≡ some u
    → (0 < u.total_calls)
      × (u.successful_calls + u.failed_calls ≡ u.total_calls)
      × (u.total_tokens ≡ sum_tokens (filter (of_month tenant ym) log))
unfolding get_monthly_usage
get_monthly_usage_counts tenant ym log h =
    ground (arith, successes_and_failures (filter (of_month tenant ym) log))
