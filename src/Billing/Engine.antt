-- ===== src/Billing/Engine.antt =====
-- The contract engine: the usage of a month, the amounts under a contract and the invoice's lines
-- (_apply_contract and _build_line_items of modules/billing/services/billing_service.py, the queries on the
-- usage of modules/billing/repositories/billing_repository.py). The arithmetic on floats is a parameter.
pub mod Split
use llm_dashboard.Base.{
  ℕ, zero, ◌+◌, ◌-◌, ◌/◌, ◌==◌, Bool, true, false, ◌&&◌, ◌||◌, not, Option, none, some, List, [],
  ◌∷◌, ◌++◌, map, String, str_eq, min, ltb, leb, if◌then◌else◌, length, filter, sort_desc,
}
use llm_dashboard.Base.Int.{ℤ}
use llm_dashboard.Billing.Contracts.{Contract, ContractType, pay_as_you_go, forfait, other}
use llm_dashboard.Billing.Books.{LineItem, base_fee, usage_cost, overage}

-- Python's floats, as far as billing uses them: `of_ℕ` and `of_micros` are `float` of an int and of a
-- Decimal in millionths, `round4` is `round(x, 4)`, `is_positive` is `x > 0`, and `to_decimal` is
-- `Decimal(str(x))` in ten-thousandths.
pub record Floats : Type 1 where
  pub F : Type 0
  pub of_ℕ : ℕ → F
  pub of_micros : ℕ → F
  pub plus : F → F → F
  pub times : F → F → F
  pub divide : F → F → F
  pub round4 : F → F
  pub is_positive : F → Bool
  pub to_decimal : F → ℤ

-- A row of llm_token_log, as far as billing reads it. The column of the cost is Numeric(12, 8): it is
-- in hundred-millionths of a dollar.
pub record LogRow : Type 0 where
  pub tenant_id : String
  pub year_month : ℕ
  pub model : String
  pub provider : String
  pub succeeded : Bool
  pub total_tokens : ℕ
  pub cost_usd : ℕ

unfoldable pub of_month : String → ℕ → LogRow → Bool
of_month tenant ym r = str_eq r.tenant_id tenant && r.year_month == ym

unfoldable pub sum_tokens : List LogRow → ℕ
sum_tokens [] = 0
sum_tokens (r ∷ rows) = r.total_tokens + sum_tokens rows

unfoldable pub sum_cost : List LogRow → ℕ
sum_cost [] = 0
sum_cost (r ∷ rows) = r.cost_usd + sum_cost rows

-- `ROUND(x, 6)`: hundred-millionths to millionths, a half away from zero.
unfoldable pub round6 : ℕ → ℕ
round6 x = (x + 50) / 100

-- The month's usage; the cost is in millionths.
pub record MonthlyUsage : Type 0 where
  pub total_calls : ℕ
  pub successful_calls : ℕ
  pub failed_calls : ℕ
  pub total_tokens : ℕ
  pub total_cost : ℕ

-- `get_monthly_usage`: nothing if there was no call.
unfoldable pub get_monthly_usage : String → ℕ → List LogRow → Option MonthlyUsage
unfolding round6 of_month sum_tokens sum_cost
get_monthly_usage tenant ym log =
    let rows = filter (of_month tenant ym) log in
    if length rows == 0
    then none
    else some (record {
      total_calls = length rows;
      successful_calls = length (filter (λ r. r.succeeded) rows);
      failed_calls = length (filter (λ r. not r.succeeded) rows);
      total_tokens = sum_tokens rows;
      total_cost = round6 (sum_cost rows);
    })

-- A group of the model breakdown.
pub record ModelUsage : Type 0 where
  pub model : String
  pub provider : String
  pub call_count : ℕ
  pub total_tokens : ℕ
  pub total_cost : ℕ

unfoldable pub same_model : LogRow → ModelUsage → Bool
same_model r m = str_eq m.model r.model && str_eq m.provider r.provider

-- One row joins its group.
unfoldable pub add_to_group : LogRow → List ModelUsage → List ModelUsage
unfolding same_model
add_to_group r [] =
    record {
      model = r.model;
      provider = r.provider;
      call_count = 1;
      total_tokens = r.total_tokens;
      total_cost = r.cost_usd;
    }
    ∷ []
add_to_group r (m ∷ groups) =
    if same_model r m
    then record m {
      call_count = m.call_count + 1;
      total_tokens = m.total_tokens + r.total_tokens;
      total_cost = m.total_cost + r.cost_usd;
    }
      ∷ groups
    else m ∷ add_to_group r groups

-- `GROUP BY model, provider`
unfoldable pub group_by_model : List LogRow → List ModelUsage
unfolding add_to_group
group_by_model [] = []
group_by_model (r ∷ rows) = add_to_group r (group_by_model rows)

-- The cost of a group as the query shows it.
unfoldable pub rounded : ModelUsage → ModelUsage
unfolding round6
rounded m = record m { total_cost = round6 m.total_cost }

-- `get_model_breakdown_for_month`: the successful calls by model, ordered by the exact sum, the dearest
-- first; the cost of each group is rounded to millionths.
unfoldable pub get_model_breakdown_for_month : String → ℕ → List LogRow → List ModelUsage
unfolding of_month group_by_model rounded
get_model_breakdown_for_month tenant ym log = map rounded (
    sort_desc (λ m. m.total_cost)
      (group_by_model (filter (λ r. of_month tenant ym r && r.succeeded) log)))

module _ (fl : Floats) where
  open fl use {F, of_ℕ, of_micros, plus, times, divide, round4, is_positive, to_decimal}

  pub record Amounts : Type 0 where
    pub base_fee_usd : F
    pub forfait_tokens_used : ℕ
    pub overage_tokens : ℕ
    pub overage_charge_usd : F
    pub total_billed_usd : F

  -- The branch of pay-as-you-go, and of an unknown type.
  unfoldable pub raw_amounts : F → Amounts
  raw_amounts raw_cost = record {
    base_fee_usd = of_ℕ 0;
    forfait_tokens_used = 0;
    overage_tokens = 0;
    overage_charge_usd = of_ℕ 0;
    total_billed_usd = raw_cost;
  }

  unfoldable pub forfait_amounts : ℕ → Contract → Amounts
  forfait_amounts total_tokens k =
      let over = total_tokens - k.forfait_tokens in
      let charge = times (divide (of_ℕ over) (of_ℕ 1000)) (of_micros k.overage_rate_per_1k) in
      record {
        base_fee_usd = of_micros k.base_fee_usd;
        forfait_tokens_used = min total_tokens k.forfait_tokens;
        overage_tokens = over;
        overage_charge_usd = round4 charge;
        total_billed_usd = round4 (plus (of_micros k.base_fee_usd) charge);
      }

  -- `_apply_contract`
  unfoldable pub apply_contract : MonthlyUsage → Contract → Amounts
  unfolding raw_amounts forfait_amounts
  apply_contract u k = elim (k.contract_type) [
    | pay_as_you_go ↦ raw_amounts (of_micros u.total_cost)
    | forfait ↦ forfait_amounts u.total_tokens k
    | other _ ↦ raw_amounts (of_micros u.total_cost)
  ]

  unfoldable pub is_forfait : ContractType → Bool
  is_forfait forfait = true
  is_forfait _ = false

  unfoldable pub base_lines : ℕ → String → ℕ → Contract → List LineItem
  unfolding is_forfait
  base_lines id tenant ym k =
      if is_forfait k.contract_type && is_positive (of_micros k.base_fee_usd)
      then record {
        billing_id = id;
        tenant_id = tenant;
        year_month = ym;
        line_type = base_fee;
        model = none;
        quantity_tokens = 0;
        quantity_calls = 0;
        amount_usd = to_decimal (round4 (of_micros k.base_fee_usd));
        credit_type = none;
      }
        ∷ []
      else []

  -- One line for each model with a positive cost.
  unfoldable pub model_lines : ℕ → String → ℕ → List ModelUsage → List LineItem
  model_lines id tenant ym [] = []
  model_lines id tenant ym (m ∷ models) =
      let rest = model_lines id tenant ym models in
      if is_positive (of_micros m.total_cost)
      then record {
        billing_id = id;
        tenant_id = tenant;
        year_month = ym;
        line_type = usage_cost;
        model = some m.model;
        quantity_tokens = m.total_tokens;
        quantity_calls = m.call_count;
        amount_usd = to_decimal (round4 (of_micros m.total_cost));
        credit_type = none;
      }
        ∷ rest
      else rest

  unfoldable pub overage_lines : ℕ → String → ℕ → Amounts → List LineItem
  overage_lines id tenant ym a =
      if is_positive a.overage_charge_usd
      then record {
        billing_id = id;
        tenant_id = tenant;
        year_month = ym;
        line_type = overage;
        model = none;
        quantity_tokens = a.overage_tokens;
        quantity_calls = 0;
        amount_usd = to_decimal (round4 a.overage_charge_usd);
        credit_type = none;
      }
        ∷ []
      else []

  -- `_build_line_items`
  unfoldable pub build_line_items :
      ℕ → String → ℕ → Contract → Amounts → List ModelUsage → List LineItem
  unfolding base_lines model_lines overage_lines
  build_line_items id tenant ym k a models =
      base_lines id tenant ym k ++ (model_lines id tenant ym models ++ overage_lines id tenant ym a)
