-- ===== src/Tests/Invoices.antt =====
-- Invoices and credits at concrete inputs.
use llm_dashboard.Base.{
  ℕ, ◌+◌, ◌*◌, ◌/◌, ◌≤◌, ◌<◌, ◌≡◌, refl, sym, ◌↔◌, inl, Bool, true, false, some, List, [], ◌∷◌,
  arith, In, length, ltb,
}
use mathlib.Core.Option.{some-injective}
use llm_dashboard.Base.Int.{◌≤ℤ◌, pos}
use llm_dashboard.Billing.Contracts.{Contract, forfait, default_contract}
use llm_dashboard.Billing.Books.{
  Books, Billing, finalized, new_draft, get_by_tenant_month, geste_commercial,
}
use llm_dashboard.Billing.Engine.{
  Floats, MonthlyUsage, LogRow, apply_contract, get_model_breakdown_for_month, get_monthly_usage,
  round6, sum_tokens, sum_cost,
}
use llm_dashboard.Billing.Engine.Split.{
  sum_groups, billed, apply_contract-splits, get_model_breakdown_for_month-conserves,
}
use llm_dashboard.Billing.Invoices.{generate_monthly_invoice}
use llm_dashboard.Billing.Invoices.Rows.{IsBooks}
use llm_dashboard.Billing.Invoices.Immutable.{generate_monthly_invoice-keeps_finalized}
use llm_dashboard.Billing.Credits.{CreditRequest, issue_credit_note}
use llm_dashboard.Billing.Credits.Notes.{IsKept, issue_credit_note-IsKept}

-- Fixed-point numbers in ten-thousandths.
abbrev fixed_point : Floats
fixed_point = record {
  F = ℕ;
  of_ℕ = λ n. n * 10000;
  of_micros = λ n. n / 100;
  plus = λ a b. a + b;
  times = λ a b. (a * b) / 10000;
  divide = λ a b. (a * 10000) / b;
  round4 = λ a. a;
  is_positive = λ a. ltb 0 a;
  to_decimal = λ a. pos a;
}

abbrev plan : Contract
plan = record (default_contract "acme") {
  contract_type = forfait;
  base_fee_usd = 50000000;
  forfait_tokens = 1000;
  overage_rate_per_1k = 2000000;
}

abbrev month_usage : MonthlyUsage
month_usage = record {
  total_calls = 3;
  successful_calls = 2;
  failed_calls = 1;
  total_tokens = 1500;
  total_cost = 900000;
}

apply_contract-splits_example :
    let a = apply_contract fixed_point month_usage plan in
    (a.forfait_tokens_used + a.overage_tokens ≡ 1500)
    × (a.forfait_tokens_used ≤ 1000)
    × ((0 < a.overage_tokens) ↔ (1000 < 1500))
apply_contract-splits_example = apply_contract-splits fixed_point month_usage plan refl

abbrev row : Bool → ℕ → LogRow
row succeeded n = record {
  tenant_id = "acme";
  year_month = 202603;
  model = "gpt-4o";
  provider = "openai";
  succeeded = succeeded;
  total_tokens = n;
  cost_usd = 10000 * n;
}

abbrev three_rows : List LogRow
three_rows = row true 700 ∷ row false 0 ∷ row true 800 ∷ []

get_model_breakdown_for_month-conserves_example :
    let groups = get_model_breakdown_for_month "acme" 202603 three_rows in
    let shown = 100 * sum_groups (λ m. m.total_cost) groups in
    let spent = sum_cost (billed "acme" 202603 three_rows) in
    (sum_groups (λ m. m.total_tokens) groups ≡ sum_tokens (billed "acme" 202603 three_rows))
    × (sum_groups (λ m. m.call_count) groups ≡ length (billed "acme" 202603 three_rows))
    × (shown ≤ spent + 50 * length groups)
    × (spent ≤ shown + 50 * length groups)
get_model_breakdown_for_month-conserves_example =
    get_model_breakdown_for_month-conserves "acme" 202603 three_rows

three_rows_usage :
    get_monthly_usage "acme" 202603 three_rows ≡ some (record month_usage { total_cost = 150000 })
unfolding get_monthly_usage round6
three_rows_usage = refl

-- One finalized invoice of February, and one draft of March.
abbrev february : Billing
february = record (new_draft 1 "acme" 202602) {
  base_fee_usd = pos 500000;
  total_billed_usd = pos 500000;
  status = finalized;
  finalized_at = some 9;
}

abbrev march : Billing
march = record (new_draft 2 "acme" 202603) {
  base_fee_usd = pos 500000;
  total_billed_usd = pos 500000;
}

abbrev two_invoices : Books
two_invoices = record { invoices = february ∷ march ∷ []; lines = []; next_id = 3 }

two_invoices-IsBooks : IsBooks two_invoices
unfolding new_draft
two_invoices-IsBooks = ((omega arith, (omega arith, tt)), (((λ e. omega arith), tt), (tt, tt)))

generate_monthly_invoice-keeps_finalized_example :
    In february
      (generate_monthly_invoice fixed_point true true 10 "acme" 202602
        (record (row true 5) { year_month = 202602 } ∷ [])
        (plan ∷ [])
        two_invoices).0.invoices
generate_monthly_invoice-keeps_finalized_example =
    generate_monthly_invoice-keeps_finalized fixed_point true true 10 "acme" 202602 february
      (record (row true 5) { year_month = 202602 } ∷ []) (plan ∷ []) two_invoices
      two_invoices-IsBooks (inl refl) refl

abbrev gesture : CreditRequest
gesture = record { amount = pos 100000; reason_length = 10; credit_type = geste_commercial }

-- A draft under pay-as-you-go: its total is the raw cost.
abbrev april : Billing
april = record (new_draft 1 "acme" 202604) { total_billed_usd = pos 500000 }

abbrev one_invoice : Books
one_invoice = record { invoices = april ∷ []; lines = []; next_id = 2 }

one_invoice-IsBooks : IsBooks one_invoice
one_invoice-IsBooks = unfold new_draft in ((omega arith, tt), (tt, tt))

april_bare :
    (b : Billing)
    → get_by_tenant_month "acme" 202604 one_invoice ≡ some b
    → (b.base_fee_usd ≡ pos 0) × (b.overage_charge_usd ≡ pos 0) × (pos 0 ≤ℤ b.credits_usd)
unfolding get_by_tenant_month new_draft
april_bare b e = rw (sym (some-injective april b e)) (refl, refl, omega arith)

issue_credit_note-IsKept_example :
    IsKept february (issue_credit_note false gesture "acme" 202602 two_invoices).0.invoices
issue_credit_note-IsKept_example =
    issue_credit_note-IsKept false gesture "acme" 202602 two_invoices february (inl refl)
