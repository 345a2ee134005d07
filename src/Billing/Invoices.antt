-- ===== src/Billing/Invoices.antt =====
-- Invoicing (modules/billing/services/billing_service.py): the pipeline for one tenant and one month, and the
-- batch over tenants. The client report is left out. The dispatch of the webhook is a parameter: whether it
-- raises, in which case the handler's call of the logger with keyword arguments raises a TypeError.
pub mod Rows
pub mod Immutable
use llm_dashboard.Base.{
  ℕ, Bool, true, false, ◌&&◌, Option, none, some, List, [], ◌∷◌, String, if◌then◌else◌, length,
}
use llm_dashboard.Base.Int.{ℤ, pos}
use llm_dashboard.Billing.Contracts.{
  Contract, Contracts, ContractStatus, draft, proposed, active, rejected, get_contract,
}
use llm_dashboard.Billing.Books.{
  Books, Billing, Reply, ok, value_error, type_error, Failure, not_found, get_or_create_draft,
  update_billing, create_line_items, finalize, get_by_tenant_month, set_row, freeze, is_finalized,
}
use llm_dashboard.Billing.Engine.{
  Floats, MonthlyUsage, ModelUsage, LogRow, Amounts, apply_contract, build_line_items,
  get_monthly_usage, get_model_breakdown_for_month,
}

-- What `generate_monthly_invoice` returns or raises: three refusals, the invoice with the number of its lines,
-- a ValueError, and the TypeError of the logger.
pub data Generated : Type 0 where
  no_usage no_contract : Generated
  inactive : ContractStatus → Generated
  invoice : Billing → ℕ → Generated
  raised : Failure → Generated
  logger_error : Generated

unfoldable pub is_active : ContractStatus → Bool
is_active active = true
is_active _ = false

-- The step that follows a call of the repository; a ValueError passes through.
unfoldable pub then_do :
    (Billing → Books → Books × Generated) → Books × Reply Billing → Books × Generated
then_do f (k, ok b) = f b k
then_do f (k, value_error e) = (k, raised e)
then_do f (k, type_error) = (k, logger_error)

module _ (fl : Floats) where
  open fl use {of_micros, round4, to_decimal}

  -- The fields that step 5 sets.
  unfoldable pub bill_usage : MonthlyUsage → Contract → Amounts fl → Billing → Billing
  bill_usage u c a b = record b {
    total_calls = u.total_calls;
    total_tokens = u.total_tokens;
    raw_cost_usd = to_decimal (round4 (of_micros u.total_cost));
    forfait_tokens_included = c.forfait_tokens;
    forfait_tokens_used = a.forfait_tokens_used;
    overage_tokens = a.overage_tokens;
    base_fee_usd = to_decimal (round4 a.base_fee_usd);
    overage_charge_usd = to_decimal (round4 a.overage_charge_usd);
    credits_usd = pos 0;
    total_billed_usd = to_decimal (round4 a.total_billed_usd);
  }

  module _ (finalizing webhook_raises : Bool) (now : ℕ) (tenant : String) (ym : ℕ) where
    -- The commit and the webhook.
    unfoldable pub conclude : ℕ → Billing → Books → Books × Generated
    conclude n b k = (k, if finalizing && webhook_raises then logger_error else invoice b n)

    -- Steps 6 to 9: the lines, and the freeze where it is asked for.
    unfoldable pub write_lines :
        Contract → Amounts fl → List ModelUsage → Billing → Books → Books × Generated
    unfolding build_line_items create_line_items conclude then_do finalize
    write_lines c a models b k =
        let items = build_line_items fl b.id tenant ym c a models in
        let k1 = (create_line_items items k).0 in
        if finalizing
        then then_do (conclude (length items)) (finalize now b.id k1)
        else conclude (length items) b k1

    -- Steps 4 and 5.
    unfoldable pub write_invoice :
        MonthlyUsage → Contract → List ModelUsage → Books → Books × Generated
    unfolding apply_contract get_or_create_draft update_billing write_lines bill_usage then_do
    write_invoice u c models k =
        let a = apply_contract fl u c in
        then_do
          (λ b k1. then_do (write_lines c a models) (update_billing b.id (bill_usage u c a) k1))
          (get_or_create_draft tenant ym k)

    -- `generate_monthly_invoice`
    unfoldable pub generate_monthly_invoice : List LogRow → Contracts → Books → Books × Generated
    unfolding get_monthly_usage get_contract get_model_breakdown_for_month is_active write_invoice
    generate_monthly_invoice log contracts k = elim (get_monthly_usage tenant ym log) [
      | none ↦ (k, no_usage)
      | some u ↦ elim (get_contract tenant contracts) [
        | none ↦ (k, no_contract)
        | some c ↦
            if is_active c.status
            then write_invoice u c (get_model_breakdown_for_month tenant ym log) k
            else (k, inactive c.status)
      ]
    ]

  -- `generate_all_for_month`: the outcomes in the order of the tenants; an outcome that is not an invoice is
  -- one of the errors.
  unfoldable pub generate_all_for_month :
      Bool
      → (String → Bool)
      → ℕ
      → ℕ
      → List LogRow
      → Contracts
      → List String
      → Books
      → Books × List Generated
  unfolding generate_monthly_invoice
  generate_all_for_month finalizing webhook_raises now ym log contracts [] k = (k, [])
  generate_all_for_month finalizing webhook_raises now ym log contracts (t ∷ ts) k =
      let r = generate_monthly_invoice finalizing (webhook_raises t) now t ym log contracts k in
      let rest = generate_all_for_month finalizing webhook_raises now ym log contracts ts r.0 in
      (rest.0, r.1 ∷ rest.1)

-- `finalize_invoice`: whether the invoice was found.
unfoldable pub finalize_invoice : ℕ → String → ℕ → Books → Books × Bool
unfolding get_by_tenant_month set_row freeze is_finalized
finalize_invoice now tenant ym k = elim (get_by_tenant_month tenant ym k) [
  | none ↦ (k, false)
  | some b ↦ if is_finalized b.status then (k, true) else (set_row b.id (freeze now) k, true)
]
