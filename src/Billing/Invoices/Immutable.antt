-- ===== src/Billing/Invoices/Immutable.antt =====
-- A finalized invoice does not change when invoices are generated or credits are applied.
use llm_dashboard.Base.{
  ℕ, ◌≡◌, refl, ◌≢◌, inl, inr, Bool, true, Option, none, some, List, String, length, In, Bool-cases,
  if◌then◌else◌,
}
use llm_dashboard.Billing.Contracts.{Contract, Contracts, get_contract}
use llm_dashboard.Billing.Books.{
  Books, Billing, finalized, get_or_create_draft, update_billing, create_line_items, finalize,
}
use llm_dashboard.Billing.Engine.{
  Floats, LogRow, MonthlyUsage, ModelUsage, Amounts, apply_contract, build_line_items,
  get_monthly_usage, get_model_breakdown_for_month,
}
use llm_dashboard.Billing.Invoices.{
  is_active, no_usage, no_contract, inactive, Generated, then_do, generate_monthly_invoice,
  write_invoice, write_lines, conclude, bill_usage,
}
use llm_dashboard.Billing.Invoices.Rows.{
  IsBooks, then_do-keeps, get_or_create_draft-LeavesAlone, update_billing-LeavesAlone,
  finalize-LeavesAlone, create_line_items-invoices,
}

module _ (fl : Floats) (finalizing webhook_raises : Bool) (now : ℕ) (tenant : String) (ym : ℕ)
    (b : Billing) where
  write_lines-keeps :
      (c : Contract) (a : Amounts fl) (models : List ModelUsage) (d : Billing) (k : Books)
      → In b k.invoices
      → b.id ≢ d.id
      → In b (write_lines fl finalizing webhook_raises now tenant ym c a models d k).0.invoices
  unfolding write_lines conclude
  write_lines-keeps c a models d k m h =
      let items = build_line_items fl d.id tenant ym c a models in
      let m1 : In b (create_line_items items k).0.invoices =
        rw (create_line_items-invoices items k) m in
      elim (Bool-cases finalizing) [
        | inl t ↦ rw t (
            then_do-keeps b (conclude fl true webhook_raises now tenant ym (length items))
              (finalize now d.id (create_line_items items k).0)
              (finalize-LeavesAlone now b d.id (create_line_items items k).0 h m1) (λ _ _ m2 _. m2))
        | inr f ↦ rw f m1
      ]

  write_invoice-keeps :
      (u : MonthlyUsage) (c : Contract) (models : List ModelUsage) (k : Books)
      → IsBooks k
      → In b k.invoices
      → b.status ≡ finalized
      → In b (write_invoice fl finalizing webhook_raises now tenant ym u c models k).0.invoices
  unfolding write_invoice bill_usage
  write_invoice-keeps u c models k own m h =
      let a = apply_contract fl u c in
      then_do-keeps b
        (λ d k1.
          then_do (write_lines fl finalizing webhook_raises now tenant ym c a models)
            (update_billing d.id (bill_usage fl u c a) k1))
        (get_or_create_draft tenant ym k) (get_or_create_draft-LeavesAlone tenant ym b k own m h)
        (λ d k1 m1 h1.
          then_do-keeps b (write_lines fl finalizing webhook_raises now tenant ym c a models)
            (update_billing d.id (bill_usage fl u c a) k1)
            (update_billing-LeavesAlone b d.id (bill_usage fl u c a) k1 (λ _. refl) h1 m1)
            (λ e k2 m2 h2. write_lines-keeps c a models e k2 m2 h2))

  -- However an invoice is generated for a tenant and a month, a finalized row of the table stays a row
  -- of it, unchanged, provided the identifiers in the table are distinct and below the next one.
  pub generate_monthly_invoice-keeps_finalized :
      (log : List LogRow) (contracts : Contracts) (k : Books)
      → IsBooks k
      → In b k.invoices
      → b.status ≡ finalized
      → In b
          (generate_monthly_invoice fl finalizing webhook_raises now tenant ym log contracts
            k).0.invoices
  unfolding generate_monthly_invoice
  generate_monthly_invoice-keeps_finalized log contracts k own m h =
      go (get_monthly_usage tenant ym log) (get_contract tenant contracts)
    where
      models : List ModelUsage
      models = get_model_breakdown_for_month tenant ym log

      go :
          (o : Option MonthlyUsage) (p : Option Contract)
          → In b
              (elim o as (λ _. Books × Generated) [
                | none ↦ (k, no_usage)
                | some u ↦ elim p as (λ _. Books × Generated) [
                  | none ↦ (k, no_contract)
                  | some c ↦
                      if is_active c.status
                      then write_invoice fl finalizing webhook_raises now tenant ym u c models k
                      else (k, inactive c.status)
                ]
              ]).0.invoices
      go none p = m
      go (some u) none = m
      go (some u) (some c) = elim (Bool-cases (is_active c.status)) [
        | inl t ↦ rw t (write_invoice-keeps u c models k own m h)
        | inr f ↦ rw f m
      ]
