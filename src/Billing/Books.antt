-- ===== src/Billing/Books.antt =====
-- The billing tables and their repository (modules/billing/models.py,
-- modules/billing/repositories/billing_repository.py). Amounts are whole numbers of a ten-thousandth of a
-- dollar, the scale of the columns. A table is a list of rows; (tenant_id, year_month) is unique.
-- A ValueError comes back as a value. The client report is left out.
use llm_dashboard.Base.{
  ℕ, zero, suc, ◌+◌, ◌==◌, Bool, true, false, ◌&&◌, not, Option, none, some, List, [], ◌∷◌, ◌++◌,
  String, str_eq, if◌then◌else◌, length, find, filter, update_where, sort_desc,
}
use llm_dashboard.Base.Int.{ℤ, pos}

pub data Status : Type 0 where
  draft finalized corrected credit_note disputed : Status

-- A row of llm_billing_monthly. The note of a credit note is the id of the original invoice.
pub record Billing : Type 0 where
  pub id : ℕ
  pub tenant_id : String
  pub year_month : ℕ
  pub total_calls : ℕ
  pub total_tokens : ℕ
  pub raw_cost_usd : ℤ
  pub forfait_tokens_included : ℕ
  pub forfait_tokens_used : ℕ
  pub overage_tokens : ℕ
  pub base_fee_usd : ℤ
  pub overage_charge_usd : ℤ
  pub credits_usd : ℤ
  pub total_billed_usd : ℤ
  pub status : Status
  pub notes : Option ℕ
  pub finalized_at : Option ℕ

pub data LineType : Type 0 where
  base_fee usage_cost overage credit : LineType

-- A row of llm_billing_line_items; the description and the unit price are left out.
pub data CreditType : Type 0 where
  geste_commercial incident_refund volume_discount promo_credit : CreditType
  unknown : String → CreditType

pub record LineItem : Type 0 where
  pub billing_id : ℕ
  pub tenant_id : String
  pub year_month : ℕ
  pub line_type : LineType
  pub model : Option String
  pub quantity_tokens : ℕ
  pub quantity_calls : ℕ
  pub amount_usd : ℤ
  pub credit_type : Option CreditType

-- The two tables, and the identifier of the next new row.
pub record Books : Type 0 where
  pub invoices : List Billing
  pub lines : List LineItem
  pub next_id : ℕ

pub data Failure : Type 0 where
  already_finalized not_found bad_amount bad_reason bad_credit_type is_credit_note exceeds_total
        not_finalized :
      Failure
  duplicate_key : Failure

-- What a call returns or raises.
pub data Reply (A : Type 0) : Type 0 where
  ok : A → Reply A
  value_error : Failure → Reply A
  type_error : Reply A

unfoldable pub is_finalized : Status → Bool
is_finalized finalized = true
is_finalized _ = false

unfoldable pub of_tenant_month : String → ℕ → Billing → Bool
of_tenant_month tenant ym b = str_eq b.tenant_id tenant && b.year_month == ym

unfoldable pub get_by_tenant_month : String → ℕ → Books → Option Billing
unfolding of_tenant_month
get_by_tenant_month tenant ym k = find (of_tenant_month tenant ym) k.invoices

unfoldable pub get_by_id : ℕ → Books → Option Billing
get_by_id id k = find (λ b. b.id == id) k.invoices

-- `LLMBillingMonthly(tenant_id, year_month, status="draft")` with the defaults of the columns.
unfoldable pub new_draft : ℕ → String → ℕ → Billing
new_draft id tenant ym = record {
  id = id;
  tenant_id = tenant;
  year_month = ym;
  total_calls = 0;
  total_tokens = 0;
  raw_cost_usd = pos 0;
  forfait_tokens_included = 0;
  forfait_tokens_used = 0;
  overage_tokens = 0;
  base_fee_usd = pos 0;
  overage_charge_usd = pos 0;
  credits_usd = pos 0;
  total_billed_usd = pos 0;
  status = draft;
  notes = none;
  finalized_at = none;
}

unfoldable pub get_or_create_draft : String → ℕ → Books → Books × Reply Billing
unfolding get_by_tenant_month new_draft is_finalized
get_or_create_draft tenant ym k = elim (get_by_tenant_month tenant ym k) [
  | some b ↦ (k, if is_finalized b.status then value_error already_finalized else ok b)
  | none ↦
      let fresh = new_draft k.next_id tenant ym in
      (record k { invoices = k.invoices ++ fresh ∷ []; next_id = k.next_id + 1 }, ok fresh)
]

-- The row with the identifier is rewritten.
unfoldable pub set_row : ℕ → (Billing → Billing) → Books → Books
set_row id f k = record k { invoices = update_where (λ b. b.id == id) f k.invoices }

unfoldable pub update_billing : ℕ → (Billing → Billing) → Books → Books × Reply Billing
unfolding get_by_id set_row
update_billing id f k = elim (get_by_id id k) [
  | none ↦ (k, value_error not_found)
  | some b ↦ (set_row id f k, ok (f b))
]

unfoldable pub freeze : ℕ → Billing → Billing
freeze now b = record b { status = finalized; finalized_at = some now }

-- `finalize`: a second call changes nothing.
unfoldable pub finalize : ℕ → ℕ → Books → Books × Reply Billing
unfolding get_by_id set_row freeze is_finalized
finalize now id k = elim (get_by_id id k) [
  | none ↦ (k, value_error not_found)
  | some b ↦
      if is_finalized b.status then (k, ok b) else (set_row id (freeze now) k, ok (freeze now b))
]

-- The newest months first; the `limit` newest are returned.
unfoldable pub take : ℕ → List Billing → List Billing
take n [] = []
take n (b ∷ bs) = elim n [ zero ↦ [] | suc m ↦ b ∷ take m bs ]

unfoldable pub list_for_tenant : String → ℕ → Books → List Billing
unfolding take
list_for_tenant tenant limit k =
    take limit (sort_desc (λ b. b.year_month) (filter (λ b. str_eq b.tenant_id tenant) k.invoices))

-- `create_line_items`: the lines of the first item's invoice are replaced; an empty list does
-- nothing. The number of lines is returned.
unfoldable pub create_line_items : List LineItem → Books → Books × ℕ
create_line_items [] k = (k, 0)
create_line_items (i ∷ items) k = (
  record k { lines = filter (λ l. not (l.billing_id == i.billing_id)) k.lines ++ i ∷ items },
  length (i ∷ items),
)

-- `get_line_items`, in the order of the table.
unfoldable pub get_line_items : ℕ → Books → List LineItem
get_line_items id k = filter (λ l. l.billing_id == id) k.lines

unfoldable pub is_credit : LineType → Bool
is_credit credit = true
is_credit _ = false

unfoldable pub get_credit_line_items : ℕ → Books → List LineItem
unfolding is_credit
get_credit_line_items id k = filter (λ l. l.billing_id == id && is_credit l.line_type) k.lines
