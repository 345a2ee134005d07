-- ===== src/Billing/Credits.antt =====
-- Credits (modules/billing/services/credit_service.py). A reason counts by its length once stripped. The code
-- logs after the commit with keyword arguments, which raises a TypeError if the level INFO is enabled, so this
-- is a parameter.
pub mod Amounts
pub mod Totals
pub mod Notes
use llm_dashboard.Base.{
  ℕ, ◌+◌, ◌*◌, ◌==◌, Bool, true, false, ◌&&◌, ◌||◌, Option, none, some, List, [], ◌∷◌, ◌++◌, String,
  str_eq, ltb, leb, if◌then◌else◌,
}
use llm_dashboard.Base.Int.{ℤ, pos, ◌+ℤ◌, ◌-ℤ◌, ltb_ℤ, leb_ℤ}
use llm_dashboard.Billing.Books.{
  Books, Billing, Status, draft, finalized, corrected, credit_note, disputed, LineItem, credit,
  CreditType, geste_commercial, incident_refund, volume_discount, promo_credit, unknown, Reply, ok,
  value_error, type_error, Failure, not_found, already_finalized, bad_amount, bad_reason,
  bad_credit_type, is_credit_note, exceeds_total, not_finalized, duplicate_key, is_finalized,
  get_by_tenant_month, update_billing, set_row, new_draft, get_credit_line_items,
}

pub record CreditRequest : Type 0 where
  pub amount : ℤ
  pub reason_length : ℕ
  pub credit_type : CreditType

unfoldable pub is_known : CreditType → Bool
is_known (unknown _) = false
is_known _ = true

-- `_validate_credit_input`: the error it raises, if any.
unfoldable pub validate_credit_input : CreditRequest → Option Failure
unfolding is_known
validate_credit_input r =
    if leb_ℤ r.amount (pos 0)
    then some bad_amount
    else if ltb r.reason_length 3
    then some bad_reason
    else if is_known r.credit_type
    then none
    else some bad_credit_type

unfoldable pub credit_line : CreditRequest → ℕ → String → ℕ → LineItem
credit_line r id tenant ym = record {
  billing_id = id;
  tenant_id = tenant;
  year_month = ym;
  line_type = credit;
  model = none;
  quantity_tokens = 0;
  quantity_calls = 0;
  amount_usd = pos 0 -ℤ r.amount;
  credit_type = some r.credit_type;
}

unfoldable pub add_line : LineItem → Books → Books
add_line l k = record k { lines = k.lines ++ l ∷ [] }

unfoldable pub is_note : Status → Bool
is_note credit_note = true
is_note _ = false

-- The new total, which stops at zero.
unfoldable pub credited_total : ℤ → Billing → ℤ
credited_total credits b =
    let total = (b.base_fee_usd +ℤ b.overage_charge_usd) -ℤ credits in
    if ltb_ℤ total (pos 0) then pos 0 else total

-- The fields that the recalculation sets.
unfoldable pub credit_billing : CreditRequest → Billing → Billing → Billing
unfolding credited_total
credit_billing r read b =
    let credits = read.credits_usd +ℤ r.amount in
    record b { credits_usd = credits; total_billed_usd = credited_total credits read }

-- The log call after a commit.
unfoldable pub log_info : Bool → Books × Reply Billing → Books × Reply Billing
log_info enabled (k, ok b) = (k, if enabled then type_error else ok b)
log_info enabled (k, r) = (k, r)

module _ (info_enabled : Bool) (r : CreditRequest) (tenant : String) (ym : ℕ) where
  unfoldable pub credit_invoice : Billing → Books → Books × Reply Billing
  unfolding is_finalized is_note add_line credit_line update_billing credit_billing log_info
  credit_invoice b k =
      if is_finalized b.status
      then (k, value_error already_finalized)
      else if is_note b.status
      then (k, value_error is_credit_note)
      else if ltb_ℤ b.total_billed_usd r.amount
      then (k, value_error exceeds_total)
      else log_info info_enabled
          (update_billing b.id (credit_billing r b) (add_line (credit_line r b.id tenant ym) k))

  unfoldable pub apply_credit : Books → Books × Reply Billing
  unfolding validate_credit_input get_by_tenant_month credit_invoice
  apply_credit k = elim (validate_credit_input r) [
    | some e ↦ (k, value_error e)
    | none ↦ elim (get_by_tenant_month tenant ym k) [
      | none ↦ (k, value_error not_found)
      | some b ↦ credit_invoice b k
    ]
  ]

-- A row of the tenant whose month number is in the range of the month's credit notes.
unfoldable pub in_note_range : String → ℕ → Billing → Bool
in_note_range tenant ym b =
    str_eq b.tenant_id tenant && (leb (ym * 100) b.year_month && ltb b.year_month (ym * 100 + 100))

-- `SELECT MAX(year_month)` of those rows.
unfoldable pub max_note_ym : String → ℕ → List Billing → Option ℕ
unfolding in_note_range
max_note_ym tenant ym [] = none
max_note_ym tenant ym (b ∷ bs) =
    let rest = max_note_ym tenant ym bs in
    if in_note_range tenant ym b
    then some (elim rest [
      | none ↦ b.year_month
      | some m ↦ if ltb b.year_month m then m else b.year_month
    ])
    else rest

-- `_next_credit_note_ym`
unfoldable pub next_credit_note_ym : String → ℕ → Books → ℕ
unfolding max_note_ym
next_credit_note_ym tenant ym k = elim (max_note_ym tenant ym k.invoices) [
  | none ↦ ym * 100 + 1
  | some m ↦ m + 1
]

unfoldable pub is_correctable : Status → Bool
is_correctable finalized = true
is_correctable corrected = true
is_correctable _ = false

unfoldable pub mark_corrected : Billing → Billing
unfolding is_finalized
mark_corrected b = if is_finalized b.status then record b { status = corrected } else b

-- The row of the credit note; its number goes on where the numbers of the table stop.
unfoldable pub new_note : CreditRequest → String → ℕ → ℕ → Books → Billing
unfolding new_draft
new_note r tenant cn original k = record (new_draft k.next_id tenant cn) {
  credits_usd = r.amount;
  total_billed_usd = pos 0 -ℤ r.amount;
  status = credit_note;
  notes = some original;
}

module _ (info_enabled : Bool) (r : CreditRequest) (tenant : String) (ym : ℕ) where
  -- The note, its line and the original's new status. A taken number violates the unique key, and
  -- nothing is committed.
  unfoldable pub write_note : Billing → ℕ → Books → Books × Reply Billing
  unfolding get_by_tenant_month new_note set_row mark_corrected add_line credit_line log_info
  write_note b cn k = elim (get_by_tenant_month tenant cn k) [
    | some _ ↦ (k, value_error duplicate_key)
    | none ↦
        let note = new_note r tenant cn b.id k in
        let marked = set_row b.id mark_corrected k in
        let k1 = record marked {
          invoices = marked.invoices ++ note ∷ [];
          next_id = k.next_id + 1;
        } in
        log_info info_enabled (add_line (credit_line r note.id tenant cn) k1, ok note)
  ]

  unfoldable pub note_against : Billing → Books → Books × Reply Billing
  unfolding is_correctable next_credit_note_ym write_note
  note_against b k =
      if is_correctable b.status
      then if ltb_ℤ b.total_billed_usd r.amount
        then (k, value_error exceeds_total)
        else write_note b (next_credit_note_ym tenant ym k) k
      else (k, value_error not_finalized)

  unfoldable pub issue_credit_note : Books → Books × Reply Billing
  unfolding validate_credit_input get_by_tenant_month note_against
  issue_credit_note k = elim (validate_credit_input r) [
    | some e ↦ (k, value_error e)
    | none ↦ elim (get_by_tenant_month tenant ym k) [
      | none ↦ (k, value_error not_found)
      | some b ↦ note_against b k
    ]
  ]

unfoldable pub list_credits : String → ℕ → Books → List LineItem
unfolding get_by_tenant_month get_credit_line_items
list_credits tenant ym k = elim (get_by_tenant_month tenant ym k) [
  | none ↦ []
  | some b ↦ get_credit_line_items b.id k
]
