-- ===== src/Billing/Credits/Amounts.antt =====
-- The arithmetic of a credit.
use llm_dashboard.Base.{◌≡◌, refl, sym, ap, ◌∙◌, inl, inr, none, arith, Bool-cases, if◌then◌else◌}
use llm_dashboard.Base.Int.{ℤ, pos, ◌+ℤ◌, ◌-ℤ◌, ◌≤ℤ◌, ltb_ℤ, eq_of_parts, +ℤ_parts, -ℤ_parts}
use llm_dashboard.Billing.Books.{Billing}
use llm_dashboard.Billing.Credits.{
  CreditRequest, credited_total, credit_billing, validate_credit_input,
}

-- The total of an invoice is its fee and its overage less its credits.
abbrev pub IsBalanced : Billing → Type 0
IsBalanced b =
    (b.total_billed_usd ≡ (b.base_fee_usd +ℤ b.overage_charge_usd) -ℤ b.credits_usd)
    × (pos 0 ≤ℤ b.total_billed_usd)

floor_at_zero : (t : ℤ) → pos 0 ≤ℤ t → (if ltb_ℤ t (pos 0) then pos 0 else t) ≡ t
floor_at_zero t h = ground arith

less_amount :
    (charges credits amount : ℤ)
    → amount ≤ℤ (charges -ℤ credits)
    → (charges -ℤ (credits +ℤ amount) ≡ (charges -ℤ credits) -ℤ amount)
      × (pos 0 ≤ℤ (charges -ℤ (credits +ℤ amount)))
less_amount charges credits amount le =
    let sum = +ℤ_parts credits amount in
    let old = -ℤ_parts charges credits in
    let new = -ℤ_parts charges (credits +ℤ amount) in
    let less = -ℤ_parts (charges -ℤ credits) amount in (eq_of_parts _ _ (omega arith), omega arith)

pub credit_billing-IsBalanced :
    (r : CreditRequest) (b : Billing)
    → IsBalanced b
    → r.amount ≤ℤ b.total_billed_usd
    → IsBalanced (credit_billing r b b)
      × ((credit_billing r b b).total_billed_usd ≡ b.total_billed_usd -ℤ r.amount)
unfolding credit_billing credited_total
credit_billing-IsBalanced r b h le =
    let charges = b.base_fee_usd +ℤ b.overage_charge_usd in
    let (same, positive) = less_amount charges b.credits_usd r.amount (rw (sym h.0) le) in
    let kept : credited_total (b.credits_usd +ℤ r.amount) b
        ≡ charges -ℤ (b.credits_usd +ℤ r.amount) =
      floor_at_zero _ positive in
    ((kept, rw kept positive), kept ∙ (same ∙ ap (λ t. t -ℤ r.amount) (sym h.0)))

-- A credit of a valid amount on an invoice without base fee and overage.
pub zero_total :
    (credits amount : ℤ)
    → pos 0 ≤ℤ credits
    → pos 0 ≤ℤ amount
    → (let t = (pos 0 +ℤ pos 0) -ℤ (credits +ℤ amount) in if ltb_ℤ t (pos 0) then pos 0 else t)
      ≡ pos 0
zero_total credits amount c a =
    let sum = +ℤ_parts credits amount in
    let zero_sum = +ℤ_parts (pos 0) (pos 0) in
    let t = (pos 0 +ℤ pos 0) -ℤ (credits +ℤ amount) in
    let difference = -ℤ_parts (pos 0 +ℤ pos 0) (credits +ℤ amount) in
    elim (Bool-cases (ltb_ℤ t (pos 0))) [
      | inl below ↦ rw below refl
      | inr not_below ↦ rw not_below (eq_of_parts t (pos 0) (ground arith))
    ]

pub validate_credit_input-positive :
    (r : CreditRequest) → validate_credit_input r ≡ none → pos 0 ≤ℤ r.amount
unfolding validate_credit_input
validate_credit_input-positive r h = ground arith
