-- ===== src/Billing/Credits/Totals.antt =====
-- What a credit does to the total of an invoice, and when it is refused.
use llm_dashboard.Base.{
  ℕ, ◌==◌, ◌≡◌, refl, sym, ap, ◌∙◌, inl, inr, true, false, Option, none, some, List, [], ◌∷◌,
  String, arith, find-In, ==_iff, In, In-find, Bool-cases, update_where,
}
use llm_dashboard.Base.Int.{pos, ◌≤ℤ◌, ltb_ℤ}
use llm_dashboard.Billing.Books.{
  Books, Billing, Reply, ok, value_error, type_error, is_finalized, get_by_tenant_month, get_by_id,
  set_row, update_billing, Failure, of_tenant_month, not_found,
}
use llm_dashboard.Billing.Invoices.Rows.{IsBooks, same_id}
use llm_dashboard.Billing.Credits.{
  log_info, is_note, add_line, credit_line, CreditRequest, credited_total, credit_billing,
  credit_invoice, apply_credit, validate_credit_input,
}
use llm_dashboard.Billing.Credits.Amounts.{zero_total, validate_credit_input-positive}

-- Why `apply_credit` refuses.
pub data Refused (r : CreditRequest) (tenant : String) (ym : ℕ) (k : Books) : Type 0 where
  invalid : (e : Failure) → validate_credit_input r ≡ some e → Refused r tenant ym k
  missing : get_by_tenant_month tenant ym k ≡ none → Refused r tenant ym k
  frozen :
      (b : Billing)
      → get_by_tenant_month tenant ym k ≡ some b
      → is_finalized b.status ≡ true
      → Refused r tenant ym k
  against_note :
      (b : Billing)
      → get_by_tenant_month tenant ym k ≡ some b
      → is_note b.status ≡ true
      → Refused r tenant ym k
  too_large :
      (b : Billing)
      → get_by_tenant_month tenant ym k ≡ some b
      → ltb_ℤ b.total_billed_usd r.amount ≡ true
      → Refused r tenant ym k

-- What a call of `apply_credit` comes to, by what it returns; `Good` relates the invoice as it was to the row
-- that comes back.
abbrev pub Credited :
    (Billing → Billing → Type 0)
    → CreditRequest
    → String
    → ℕ
    → Books
    → Books × Reply Billing
    → Type 0
Credited Good r tenant ym k (k1, ok b1) =
    (b : Billing) × (get_by_tenant_month tenant ym k ≡ some b)
    × (is_finalized b.status ≡ false)
    × Good b b1
    × In b1 k1.invoices
Credited Good r tenant ym k (k1, value_error _) = (k1 ≡ k) × Refused r tenant ym k
Credited Good r tenant ym k (k1, type_error) = ⊥

==_refl : (n : ℕ) → (n == n) ≡ true
==_refl n = (==_iff n n).1 refl

In-updated :
    (id : ℕ) (f : Billing → Billing) (b : Billing) (bs : List Billing)
    → b.id ≡ id
    → In b bs
    → In (f b) (update_where (λ x. x.id == id) f bs)
In-updated id f b [] e m = absurd m
In-updated id f b (x ∷ xs) e (inl q) = inl (rw (sym q) (rw (ap (λ i. i == id) e ∙ ==_refl id) refl))
In-updated id f b (x ∷ xs) e (inr m) = inr (In-updated id f b xs e m)

module _ (Good : Billing → Billing → Type 0) (r : CreditRequest) (tenant : String) (ym : ℕ)
    (k : Books) (own : IsBooks k)
    (good : (b : Billing)
      → get_by_tenant_month tenant ym k ≡ some b
      → validate_credit_input r ≡ none
      → r.amount ≤ℤ b.total_billed_usd
      → Good b (credit_billing r b b)) where
  update-Credited :
      (b : Billing)
      → get_by_tenant_month tenant ym k ≡ some b
      → is_finalized b.status ≡ false
      → validate_credit_input r ≡ none
      → r.amount ≤ℤ b.total_billed_usd
      → Credited Good r tenant ym k (
          log_info false
            (update_billing b.id (credit_billing r b) (add_line (credit_line r b.id tenant ym) k)))
  unfolding log_info update_billing add_line get_by_id get_by_tenant_month set_row credit_billing
  update-Credited b e open_row valid le = go (get_by_id b.id k) refl
    where
      m : In b k.invoices
      m = (In-find (of_tenant_month tenant ym) b k.invoices e).0

      go :
          (o : Option Billing)
          → get_by_id b.id k ≡ o
          → Credited Good r tenant ym k (
              log_info false (elim o as (λ _. Books × Reply Billing) [
                | none ↦ (add_line (credit_line r b.id tenant ym) k, value_error not_found)
                | some d ↦ (
                  set_row b.id (credit_billing r b) (add_line (credit_line r b.id tenant ym) k),
                  ok (credit_billing r b d),
                )
              ]))
      go none q = absurd (find-In (λ x. x.id == b.id) b k.invoices m (==_refl b.id) q)
      go (some d) q =
          let (md, t) = In-find (λ x. x.id == b.id) d k.invoices q in
          let same : d ≡ b = same_id d b k.invoices own.1 md m ((==_iff d.id b.id).0 t) in
          rw same (
            b,
            e,
            open_row,
            good b e valid le,
            In-updated b.id (credit_billing r b) b k.invoices refl m,
          )

  credit_invoice-Credited :
      (b : Billing)
      → get_by_tenant_month tenant ym k ≡ some b
      → validate_credit_input r ≡ none
      → Credited Good r tenant ym k (credit_invoice false r tenant ym b k)
  unfolding credit_invoice
  credit_invoice-Credited b e valid = elim (Bool-cases (is_finalized b.status)) [
    | inl t ↦ rw t (refl, frozen b e t)
    | inr f ↦ elim (Bool-cases (is_note b.status)) [
      | inl t ↦ rw (f, t) (refl, against_note b e t)
      | inr g ↦ elim (Bool-cases (ltb_ℤ b.total_billed_usd r.amount)) [
        | inl t ↦ rw (f, g, t) (refl, too_large b e t)
        | inr h ↦ rw (f, g, h) (update-Credited b e f valid (ground arith))
      ]
    ]
  ]

  apply_credit_by : Credited Good r tenant ym k (apply_credit false r tenant ym k)
  unfolding apply_credit
  apply_credit_by = go (validate_credit_input r) (get_by_tenant_month tenant ym k) refl refl
    where
      go :
          (v : Option Failure) (o : Option Billing)
          → validate_credit_input r ≡ v
          → get_by_tenant_month tenant ym k ≡ o
          → Credited Good r tenant ym k (elim v as (λ _. Books × Reply Billing) [
            | some e ↦ (k, value_error e)
            | none ↦ elim o as (λ _. Books × Reply Billing) [
              | none ↦ (k, value_error not_found)
              | some b ↦ credit_invoice false r tenant ym b k
            ]
          ])
      go (some e) o v q = (refl, invalid e v)
      go none none v q = (refl, missing q)
      go none (some b) v q = credit_invoice-Credited b q v

module _ (r : CreditRequest) (tenant : String) (ym : ℕ) (k : Books) (own : IsBooks k) where
  -- With the log level INFO off, the identifiers in the table distinct and below the next one, and
  -- the tenant's invoice for the month, if there is one, without base fee and overage, as under
  -- pay-as-you-go, and with credits that are not negative: a credit that `apply_credit` accepts,
  -- however small, makes the total zero. It refuses for the same reasons as always.
  pub apply_credit_zero :
      ((b : Billing)
        → get_by_tenant_month tenant ym k ≡ some b
        → (b.base_fee_usd ≡ pos 0) × (b.overage_charge_usd ≡ pos 0) × (pos 0 ≤ℤ b.credits_usd))
      → Credited
          (λ _ b1. b1.total_billed_usd ≡ pos 0)
          r
          tenant
          ym
          k
          (apply_credit false r tenant ym k)
  unfolding credit_billing credited_total
  apply_credit_zero bare =
      apply_credit_by (λ _ b1. b1.total_billed_usd ≡ pos 0) r tenant ym k own
        (λ b e valid le.
          let (base, over, credits) = bare b e in
          rw (base, over)
            (zero_total b.credits_usd r.amount credits (validate_credit_input-positive r valid)))
