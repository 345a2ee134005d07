-- ===== src/Billing/Credits/Notes.antt =====
-- What a credit note does to the invoices that are there.
use llm_dashboard.Base.{
  ℕ, ◌+◌, ◌==◌, ◌≡◌, refl, sym, ◌⊎◌, inl, inr, Bool, true, Option, none, some, List, [], ◌∷◌, ◌++◌,
  String, In, In-append, Bool-cases, update_where,
}
use llm_dashboard.Base.Int.{ltb_ℤ}
use llm_dashboard.Billing.Books.{
  Books, Billing, corrected, Reply, ok, value_error, Failure, is_finalized, get_by_tenant_month,
  set_row, not_found, duplicate_key,
}
use llm_dashboard.Billing.Credits.{
  CreditRequest, mark_corrected, is_correctable, next_credit_note_ym, new_note, add_line,
  credit_line, log_info, issue_credit_note, write_note, note_against, validate_credit_input,
}

-- The row is in the table, or it is but for its status, which is "corrected" instead of "finalized".
abbrev pub IsKept : Billing → List Billing → Type 0
IsKept b bs = In b bs ⊎ (is_finalized b.status ≡ true) × In (record b { status = corrected }) bs

IsKept-mark_corrected :
    (id : ℕ) (b : Billing) (bs : List Billing)
    → In b bs
    → IsKept b (update_where (λ x. x.id == id) mark_corrected bs)
unfolding mark_corrected
IsKept-mark_corrected id b [] m = absurd m
IsKept-mark_corrected id b (x ∷ xs) (inl e) = elim (Bool-cases (b.id == id)) [
  | inr off ↦ inl (inl (rw (sym e) (rw off refl)))
  | inl on ↦ elim (Bool-cases (is_finalized b.status)) [
    | inl t ↦ inr (t, inl (rw (sym e) (rw (on, t) refl)))
    | inr f ↦ inl (inl (rw (sym e) (rw (on, f) refl)))
  ]
]
IsKept-mark_corrected id b (x ∷ xs) (inr m) = elim (IsKept-mark_corrected id b xs m) [
  | inl n ↦ inl (inr n)
  | inr (t, n) ↦ inr (t, inr n)
]

IsKept-append : (b : Billing) (xs ys : List Billing) → IsKept b xs → IsKept b (xs ++ ys)
IsKept-append b xs ys (inl m) = inl (In-append b xs ys m)
IsKept-append b xs ys (inr (t, m)) = inr (t, In-append (record b { status = corrected }) xs ys m)

log_info-tables : (enabled : Bool) (k : Books) (a : Billing) → (log_info enabled (k, ok a)).0 ≡ k
unfolding log_info
log_info-tables enabled k a = refl

module _ (info_enabled : Bool) (r : CreditRequest) (tenant : String) (ym : ℕ) (k : Books)
    (b : Billing) (m : In b k.invoices) where
  write_note-IsKept :
      (original : Billing) (cn : ℕ)
      → IsKept b (write_note info_enabled r tenant ym original cn k).0.invoices
  unfolding write_note log_info add_line set_row
  write_note-IsKept original cn = go (get_by_tenant_month tenant cn k)
    where
      note : Billing
      note = new_note r tenant cn original.id k

      marked : Books
      marked = set_row original.id mark_corrected k

      go :
          (o : Option Billing)
          → IsKept b
              (elim o as (λ _. Books × Reply Billing) [
                | some _ ↦ (k, value_error duplicate_key)
                | none ↦ log_info info_enabled (
                  add_line (credit_line r note.id tenant cn) (record marked {
                    invoices = marked.invoices ++ note ∷ [];
                    next_id = k.next_id + 1;
                  }),
                  ok note,
                )
              ]).0.invoices
      go (some _) = inl m
      go none =
          IsKept-append b (update_where (λ x. x.id == original.id) mark_corrected k.invoices)
            (note ∷ []) (IsKept-mark_corrected original.id b k.invoices m)

  -- However a credit note is issued, each row of the table stays a row of it with all its amounts: it stays
  -- as it is, or it was finalized and all that changes is its status, to "corrected".
  pub issue_credit_note-IsKept : IsKept b (issue_credit_note info_enabled r tenant ym k).0.invoices
  unfolding issue_credit_note note_against
  issue_credit_note-IsKept = go (validate_credit_input r) (get_by_tenant_month tenant ym k)
    where
      against :
          (original : Billing)
          → IsKept b (note_against info_enabled r tenant ym original k).0.invoices
      against original = elim (Bool-cases (is_correctable original.status)) [
        | inr f ↦ rw f (inl m)
        | inl t ↦ elim (Bool-cases (ltb_ℤ original.total_billed_usd r.amount)) [
          | inl e ↦ rw (t, e) (inl m)
          | inr e ↦ rw (t, e) (write_note-IsKept original (next_credit_note_ym tenant ym k))
        ]
      ]

      go :
          (v : Option Failure) (o : Option Billing)
          → IsKept b
              (elim v as (λ _. Books × Reply Billing) [
                | some e ↦ (k, value_error e)
                | none ↦ elim o as (λ _. Books × Reply Billing) [
                  | none ↦ (k, value_error not_found)
                  | some x ↦ note_against info_enabled r tenant ym x k
                ]
              ]).0.invoices
      go (some e) o = inl m
      go none none = inl m
      go none (some x) = against x
