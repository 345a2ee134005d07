-- ===== src/Billing/Invoices/Rows.antt =====
-- What the operations on the billing table leave alone.
use llm_dashboard.Base.{
  ℕ, ◌+◌, ◌==◌, ◌<◌, ◌≡◌, refl, sym, ap, ◌∙◌, ◌≢◌, inl, inr, false, Option, none, some, List, [],
  ◌∷◌, ◌++◌, String, arith, All, In, All_at, In-append, In-find, In-update_where, Bool-cases,
  if◌then◌else◌, ==_iff,
}
use llm_dashboard.Billing.Books.{
  Books, Billing, finalized, Reply, ok, value_error, type_error, already_finalized, not_found,
  is_finalized, get_by_tenant_month, get_by_id, of_tenant_month, get_or_create_draft,
  update_billing, set_row, create_line_items, finalize, new_draft, freeze, LineItem,
}
use llm_dashboard.Billing.Invoices.{Generated, then_do}

-- The identifiers are below the next one, and no two rows share one.
abbrev pub HasOwnIds : List Billing → Type 0
HasOwnIds [] = Unit
HasOwnIds (b ∷ bs) = All (λ c. b.id ≢ c.id) bs × HasOwnIds bs

abbrev pub IsBooks : Books → Type 0
IsBooks k = All (λ b. b.id < k.next_id) k.invoices × HasOwnIds k.invoices

pub same_id :
    (b c : Billing) (bs : List Billing) → HasOwnIds bs → In b bs → In c bs → b.id ≡ c.id → b ≡ c
same_id b c [] h mb mc e = absurd mb
same_id b c (x ∷ xs) h (inl eb) (inl ec) e = eb ∙ sym ec
same_id b c (x ∷ xs) h (inl eb) (inr mc) e =
    absurd (All_at (λ y. x.id ≢ y.id) c xs h.0 mc (sym (ap (λ y. y.id) eb) ∙ e))
same_id b c (x ∷ xs) h (inr mb) (inl ec) e =
    absurd (All_at (λ y. x.id ≢ y.id) b xs h.0 mb (sym (ap (λ y. y.id) ec) ∙ sym e))
same_id b c (x ∷ xs) h (inr mb) (inr mc) e = same_id b c xs h.1 mb mc e

-- The row is there, and what comes back is not a row with its identifier.
abbrev pub LeavesAlone : Billing → Books × Reply Billing → Type 0
LeavesAlone b (k, ok d) = In b k.invoices × (b.id ≢ d.id)
LeavesAlone b (k, value_error _) = In b k.invoices
LeavesAlone b (k, type_error) = In b k.invoices

pub then_do-keeps :
    (b : Billing) (f : Billing → Books → Books × Generated) (r : Books × Reply Billing)
    → LeavesAlone b r
    → ((d : Billing) (k : Books) → In b k.invoices → b.id ≢ d.id → In b (f d k).0.invoices)
    → In b (then_do f r).0.invoices
unfolding then_do
then_do-keeps b f (k, ok d) h g = g d k h.0 h.1
then_do-keeps b f (k, value_error _) h g = h
then_do-keeps b f (k, type_error) h g = h

other_id : (b d : Billing) → b.id ≢ d.id → (b.id == d.id) ≡ false
other_id b d h = ground arith

set_row-keeps :
    (b : Billing) (id : ℕ) (f : Billing → Billing) (k : Books)
    → b.id ≢ id
    → In b k.invoices
    → In b (set_row id f k).invoices
unfolding set_row
set_row-keeps b id f k h m = In-update_where (λ x. x.id == id) f b k.invoices (ground arith) m

frozen_differs : (b d : Billing) → b.status ≡ finalized → is_finalized d.status ≡ false → b ≢ d
unfolding is_finalized
frozen_differs b d h f q =
    let same = ap (λ x. is_finalized x.status) q in let on = ap is_finalized h in ground arith

pub get_or_create_draft-LeavesAlone :
    (tenant : String) (ym : ℕ) (b : Billing) (k : Books)
    → IsBooks k
    → In b k.invoices
    → b.status ≡ finalized
    → LeavesAlone b (get_or_create_draft tenant ym k)
unfolding get_or_create_draft new_draft is_finalized get_by_tenant_month
get_or_create_draft-LeavesAlone tenant ym b k own m h = go (get_by_tenant_month tenant ym k) refl
  where
    go :
        (o : Option Billing)
        → get_by_tenant_month tenant ym k ≡ o
        → LeavesAlone b (elim o [
          | some d ↦ (k, if is_finalized d.status then value_error already_finalized else ok d)
          | none ↦
              let fresh = new_draft k.next_id tenant ym in
              (record k { invoices = k.invoices ++ fresh ∷ []; next_id = k.next_id + 1 }, ok fresh)
        ])
    go none e = (
      In-append b k.invoices _ m,
      ground (arith, All_at (λ y. y.id < k.next_id) b k.invoices own.0 m),
    )
    go (some d) e = elim (Bool-cases (is_finalized d.status)) [
      | inl t ↦ rw t m
      | inr f ↦ rw f (
        m,
        λ q.
            let (md, _) = In-find (of_tenant_month tenant ym) d k.invoices e in
            frozen_differs b d h f (same_id b d k.invoices own.1 m md q),
      )
    ]

pub update_billing-LeavesAlone :
    (b : Billing) (id : ℕ) (f : Billing → Billing) (k : Books)
    → ((x : Billing) → (f x).id ≡ x.id)
    → b.id ≢ id
    → In b k.invoices
    → LeavesAlone b (update_billing id f k)
unfolding update_billing get_by_id
update_billing-LeavesAlone b id f k same h m = go (get_by_id id k) refl
  where
    go :
        (o : Option Billing)
        → get_by_id id k ≡ o
        → LeavesAlone b
            (elim o [ none ↦ (k, value_error not_found) | some d ↦ (set_row id f k, ok (f d)) ])
    go none e = m
    go (some d) e = (
      set_row-keeps b id f k h m,
      λ q. h (q ∙ (same d ∙ (==_iff d.id id).0 (In-find (λ x. x.id == id) d k.invoices e).1)),
    )

pub finalize-LeavesAlone :
    (now : ℕ) (b : Billing) (id : ℕ) (k : Books)
    → b.id ≢ id
    → In b k.invoices
    → LeavesAlone b (finalize now id k)
unfolding finalize get_by_id freeze
finalize-LeavesAlone now b id k h m = go (get_by_id id k) refl
  where
    differs : (d : Billing) → get_by_id id k ≡ some d → b.id ≢ d.id
    differs d e q = h (q ∙ (==_iff d.id id).0 (In-find (λ x. x.id == id) d k.invoices e).1)

    go :
        (o : Option Billing)
        → get_by_id id k ≡ o
        → LeavesAlone b (elim o [
          | none ↦ (k, value_error not_found)
          | some d ↦
              if is_finalized d.status
              then (k, ok d)
              else (set_row id (freeze now) k, ok (freeze now d))
        ])
    go none e = m
    go (some d) e = elim (Bool-cases (is_finalized d.status)) [
      | inl t ↦ rw t (m, differs d e)
      | inr f ↦ rw f (set_row-keeps b id (freeze now) k h m, differs d e)
    ]

pub create_line_items-invoices :
    (items : List LineItem) (k : Books) → (create_line_items items k).0.invoices ≡ k.invoices
unfolding create_line_items
create_line_items-invoices [] k = refl
create_line_items-invoices (i ∷ items) k = refl
