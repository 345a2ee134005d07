-- ===== src/Gateway/RuleStore/Selection.antt =====
-- Which rules the engine reads for a tenant, and what a soft delete does.
use llm_dashboard.Base.{
  ℕ, ◌≤◌, ◌≡◌, refl, ◌≢◌, ◌↔◌, ◌⊎◌, inl, inr, Bool, true, false, ◌&&◌, Option, none, some, List, [],
  ◌∷◌, String, arith, eq_iff, In, In-sort_desc, In-filter, IsDescending, sort_desc-IsDescending,
  filter, Option-cases, leb, le→leb, eq_refl, ap, ◌==◌, map, Bool-cases,
}
use llm_dashboard.Gateway.RuleStore.{
  Rule, Table, for_tenant, in_effect, get_active_rules_for_tenant, deactivate, get_by_id,
}

-- The rule applies to the tenant at this time.
pub record IsEligible (now : ℕ) (tenant : String) (r : Rule) : Type 0 where
  pub scope : (r.tenant_id ≡ none) ⊎ (r.tenant_id ≡ some tenant)
  pub active : r.is_active ≡ true
  pub started : (t : ℕ) → r.effective_from ≡ some t → t ≤ now
  pub unexpired : (t : ℕ) → r.effective_until ≡ some t → now ≤ t

abbrev selected : ℕ → String → Rule → Bool
selected now tenant r = for_tenant tenant r && (r.is_active && in_effect now r)

selected-scope :
    (now : ℕ) (tenant : String) (r : Rule)
    → selected now tenant r ≡ true
    → (r.tenant_id ≡ none) ⊎ (r.tenant_id ≡ some tenant)
unfolding for_tenant
selected-scope now tenant r h = elim (Option-cases r.tenant_id) [
  | inl e ↦ inl e
  | inr (t, e) ↦ inr (ground (arith, eq_iff t tenant))
]

selected-IsEligible :
    (now : ℕ) (tenant : String) (r : Rule) → selected now tenant r ≡ true → IsEligible now tenant r
unfolding in_effect
selected-IsEligible now tenant r h = record {
  scope = selected-scope now tenant r h;
  active = ground arith;
  started = λ t e. ground arith;
  unexpired = λ t e. ground arith;
}

began :
    (now : ℕ) (o : Option ℕ)
    → ((t : ℕ) → o ≡ some t → t ≤ now)
    → elim o [ none ↦ true | some t ↦ leb t now ] ≡ true
began now none h = refl
began now (some t) h = le→leb t now (h t refl)

lasts :
    (now : ℕ) (o : Option ℕ)
    → ((t : ℕ) → o ≡ some t → now ≤ t)
    → elim o [ none ↦ true | some t ↦ leb now t ] ≡ true
lasts now none h = refl
lasts now (some t) h = le→leb now t (h t refl)

in_scope :
    (tenant : String) (r : Rule)
    → (r.tenant_id ≡ none) ⊎ (r.tenant_id ≡ some tenant)
    → for_tenant tenant r ≡ true
unfolding for_tenant
in_scope tenant r (inl e) = ground arith
in_scope tenant r (inr e) = ground (arith, eq_refl tenant)

IsEligible-selected :
    (now : ℕ) (tenant : String) (r : Rule) → IsEligible now tenant r → selected now tenant r ≡ true
unfolding for_tenant in_effect
IsEligible-selected now tenant r h = rw (
  in_scope tenant r h.scope,
  h.active,
  began now r.effective_from h.started,
  lasts now r.effective_until h.unexpired,
)

-- The engine reads exactly the rows of the table that apply to the tenant at this time: those for
-- it or for all tenants, active, and within their dates; and it reads them with the highest
-- priority first.
pub get_active_rules_for_tenant-IsEligible :
    (now : ℕ) (tenant : String) (t : Table)
    → ((r : Rule)
        → In r (get_active_rules_for_tenant now tenant t) ↔ (In r t × IsEligible now tenant r))
      × IsDescending (λ r. r.priority) (get_active_rules_for_tenant now tenant t)
unfolding get_active_rules_for_tenant
get_active_rules_for_tenant-IsEligible now tenant t = (
  λ r.
      let s = In-sort_desc (λ (x : Rule). x.priority) r (filter (selected now tenant) t) in
      let f = In-filter (selected now tenant) r t in
      (
        λ m. let (i, e) = f.0 (s.0 m) in (i, selected-IsEligible now tenant r e),
        λ (i, e). s.1 (f.1 (i, IsEligible-selected now tenant r e)),
      ),
  sort_desc-IsDescending (λ r. r.priority) (filter (selected now tenant) t),
)

-- No row is lost, and the rows keep their identifiers.
abbrev pub ids : Table → List ℕ
ids = map (λ r. r.id)

ids-deactivate : (now id : ℕ) (t : Table) → ids (deactivate now id t).0 ≡ ids t
unfolding deactivate
ids-deactivate now id [] = refl
ids-deactivate now id (r ∷ t) = ground (arith, ids-deactivate now id t)

deactivate_inactive :
    (now id : ℕ) (t : Table) (r : Rule)
    → In r (deactivate now id t).0
    → r.id ≡ id
    → r.is_active ≡ false
unfolding deactivate
deactivate_inactive now id [] r m e = absurd m
deactivate_inactive now id (x ∷ t) r (inl q) e = elim (Bool-cases (x.id == id)) [
  | inl same ↦ ap (λ (y : Rule). y.is_active) (rw same at q)
  | inr other ↦
      absurd (let p : r.id ≡ x.id = ap (λ (y : Rule). y.id) (rw other at q) in ground arith)
]
deactivate_inactive now id (x ∷ t) r (inr m) e = deactivate_inactive now id t r m e

deactivate_reports : (now id : ℕ) (t : Table) → ((deactivate now id t).1 ≡ true) ↔ In id (ids t)
unfolding deactivate get_by_id
deactivate_reports now id [] = (λ h. cc, λ h. absurd h)
deactivate_reports now id (r ∷ t) = ground (arith, deactivate_reports now id t)

-- A soft delete keeps every row, reports whether the rule was there, and afterwards the engine
-- never reads the rule for any tenant at any time.
pub deactivate-removes :
    (now id : ℕ) (t : Table)
    → (ids (deactivate now id t).0 ≡ ids t)
      × (((deactivate now id t).1 ≡ true) ↔ In id (ids t))
      × ((later : ℕ) (tenant : String) (r : Rule)
          → In r (get_active_rules_for_tenant later tenant (deactivate now id t).0)
          → r.id ≢ id)
deactivate-removes now id t = (
  ids-deactivate now id t,
  deactivate_reports now id t,
  λ later tenant r m e.
      let (i, el) =
        ((get_active_rules_for_tenant-IsEligible later tenant (deactivate now id t).0).0 r).0 m in
      let off = deactivate_inactive now id t r i e in let on = el.active in cc,
)
