-- ===== src/Billing/Contracts/Workflow.antt =====
-- How the operations on contracts move the status of a tenant's contract.
use llm_dashboard.Base.{
  ℕ, ◌≡◌, ◌≢◌, ◌≤◌, ◌<◌, true, inl, inr, Bool-cases, Option-cases, find, ltb→lt, refl, Option, none,
  some, [], ◌∷◌, String, str_eq, eq_iff, eq_refl, arith, ltb, if◌then◌else◌,
}
use llm_dashboard.Billing.Contracts.{
  Contract, Contracts, ContractStatus, active, rejected, Terms, TierConfig, get_contract, rewrite,
  update_status, accept_contract, reject_contract, is_proposed, set_terms, default_contract,
  auto_assign_from_usage, payg_terms, forfait_terms, tier_terms, Tier, pay_as_you_go, forfait,
  is_of_tenant, is_current, upsert, insert_contract,
}

-- The change of a found contract.
abbrev pub changed : (Contract → Contract) → Option Contract → Option Contract
changed f none = none
changed f (some k) = some (f k)

-- The change concerns neither the tenant nor whether the contract is current.
abbrev KeepsKey : (Contract → Contract) → Type 0
KeepsKey f = (k : Contract) → ((f k).tenant_id ≡ k.tenant_id) × ((f k).is_active ≡ k.is_active)

get_contract-rewrite :
    (f : Contract → Contract) (t u : String) (ks : Contracts)
    → KeepsKey f
    → get_contract u (rewrite t f ks)
      ≡ (if str_eq t u then changed f (get_contract u ks) else get_contract u ks)
unfolding get_contract rewrite
get_contract-rewrite f t u [] h = ground arith
get_contract-rewrite f t u (k ∷ ks) h = ground (
  arith,
  h k,
  eq_iff t u,
  eq_iff k.tenant_id t,
  eq_iff k.tenant_id u,
  get_contract-rewrite f t u ks h,
)

abbrev pub with_status : ContractStatus → Contract → Contract
with_status s k = record k { status = s }

get_contract-update_status :
    (t u : String) (s : ContractStatus) (ks : Contracts)
    → get_contract u (update_status t s ks).0
      ≡ (if str_eq t u then changed (with_status s) (get_contract u ks) else get_contract u ks)
unfolding update_status
get_contract-update_status t u s ks =
    ground (arith, get_contract-rewrite (with_status s) t u ks (λ k. (refl, refl)), eq_iff t u)

-- A proposed contract becomes active.
abbrev pub accepted : Contract → Contract
accepted k = if is_proposed k then with_status active k else k

-- Accepting makes a tenant's proposed contract active, leaves a contract in any other state and the
-- contracts of other tenants as they are, and creates none. Rejecting makes the tenant's contract
-- rejected from any state, and leaves other tenants' contracts as they are.
pub get_contract-accept_reject :
    (t u : String) (ks : Contracts)
    → (get_contract u (accept_contract t ks).0
        ≡ (if str_eq t u then changed accepted (get_contract u ks) else get_contract u ks))
      × (get_contract u (reject_contract t ks).0 ≡ (
          if str_eq t u
          then changed (with_status rejected) (get_contract u ks)
          else get_contract u ks))
unfolding accept_contract reject_contract
get_contract-accept_reject t u ks = (
  ground (arith, get_contract-update_status t u active ks, eq_iff t u),
  get_contract-update_status t u rejected ks,
)

-- A pay-as-you-go contract in force.
abbrev pub payg_contract : String → Contract
payg_contract tenant = record {
  tenant_id = tenant;
  contract_type = pay_as_you_go;
  status = active;
  base_fee_usd = 0;
  forfait_tokens = 0;
  overage_rate_per_1k = 0;
  is_active = true;
}

-- A contract in force with the allowance of the tier.
abbrev pub tier_contract : Tier → String → Contract
tier_contract t tenant = record {
  tenant_id = tenant;
  contract_type = forfait;
  status = active;
  base_fee_usd = t.base_fee;
  forfait_tokens = t.forfait_tokens;
  overage_rate_per_1k = t.overage_rate;
  is_active = true;
}

-- The contract that a tenant with this usage is due.
pub data IsDue (cfg : TierConfig) (tenant : String) (n : ℕ) : Contract → Type 0 where
  low : n < cfg.medium_tokens → IsDue cfg tenant n (payg_contract tenant)
  medium :
      cfg.medium_tokens ≤ n
      → n < cfg.enterprise_tokens
      → IsDue cfg tenant n (tier_contract cfg.medium tenant)
  enterprise :
      cfg.medium_tokens ≤ n
      → cfg.enterprise_tokens ≤ n
      → IsDue cfg tenant n (tier_contract cfg.enterprise tenant)

terms-IsDue :
    (cfg : TierConfig) (tenant : String) (n : ℕ)
    → IsDue cfg tenant n (set_terms (tier_terms cfg n) (default_contract tenant))
unfolding set_terms tier_terms payg_terms forfait_terms default_contract
terms-IsDue cfg tenant n = elim (Bool-cases (ltb n cfg.medium_tokens)) [
  | inl t ↦ rw t (low (ltb→lt n cfg.medium_tokens t))
  | inr f ↦ elim (Bool-cases (ltb n cfg.enterprise_tokens)) [
    | inl t ↦ rw (f, t) (medium (ground arith) (ground arith))
    | inr f' ↦ rw (f, f') (enterprise (ground arith) (ground arith))
  ]
]

no_row :
    (t u : String) (ks : Contracts)
    → find (is_of_tenant t) ks ≡ none
    → str_eq t u ≡ true
    → get_contract u ks ≡ none
unfolding get_contract is_of_tenant is_current
no_row t u [] e q = refl
no_row t u (k ∷ ks) e q =
    ground (arith, no_row t u ks, eq_iff t u, eq_iff k.tenant_id t, eq_iff k.tenant_id u)

upsert_raises :
    (t : String) (terms : Terms) (ks : Contracts) {old : Contract}
    → get_contract t ks ≡ none
    → find (is_of_tenant t) ks ≡ some old
    → upsert t terms ks ≡ none
unfolding upsert insert_contract set_terms default_contract
upsert_raises t terms ks e f = rw (upsert, e, insert_contract, f) refl

upsert_fresh :
    (t : String) (terms : Terms) (ks : Contracts)
    → get_contract t ks ≡ none
    → find (is_of_tenant t) ks ≡ none
    → let new = set_terms terms (default_contract t) in upsert t terms ks ≡ some (new ∷ ks, new)
unfolding upsert insert_contract set_terms default_contract
upsert_fresh t terms ks e f = rw (upsert, e, insert_contract, f) refl

-- A contract in force is what its tenant finds, and nothing else to the others.
get_contract-fresh :
    (t : String) (terms : Terms) (ks : Contracts)
    → let new = set_terms terms (default_contract t) in
      (get_contract t (new ∷ ks) ≡ some new)
      × ((u : String) → u ≢ t → get_contract u (new ∷ ks) ≡ get_contract u ks)
unfolding get_contract is_current set_terms default_contract
get_contract-fresh t terms ks =
    (let on = eq_refl t in rw on refl, λ u other. ground (arith, eq_iff t u))

-- Automatic assignment leaves the table and returns the current contract of a tenant that has one.
-- For a tenant without any row, the contract that its usage is due is returned and is then the
-- tenant's current one, and every other tenant keeps its current contract: pay-as-you-go without fee
-- below the medium threshold, else an allowance with the configured fee, tokens and rate of the
-- medium tier below the enterprise threshold, and of the enterprise tier from there on. For a tenant
-- with rows of which none is current, it raises.
pub auto_assign_from_usage_lem :
    (cfg : TierConfig) (t : String) (n : ℕ) (ks : Contracts)
    → ((k : Contract)
        → get_contract t ks ≡ some k
        → auto_assign_from_usage cfg t n ks ≡ some (ks, k))
      × (get_contract t ks ≡ none
          → find (is_of_tenant t) ks ≢ none
          → auto_assign_from_usage cfg t n ks ≡ none)
      × (find (is_of_tenant t) ks ≡ none
          → (due : Contract) × (ks' : Contracts) × IsDue cfg t n due
            × (auto_assign_from_usage cfg t n ks ≡ some (ks', due))
            × (get_contract t ks' ≡ some due)
            × ((u : String) → u ≢ t → get_contract u ks' ≡ get_contract u ks))
unfolding auto_assign_from_usage
auto_assign_from_usage_lem cfg t n ks = (
  λ k e. rw (auto_assign_from_usage, e) refl,
  λ e found. elim (Option-cases (find (is_of_tenant t) ks)) [
    | inl none_found ↦ absurd (found none_found)
    | inr (old, f) ↦ rw (auto_assign_from_usage, e) (upsert_raises t (tier_terms cfg n) ks e f)
  ],
  λ f.
      let terms = tier_terms cfg n in
      let new = set_terms terms (default_contract t) in
      let e = no_row t t ks f (eq_refl t) in
      (
        new,
        new ∷ ks,
        terms-IsDue cfg t n,
        rw (auto_assign_from_usage, e) (upsert_fresh t terms ks e f),
        (get_contract-fresh t terms ks).0,
        (get_contract-fresh t terms ks).1,
      ),
)
