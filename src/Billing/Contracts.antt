-- ===== src/Billing/Contracts.antt =====
-- The contracts of tenants (modules/billing/repositories/contract_repository.py, to_dict of
-- modules/billing/contract_models.py). Fees and rates are whole numbers of a millionth of a
-- dollar. The column tenant_id is unique, so a query for a tenant has at most one row.
pub mod Workflow
use llm_dashboard.Base.{
  ℕ, Bool, true, false, ◌&&◌, Option, none, some, List, [], ◌∷◌, String, str_eq, ltb, if◌then◌else◌,
  find, filter, update_where,
}

-- `other` is any other text in the column, "hybrid" included.
pub data ContractType : Type 0 where
  pay_as_you_go forfait : ContractType
  other : String → ContractType

pub data ContractStatus : Type 0 where
  draft proposed active rejected : ContractStatus

-- A row of llm_tenant_contracts; the currency and the description are left out.
pub record Contract : Type 0 where
  pub tenant_id : String
  pub contract_type : ContractType
  pub status : ContractStatus
  pub base_fee_usd : ℕ
  pub forfait_tokens : ℕ
  pub overage_rate_per_1k : ℕ
  pub is_active : Bool

abbrev pub Contracts : Type 0
Contracts = List Contract

-- The condition of the queries.
unfoldable pub is_current : String → Contract → Bool
is_current tenant k = str_eq k.tenant_id tenant && k.is_active

unfoldable pub get_contract : String → Contracts → Option Contract
unfolding is_current
get_contract tenant ks = find (is_current tenant) ks

-- `_DEFAULT_CONTRACT`
unfoldable pub default_contract : String → Contract
default_contract tenant = record {
  tenant_id = tenant;
  contract_type = pay_as_you_go;
  status = active;
  base_fee_usd = 0;
  forfait_tokens = 0;
  overage_rate_per_1k = 0;
  is_active = true;
}

-- The terms as billing reads them.
unfoldable pub get_contract_dict : String → Contracts → Contract
unfolding get_contract default_contract
get_contract_dict tenant ks = elim (get_contract tenant ks) [
  | none ↦ default_contract tenant
  | some k ↦ k
]

unfoldable pub is_of_tenant : String → Contract → Bool
is_of_tenant tenant k = str_eq k.tenant_id tenant

-- The insertion of a row; `none` is the exception where the tenant has a row, as an inactive one.
unfoldable pub insert_contract : Contract → Contracts → Option (Contracts × Contract)
unfolding is_of_tenant
insert_contract k ks = elim (find (is_of_tenant k.tenant_id) ks) [
  | none ↦ some (k ∷ ks, k)
  | some old ↦ none
]

unfoldable pub get_or_create_default : String → Contracts → Option (Contracts × Contract)
unfolding get_contract default_contract insert_contract
get_or_create_default tenant ks = elim (get_contract tenant ks) [
  | some k ↦ some (ks, k)
  | none ↦ insert_contract (default_contract tenant) ks
]

-- The row that was found is rewritten in place.
unfoldable pub rewrite : String → (Contract → Contract) → Contracts → Contracts
unfolding is_current
rewrite tenant f = update_where (is_current tenant) f

-- The terms that `upsert` sets.
pub record Terms : Type 0 where
  pub contract_type : ContractType
  pub status : ContractStatus
  pub base_fee_usd : ℕ
  pub forfait_tokens : ℕ
  pub overage_rate_per_1k : ℕ

unfoldable pub set_terms : Terms → Contract → Contract
set_terms t k = record k {
  contract_type = t.contract_type;
  status = t.status;
  base_fee_usd = t.base_fee_usd;
  forfait_tokens = t.forfait_tokens;
  overage_rate_per_1k = t.overage_rate_per_1k;
}

unfoldable pub upsert : String → Terms → Contracts → Option (Contracts × Contract)
unfolding get_contract rewrite set_terms default_contract insert_contract
upsert tenant t ks = elim (get_contract tenant ks) [
  | some k ↦ some (rewrite tenant (set_terms t) ks, set_terms t k)
  | none ↦ insert_contract (set_terms t (default_contract tenant)) ks
]

-- The values of a tier that `auto_assign_from_usage` reads from the configuration.
pub record Tier : Type 0 where
  pub base_fee : ℕ
  pub forfait_tokens : ℕ
  pub overage_rate : ℕ

pub record TierConfig : Type 0 where
  pub medium_tokens : ℕ
  pub enterprise_tokens : ℕ
  pub medium : Tier
  pub enterprise : Tier

-- The arguments of `upsert` that are left out have their defaults.
unfoldable pub payg_terms : Terms
payg_terms = record {
  contract_type = pay_as_you_go;
  status = active;
  base_fee_usd = 0;
  forfait_tokens = 0;
  overage_rate_per_1k = 0;
}

unfoldable pub forfait_terms : Tier → Terms
forfait_terms t = record {
  contract_type = forfait;
  status = active;
  base_fee_usd = t.base_fee;
  forfait_tokens = t.forfait_tokens;
  overage_rate_per_1k = t.overage_rate;
}

unfoldable pub tier_terms : TierConfig → ℕ → Terms
unfolding payg_terms forfait_terms
tier_terms cfg monthly_tokens =
    if ltb monthly_tokens cfg.medium_tokens
    then payg_terms
    else if ltb monthly_tokens cfg.enterprise_tokens
    then forfait_terms cfg.medium
    else forfait_terms cfg.enterprise

unfoldable pub auto_assign_from_usage :
    TierConfig → String → ℕ → Contracts → Option (Contracts × Contract)
unfolding get_contract upsert tier_terms
auto_assign_from_usage cfg tenant monthly_tokens ks = elim (get_contract tenant ks) [
  | some k ↦ some (ks, k)
  | none ↦ upsert tenant (tier_terms cfg monthly_tokens) ks
]

unfoldable pub update_status : String → ContractStatus → Contracts → Contracts × Option Contract
unfolding get_contract rewrite
update_status tenant status ks = elim (get_contract tenant ks) [
  | none ↦ (ks, none)
  | some k ↦
      (rewrite tenant (λ x. record x { status = status }) ks, some (record k { status = status }))
]

unfoldable pub is_proposed : Contract → Bool
is_proposed k = elim (k.status) [ proposed ↦ true | _ ↦ false ]

-- `accept_contract`: the contract comes back in any case.
unfoldable pub accept_contract : String → Contracts → Contracts × Option Contract
unfolding get_contract update_status is_proposed
accept_contract tenant ks = elim (get_contract tenant ks) [
  | none ↦ (ks, none)
  | some k ↦ if is_proposed k then update_status tenant active ks else (ks, some k)
]

unfoldable pub reject_contract : String → Contracts → Contracts × Option Contract
unfolding update_status
reject_contract tenant ks = update_status tenant rejected ks
