-- ===== src/Tenants.antt =====
-- Tenants and the API keys that they store for providers (modules/tenants/service.py). The Fernet
-- cipher is a parameter: `encrypt` has a random draw, `decrypt` is `none` where it raises.
pub mod Credentials
use llm_dashboard.Base.{
  ℕ, Bool, not, ◌&&◌, Option, none, some, List, [], ◌∷◌, String, str_eq, filter, find, update_where,
  sort_desc,
}

pub record Tenant : Type 0 where
  pub tenant_id : String
  pub name : String
  pub tier : String
  pub monthly_budget_usd : ℕ
  pub contact_email : Option String
  pub created_at : ℕ

pub record TenantUpdate : Type 0 where
  pub name : Option String
  pub tier : Option String
  pub monthly_budget_usd : Option ℕ
  pub contact_email : Option String

-- The answers 409 and 404.
pub data TenantAnswer : Type 0 where
  conflict : TenantAnswer
  not_found : TenantAnswer
  deleted : TenantAnswer
  done : Tenant → TenantAnswer

unfoldable pub is_tenant : String → Tenant → Bool
is_tenant t r = str_eq r.tenant_id t

unfoldable pub get_tenant : String → List Tenant → Option Tenant
unfolding is_tenant
get_tenant t rows = find (is_tenant t) rows

unfoldable pub create_tenant : Tenant → List Tenant → List Tenant × TenantAnswer
unfolding get_tenant
create_tenant request rows = elim (get_tenant request.tenant_id rows) [
  | none ↦ (request ∷ rows, done request)
  | some r ↦ (rows, conflict)
]

unfoldable pub list_tenants : List Tenant → List Tenant
list_tenants rows = sort_desc (λ r. r.created_at) rows

-- A field of the request that is None leaves the value.
unfoldable pub new_or_old : {A : Type 0} → Option A → A → A
new_or_old none old = old
new_or_old (some new) old = new

unfoldable pub updated : TenantUpdate → Tenant → Tenant
unfolding new_or_old
updated u r = record r {
  name = new_or_old u.name r.name;
  tier = new_or_old u.tier r.tier;
  monthly_budget_usd = new_or_old u.monthly_budget_usd r.monthly_budget_usd;
  contact_email = elim u.contact_email [ none ↦ r.contact_email | some m ↦ some m ];
}

unfoldable pub update_tenant : String → TenantUpdate → List Tenant → List Tenant × TenantAnswer
unfolding get_tenant is_tenant updated
update_tenant t u rows = elim (get_tenant t rows) [
  | none ↦ (rows, not_found)
  | some r ↦ (update_where (is_tenant t) (updated u) rows, done (updated u r))
]

unfoldable pub delete_tenant : String → List Tenant → List Tenant × TenantAnswer
unfolding get_tenant is_tenant
delete_tenant t rows = elim (get_tenant t rows) [
  | none ↦ (rows, not_found)
  | some r ↦ (filter (λ x. not (is_tenant t x)) rows, deleted)
]

-- A row of the credentials. The table does not require tenant and provider to be unique together.
pub record Credential : Type 0 where
  pub id : String
  pub tenant_id : String
  pub provider : String
  pub encrypted_key : String

pub record Fernet (Draw : Type 0) : Type 0 where
  pub encrypt : Draw → String → String
  pub decrypt : String → Option String

-- `scalar_one_or_none`, which raises where several rows are found.
pub data OneOrNone : Type 0 where
  no_row : OneOrNone
  one_row : Credential → OneOrNone
  several_rows : OneOrNone

unfoldable pub scalar_one_or_none : List Credential → OneOrNone
scalar_one_or_none [] = no_row
scalar_one_or_none (r ∷ []) = one_row r
scalar_one_or_none (r ∷ s ∷ rows) = several_rows

unfoldable pub is_credential : String → String → Credential → Bool
is_credential t p r = str_eq r.tenant_id t && str_eq r.provider p

unfoldable pub with_key : String → Credential → Credential
with_key encrypted r = record r { encrypted_key = encrypted }

-- Every `none` around a table or a key below is the exception of `scalar_one_or_none`.
module _ {Draw : Type 0} (fernet : Fernet Draw) where
  -- The identifier of a new row and the draw of the cipher are arguments.
  unfoldable pub set_credential :
      String
      → Draw
      → String
      → String
      → String
      → List Credential
      → Option (List Credential × Credential)
  unfolding is_credential scalar_one_or_none with_key
  set_credential uid draw t p api_key rows =
      let encrypted = fernet.encrypt draw api_key in
      let row : Credential = record {
        id = uid;
        tenant_id = t;
        provider = p;
        encrypted_key = encrypted;
      } in
      elim (scalar_one_or_none (filter (is_credential t p) rows)) [
        | no_row ↦ some (row ∷ rows, row)
        | one_row r ↦
            some (update_where (is_credential t p) (with_key encrypted) rows, with_key encrypted r)
        | several_rows ↦ none
      ]

  unfoldable pub get_decrypted_credential :
      String → String → List Credential → Option (Option String)
  unfolding is_credential scalar_one_or_none
  get_decrypted_credential t p rows = elim (scalar_one_or_none (filter (is_credential t p) rows)) [
    | no_row ↦ some none
    | one_row r ↦ some (fernet.decrypt r.encrypted_key)
    | several_rows ↦ none
  ]

unfoldable pub list_credentials : String → List Credential → List Credential
list_credentials t rows = filter (λ r. str_eq r.tenant_id t) rows

-- The row that is deleted is the only one of the tenant and the provider.
unfoldable pub delete_credential : String → String → List Credential → Option (List Credential)
unfolding is_credential scalar_one_or_none
delete_credential t p rows = elim (scalar_one_or_none (filter (is_credential t p) rows)) [
  | no_row ↦ some rows
  | one_row r ↦ some (filter (λ x. not (is_credential t p x)) rows)
  | several_rows ↦ none
]
