-- ===== src/Auth/VirtualKeys.antt =====
-- Virtual keys (the table llm_virtual_keys of modules/auth/models.py; their management in
-- modules/auth/service.py). Amounts are whole numbers of a smallest unit instead of floats; the
-- display prefix of a key is left out. `none` of the rotation is a key that is not there.
pub mod Budget
pub mod Rotation
use Prim.Native.String.{◌++◌ as append}
use llm_dashboard.Base.{
  ℕ, ◌+◌, Bool, true, false, ◌&&◌, ◌||◌, not, Option, none, some, List, [], ◌∷◌, String, str_eq,
  if◌then◌else◌, find, filter, update_where, leb, sort_desc,
}
use llm_dashboard.Auth.{CurrentUser, Result, ok, http_exception, forbidden, bad_request, truthy_opt}
use llm_dashboard.Auth.Keys.{Source, expiry, tenant_scope, has_expired, wanted, may_manage}
use llm_dashboard.Auth.ModelList.{join, allowed_models_list}

pub record VirtualKey : Type 0 where
  pub id : String
  pub name : String
  pub key_hash : String
  pub tenant_id : Option String
  pub created_by : String
  pub allowed_models : Option String
  pub environment : String
  pub budget_usd : Option ℕ
  pub budget_used_usd : ℕ
  pub rate_limit_rpm : Option ℕ
  pub is_active : Bool
  pub expires_at : Option ℕ
  pub last_used_at : Option ℕ
  pub created_at : ℕ
  pub revoked_at : Option ℕ

abbrev pub VirtualKeys : Type 0
VirtualKeys = List VirtualKey

pub record VirtualKeyCreateRequest : Type 0 where
  pub name : String
  pub tenant_id : Option String
  pub environment : String
  pub allowed_models : List String
  pub budget_usd : Option ℕ
  pub rate_limit_rpm : Option ℕ
  pub expires_days : Option ℕ

unfoldable pub raw_virtual_key : Source → String → String
raw_virtual_key s environment = append "llm_vk_" (append environment (append "_" s.token_hex))

-- No list and an empty list of models are stored as NULL.
unfoldable pub stored_models : List String → Option String
stored_models [] = none
stored_models (m ∷ ms) = some (join (m ∷ ms))

unfoldable pub is_budget_exceeded : VirtualKey → Bool
is_budget_exceeded k = elim (k.budget_usd) [ none ↦ false | some b ↦ leb b k.budget_used_usd ]

unfoldable pub has_virtual_id : String → VirtualKey → Bool
has_virtual_id i k = str_eq k.id i

-- The condition of the query of `verify_virtual_key`.
unfoldable pub is_usable_virtual : String → VirtualKey → Bool
is_usable_virtual hashed k = str_eq k.key_hash hashed && k.is_active

unfoldable pub virtual_used_at : ℕ → VirtualKey → VirtualKey
virtual_used_at now k = record k { last_used_at = some now }

unfoldable pub get_virtual_key : String → VirtualKeys → Option VirtualKey
unfolding has_virtual_id
get_virtual_key i ks = find (has_virtual_id i) ks

unfoldable pub revoke_row : ℕ → VirtualKey → VirtualKey
revoke_row now k = record k { is_active = false; revoked_at = some now }

unfoldable pub revoke_virtual_key :
    ℕ → String → CurrentUser → VirtualKeys → VirtualKeys × Result Bool
unfolding get_virtual_key has_virtual_id may_manage revoke_row
revoke_virtual_key now i u ks = elim (get_virtual_key i ks) [
  | none ↦ (ks, ok false)
  | some k ↦
      if may_manage u k.tenant_id
      then (update_where (has_virtual_id i) (revoke_row now) ks, ok true)
      else (ks, http_exception forbidden)
]

unfoldable pub list_virtual_keys : Option String → Bool → VirtualKeys → List VirtualKey
unfolding wanted
list_virtual_keys tenant include_revoked ks =
    sort_desc (λ k. k.created_at)
      (filter (λ k. (include_revoked || k.is_active) && wanted tenant k.tenant_id) ks)

-- `update_virtual_key_budget`: the cost of a call is added; nothing ever resets the sum. The columns
-- are floats; here they are exact, in whole numbers of a smallest unit.
unfoldable pub update_virtual_key_budget : String → ℕ → VirtualKeys → VirtualKeys
unfolding get_virtual_key has_virtual_id
update_virtual_key_budget i cost ks = elim (get_virtual_key i ks) [
  | none ↦ ks
  | some k ↦
      update_where (has_virtual_id i) (λ x. record x { budget_used_usd = x.budget_used_usd + cost })
        ks
]

-- The request by which a key is rotated.
unfoldable pub rotation_request : VirtualKey → VirtualKeyCreateRequest
unfolding allowed_models_list
rotation_request k = record {
  name = k.name;
  tenant_id = k.tenant_id;
  environment = k.environment;
  allowed_models = allowed_models_list k.allowed_models;
  budget_usd = k.budget_usd;
  rate_limit_rpm = k.rate_limit_rpm;
  expires_days = some 365;
}

-- With the hash of keys, BLAKE2b.
module _ (hash : String → String) where
  unfoldable pub new_virtual_key :
      Source → VirtualKeyCreateRequest → CurrentUser → Option String → VirtualKey
  unfolding raw_virtual_key stored_models expiry
  new_virtual_key s r u tenant = record {
    id = s.new_id;
    name = r.name;
    key_hash = hash (raw_virtual_key s r.environment);
    tenant_id = tenant;
    created_by = u.id;
    allowed_models = stored_models r.allowed_models;
    environment = r.environment;
    budget_usd = r.budget_usd;
    budget_used_usd = 0;
    rate_limit_rpm = r.rate_limit_rpm;
    is_active = true;
    expires_at = expiry s.now r.expires_days;
    last_used_at = none;
    created_at = s.now;
    revoked_at = none;
  }

  unfoldable pub create_virtual_key :
      Source
      → VirtualKeyCreateRequest
      → CurrentUser
      → VirtualKeys
      → VirtualKeys × Result (VirtualKey × String)
  unfolding new_virtual_key raw_virtual_key tenant_scope truthy_opt
  create_virtual_key s r u ks =
      let tenant = tenant_scope u r.tenant_id in
      if not (truthy_opt tenant) then (ks, http_exception bad_request) else (
        new_virtual_key s r u tenant ∷ ks,
        ok (new_virtual_key s r u tenant, raw_virtual_key s r.environment),
      )

  unfoldable pub verify_virtual_key : ℕ → String → VirtualKeys → VirtualKeys × Option VirtualKey
  unfolding is_usable_virtual has_expired is_budget_exceeded virtual_used_at has_virtual_id
  verify_virtual_key now raw ks = elim (find (is_usable_virtual (hash raw)) ks) [
    | none ↦ (ks, none)
    | some k ↦
        if has_expired now k.expires_at
        then (ks, none)
        else if is_budget_exceeded k
        then (ks, none)
        else (
          update_where (has_virtual_id k.id) (virtual_used_at now) ks,
          some (virtual_used_at now k),
        )
  ]

  -- Where the creation raises, the session is rolled back and the old key stays.
  unfoldable pub rotated :
      VirtualKeys
      → VirtualKeys × Result (VirtualKey × String)
      → VirtualKeys × Result (Option (VirtualKey × String))
  rotated ks (ks', ok new) = (ks', ok (some new))
  rotated ks (ks', http_exception e) = (ks, http_exception e)

  unfoldable pub rotate_virtual_key :
      Source
      → String
      → CurrentUser
      → VirtualKeys
      → VirtualKeys × Result (Option (VirtualKey × String))
  unfolding get_virtual_key may_manage has_virtual_id revoke_row rotation_request create_virtual_key
      rotated
  rotate_virtual_key s i u ks = elim (get_virtual_key i ks) [
    | none ↦ (ks, ok none)
    | some k ↦
        if may_manage u k.tenant_id
        then rotated ks (
            create_virtual_key s (rotation_request k) u
              (update_where (has_virtual_id i) (revoke_row s.now) ks))
        else (ks, http_exception forbidden)
  ]
