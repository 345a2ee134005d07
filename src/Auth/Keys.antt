-- ===== src/Auth/Keys.antt =====
-- API keys (the table llm_api_keys of modules/auth/models.py; creation, check, listing and
-- revocation in modules/auth/service.py). The hash is a parameter; the display prefix of a key is
-- left out. The hash column is unique, so a query for a hash has at most one row.
pub mod Revoked
use Prim.Native.String.{◌++◌ as append}
use llm_dashboard.Base.{
  ℕ, ◌+◌, ◌*◌, ◌==◌, Bool, true, false, ◌&&◌, not, Option, none, some, List, ◌∷◌, String, str_eq,
  if◌then◌else◌, find, filter, update_where, ltb, sort_desc,
}
use llm_dashboard.Auth.{
  CurrentUser, is_super_admin, Result, ok, http_exception, forbidden, truthy_opt, opt_eq,
}

pub record ApiKey : Type 0 where
  pub id : String
  pub name : String
  pub hashed_key : String
  pub tenant_id : Option String
  pub created_by : String
  pub is_active : Bool
  pub created_at : ℕ
  pub last_used_at : Option ℕ
  pub expires_at : Option ℕ

abbrev pub ApiKeys : Type 0
ApiKeys = List ApiKey

-- What the server contributes: the time, a new uuid, 48 random hexadecimal digits.
pub record Source : Type 0 where
  pub now : ℕ
  pub new_id : String
  pub token_hex : String

-- Expiry after a number of days; None and 0 mean never.
unfoldable pub expiry : ℕ → Option ℕ → Option ℕ
expiry now none = none
expiry now (some days) = if days == 0 then none else some (now + days * 86400)

-- Only a super_admin chooses the tenant of a key.
unfoldable pub tenant_scope : CurrentUser → Option String → Option String
unfolding is_super_admin
tenant_scope u asked = if not (is_super_admin u) then u.tenant_id else asked

pub record ApiKeyCreateRequest : Type 0 where
  pub name : String
  pub tenant_id : Option String
  pub expires_days : Option ℕ

unfoldable pub raw_api_key : Source → String
raw_api_key s = append "llm_sk_" s.token_hex

unfoldable pub has_key_id : String → ApiKey → Bool
has_key_id i k = str_eq k.id i

-- The condition of the query of `verify_api_key`.
unfoldable pub is_usable : String → ApiKey → Bool
is_usable hashed k = str_eq k.hashed_key hashed && k.is_active

unfoldable pub has_expired : ℕ → Option ℕ → Bool
has_expired now none = false
has_expired now (some t) = ltb t now

unfoldable pub used_at : ℕ → ApiKey → ApiKey
used_at now k = record k { last_used_at = some now }

-- With the hash of keys, BLAKE2b.
module _ (hash : String → String) where
  unfoldable pub new_api_key : Source → ApiKeyCreateRequest → CurrentUser → ApiKey
  unfolding raw_api_key expiry tenant_scope
  new_api_key s r u = record {
    id = s.new_id;
    name = r.name;
    hashed_key = hash (raw_api_key s);
    tenant_id = tenant_scope u r.tenant_id;
    created_by = u.id;
    is_active = true;
    created_at = s.now;
    last_used_at = none;
    expires_at = expiry s.now r.expires_days;
  }

  unfoldable pub create_api_key :
      Source → ApiKeyCreateRequest → CurrentUser → ApiKeys → ApiKeys × (ApiKey × String)
  unfolding new_api_key raw_api_key
  create_api_key s r u ks = (new_api_key s r u ∷ ks, (new_api_key s r u, raw_api_key s))

  unfoldable pub verify_api_key : ℕ → String → ApiKeys → ApiKeys × Option ApiKey
  unfolding is_usable has_expired used_at has_key_id
  verify_api_key now raw ks = elim (find (is_usable (hash raw)) ks) [
    | none ↦ (ks, none)
    | some k ↦
        if has_expired now k.expires_at
        then (ks, none)
        else (update_where (has_key_id k.id) (used_at now) ks, some (used_at now k))
  ]

-- A filter that is absent or "" lets every row pass.
unfoldable pub wanted : Option String → Option String → Bool
unfolding truthy_opt opt_eq
wanted filter_by value = if truthy_opt filter_by then opt_eq value filter_by else true

unfoldable pub list_api_keys : Option String → Option String → ApiKeys → List ApiKey
unfolding wanted
list_api_keys tenant user ks =
    sort_desc (λ k. k.created_at)
      (filter (λ k. k.is_active && (wanted tenant k.tenant_id && wanted user (some k.created_by)))
        ks)

unfoldable pub switch_off : ApiKey → ApiKey
switch_off k = record k { is_active = false }

-- The requester is a super_admin or of the tenant.
unfoldable pub may_manage : CurrentUser → Option String → Bool
unfolding is_super_admin opt_eq
may_manage u tenant = not (not (is_super_admin u) && not (opt_eq tenant u.tenant_id))

unfoldable pub revoke_api_key : String → CurrentUser → ApiKeys → ApiKeys × Result Bool
unfolding has_key_id may_manage switch_off
revoke_api_key i u ks = elim (find (has_key_id i) ks) [
  | none ↦ (ks, ok false)
  | some k ↦
      if may_manage u k.tenant_id
      then (update_where (has_key_id i) switch_off ks, ok true)
      else (ks, http_exception forbidden)
]
