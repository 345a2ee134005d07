-- ===== src/Auth/Access.antt =====
-- Who a request speaks for and what that user may do (modules/auth/dependencies.py, and the
-- checks of CurrentUser in modules/auth/schemas.py).
pub mod Scope
pub mod Lifetime
use Prim.Native.String.{◌++◌ as append}
use llm_dashboard.Base.{
  ℕ, Bool, true, false, ◌&&◌, ◌||◌, not, Option, none, some, String, str_eq, if◌then◌else◌,
}
use llm_dashboard.Auth.{
  CurrentUser, is_super_admin, Result, ok, http_exception, unauthorized, forbidden, truthy_opt,
  opt_eq,
}
use llm_dashboard.Auth.Accounts.{Users, update_last_activity}
use llm_dashboard.Auth.Keys.{ApiKey, ApiKeys, verify_api_key}
use llm_dashboard.Auth.Tokens.{Jwt, Payload, Moment, Blacklist, is_blacklisted}
use llm_dashboard.Auth.VirtualKeys.{VirtualKey, VirtualKeys, verify_virtual_key}

unfoldable pub is_admin : CurrentUser → Bool
is_admin u = str_eq u.role "super_admin" || str_eq u.role "tenant_admin"

unfoldable pub can_access_tenant : CurrentUser → String → Bool
unfolding opt_eq
can_access_tenant u tenant =
    if str_eq u.role "super_admin" then true else opt_eq u.tenant_id (some tenant)

unfoldable pub require_tenant_access : CurrentUser → String → Result CurrentUser
unfolding can_access_tenant
require_tenant_access u tenant =
    if not (can_access_tenant u tenant) then http_exception forbidden else ok u

-- The credentials of a request: the token, and the headers X-API-Key and X-Virtual-Key.
pub record Credentials (Token : Type 0) : Type 0 where
  pub bearer : Option Token
  pub api_key : Option String
  pub virtual_key : Option String

-- The tables and the blacklist.
pub record Store : Type 0 where
  pub users : Users
  pub api_keys : ApiKeys
  pub virtual_keys : VirtualKeys
  pub blacklist : Blacklist

unfoldable pub user_of_payload : Payload → CurrentUser
user_of_payload p = record {
  id = p.sub;
  username = p.username;
  role = p.role;
  tenant_id = p.tenant_id;
  is_api_key = false;
}

unfoldable pub user_of_api_key : ApiKey → CurrentUser
user_of_api_key k = record {
  id = k.id;
  username = append "api_key:" k.name;
  role = "tenant_viewer";
  tenant_id = k.tenant_id;
  is_api_key = true;
}

unfoldable pub user_of_virtual_key : VirtualKey → CurrentUser
user_of_virtual_key k = record {
  id = k.id;
  username = append "vk:" k.name;
  role = "tenant_viewer";
  tenant_id = k.tenant_id;
  is_api_key = true;
}

-- With the signing library and the hash of keys.
module _ {Token : Type 0} (j : Jwt Token) (hash : String → String) where
  unfoldable pub try_virtual_key : Moment → Option String → Store → Store × Option CurrentUser
  unfolding verify_virtual_key user_of_virtual_key
  try_virtual_key m none s = (s, none)
  try_virtual_key m (some raw) s =
      let (ks, found) = verify_virtual_key hash m.now raw s.virtual_keys in
      (
        record s { virtual_keys = ks },
        elim found [ none ↦ none | some k ↦ some (user_of_virtual_key k) ],
      )

  unfoldable pub try_api_key :
      Moment → Option String → Option String → Store → Store × Option CurrentUser
  unfolding verify_api_key user_of_api_key try_virtual_key
  try_api_key m none virtual s = try_virtual_key m virtual s
  try_api_key m (some raw) virtual s =
      let (ks, found) = verify_api_key hash m.now raw s.api_keys in
      elim found [
        | none ↦ try_virtual_key m virtual s
        | some k ↦ (record s { api_keys = ks }, some (user_of_api_key k))
      ]

  -- The payload of the token, where the token is an access token.
  unfoldable pub access_payload : Moment → Option Token → Option Payload
  access_payload m none = none
  access_payload m (some t) = elim (j.decode m.now t) [
    | none ↦ none
    | some p ↦ if str_eq p.token_type "access" then some p else none
  ]

  -- `_resolve_user`: a failed write of the last activity is ignored there, and is not modelled.
  unfoldable pub resolve_user : Moment → Credentials Token → Store → Store × Option CurrentUser
  unfolding access_payload is_blacklisted user_of_payload try_api_key update_last_activity
  resolve_user m c s = elim (access_payload m c.bearer) [
    | none ↦ try_api_key m c.api_key c.virtual_key s
    | some p ↦ if not (str_eq p.jti "") && is_blacklisted m p.jti s.blacklist then (s, none) else (
      record s { users = update_last_activity m.now p.sub s.users },
      some (user_of_payload p),
    )
  ]

unfoldable pub get_current_user : Option CurrentUser → Result CurrentUser
get_current_user none = http_exception unauthorized
get_current_user (some u) = ok u

unfoldable pub require_tenant_admin : CurrentUser → Result CurrentUser
unfolding is_admin
require_tenant_admin u =
    if u.is_api_key
    then http_exception forbidden
    else if not (is_admin u)
    then http_exception forbidden
    else ok u

unfoldable pub require_super_admin : CurrentUser → Result CurrentUser
unfolding is_super_admin
require_super_admin u =
    if u.is_api_key
    then http_exception forbidden
    else if not (is_super_admin u)
    then http_exception forbidden
    else ok u

-- The tenant whose rows a query may read; None stands for all tenants.
pub record TenantScope : Type 0 where
  pub tenant_id : Option String
  pub is_scoped : Bool
  pub user : CurrentUser

unfoldable pub is_given : Option String → Bool
is_given none = false
is_given (some t) = true

unfoldable pub get_tenant_scope : Option String → CurrentUser → Result TenantScope
unfolding is_super_admin is_given truthy_opt
get_tenant_scope asked u =
    if is_super_admin u
    then ok (record { tenant_id = asked; is_scoped = is_given asked; user = u })
    else if not (truthy_opt u.tenant_id)
    then http_exception forbidden
    else ok (record { tenant_id = u.tenant_id; is_scoped = true; user = u })
