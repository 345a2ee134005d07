-- ===== src/Auth.antt =====
-- Authentication (modules/auth/service.py, models.py, dependencies.py and CurrentUser of
-- schemas.py): accounts, signed tokens, API keys, virtual keys, and who may do what.
-- Times are seconds; the id, the salt and the random part of a key that a call draws are
-- arguments. An HTTPException is the value of its status.
pub mod Accounts
pub mod Tokens
pub mod Keys
pub mod ModelList
pub mod VirtualKeys
pub mod Access
use llm_dashboard.Base.{Bool, true, false, not, Option, none, some, String, str_eq}

pub data HttpError : Type 0 where
  unauthorized forbidden conflict bad_request : HttpError

pub data Result (A : Type 0) : Type 0 where
  ok : A → Result A
  http_exception : HttpError → Result A

-- The value of an optional text in a test: neither None nor "".
unfoldable pub truthy_opt : Option String → Bool
truthy_opt none = false
truthy_opt (some s) = not (str_eq s "")

-- `==` on optional texts.
unfoldable pub opt_eq : Option String → Option String → Bool
opt_eq none none = true
opt_eq (some s) (some t) = str_eq s t
opt_eq _ _ = false

-- The user of a request.
pub record CurrentUser : Type 0 where
  pub id : String
  pub username : String
  pub role : String
  pub tenant_id : Option String
  pub is_api_key : Bool

unfoldable pub is_super_admin : CurrentUser → Bool
is_super_admin u = str_eq u.role "super_admin"
