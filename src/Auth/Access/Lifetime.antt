-- ===== src/Auth/Access/Lifetime.antt =====
-- How long a token speaks for its user.
use llm_dashboard.Base.{false, none, some}
use llm_dashboard.Auth.{CurrentUser}
use llm_dashboard.Auth.Accounts.{User}
use llm_dashboard.Auth.Access.{Credentials}

-- The claims of a user in a token.
abbrev pub claims : User → CurrentUser
claims u = record {
  id = u.id;
  username = u.username;
  role = u.role;
  tenant_id = u.tenant_id;
  is_api_key = false;
}

-- A request with a token and no other credentials.
abbrev pub bearer_only : {Token : Type 0} → Token → Credentials Token
bearer_only t = record { bearer = some t; api_key = none; virtual_key = none }
