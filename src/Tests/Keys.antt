-- ===== src/Tests/Keys.antt =====
-- API keys, virtual keys and the user of a request at concrete inputs.
use llm_dashboard.Base.{
  List, ◌++◌, ℕ, ◌≡◌, ◌≢◌, ◌<◌, ◌⊎◌, refl, true, none, some, [], ◌∷◌, String, arith, find, eq_iff,
}
use llm_dashboard.Auth.{CurrentUser, is_super_admin, truthy_opt}
use llm_dashboard.Auth.Keys.{ApiKey, Source, verify_api_key, revoke_api_key, has_key_id}
use llm_dashboard.Auth.Keys.Revoked.{verify_api_key-revoke_api_key}
use llm_dashboard.Auth.VirtualKeys.{
  VirtualKey, verify_virtual_key, rotate_virtual_key, get_virtual_key,
}
use llm_dashboard.Auth.ModelList.{join}
use llm_dashboard.Auth.VirtualKeys.Budget.{charge, total, verify_virtual_key-charge}
use llm_dashboard.Auth.VirtualKeys.Rotation.{Succeeds, verify_virtual_key-rotate_virtual_key}
use llm_dashboard.Auth.Tokens.{Payload}
use llm_dashboard.Auth.Access.{
  Credentials, Store, resolve_user, access_payload, get_tenant_scope, TenantScope,
}
use llm_dashboard.Auth.Access.Scope.{resolve_user-scope}
use llm_dashboard.Auth.Access.Lifetime.{claims}
use llm_dashboard.Tests.Accounts.{open_jwt, alice, morning}

-- The hash of a key is the key.
abbrev plain_hash : String → String
plain_hash s = s

abbrev ci_key : ApiKey
ci_key = record {
  id = "k1";
  name = "CI";
  hashed_key = "llm_sk_00";
  tenant_id = some "acme";
  created_by = "u1";
  is_active = true;
  created_at = 1;
  last_used_at = none;
  expires_at = none;
}

abbrev other_key : ApiKey
other_key = record ci_key { id = "k2"; hashed_key = "llm_sk_11" }

abbrev admin : CurrentUser
admin = claims alice

verify_api_key-revoke_api_key_example :
    ((old : ApiKey) × (find (has_key_id "k1") (ci_key ∷ other_key ∷ []) ≡ some old)
      × ((is_super_admin admin ≡ true) ⊎ (old.tenant_id ≡ admin.tenant_id)))
    × ((now : ℕ) (raw : String) (k : ApiKey)
        → (verify_api_key plain_hash now raw
            (revoke_api_key "k1" admin (ci_key ∷ other_key ∷ [])).0).1
          ≡ some k
        → k.id ≢ "k1")
unfolding revoke_api_key
verify_api_key-revoke_api_key_example =
    verify_api_key-revoke_api_key plain_hash "k1" admin (ci_key ∷ other_key ∷ []) refl

abbrev team_key : VirtualKey
team_key = record {
  id = "v1";
  name = "ML pipeline";
  key_hash = "llm_vk_live_00";
  tenant_id = some "acme";
  created_by = "u1";
  allowed_models = some "gpt-4o-mini, claude-3-haiku";
  environment = "live";
  budget_usd = some 100;
  budget_used_usd = 0;
  rate_limit_rpm = some 60;
  is_active = true;
  expires_at = none;
  last_used_at = none;
  created_at = 1;
  revoked_at = none;
}

verify_virtual_key-charge_example :
    (total (30 ∷ 50 ∷ []) < 100)
    × ((earlier latest : List ℕ) → 30 ∷ 50 ∷ [] ≡ earlier ++ latest → total latest < 100)
unfolding charge verify_virtual_key
verify_virtual_key-charge_example =
    verify_virtual_key-charge plain_hash "v1" (30 ∷ 50 ∷ []) (team_key ∷ []) 50 "llm_vk_live_00"
      (record team_key { last_used_at = some 50; budget_used_usd = 80 }) 100 refl refl refl

abbrev source : Source
source = record { now = 60; new_id = "v2"; token_hex = "22" }

abbrev team_key' : VirtualKey
team_key' = record team_key {
  id = "v2";
  key_hash = "llm_vk_live_22";
  allowed_models = some "gpt-4o-mini,claude-3-haiku";
  expires_at = some 31536060;
  created_at = 60;
}

verify_virtual_key-rotate_virtual_key_example :
    (team_key'.id ≢ team_key.id)
    × ((old : VirtualKey) × (get_virtual_key "v1" (team_key ∷ []) ≡ some old)
        × Succeeds old team_key')
unfolding rotate_virtual_key verify_virtual_key join
verify_virtual_key-rotate_virtual_key_example =
    verify_virtual_key-rotate_virtual_key plain_hash source "v1" admin (team_key ∷ []) team_key'
      "llm_vk_live_22" "llm_vk_live_22" 70 (record team_key' { last_used_at = some 70 }) refl
      (λ e. ground (arith, eq_iff "v2" "v1")) refl

abbrev store : Store
store = record {
  users = alice ∷ [];
  api_keys = ci_key ∷ [];
  virtual_keys = [];
  blacklist = λ _. none;
}

abbrev by_key : Credentials Payload
by_key = record { bearer = none; api_key = some "llm_sk_00"; virtual_key = none }

abbrev ci_user : CurrentUser
ci_user = record {
  id = "k1";
  username = "api_key:CI";
  role = "tenant_viewer";
  tenant_id = some "acme";
  is_api_key = true;
}

resolve_user-scope_example :
    let own : TenantScope = record { tenant_id = some "acme"; is_scoped = true; user = ci_user } in
    ((own.tenant_id ≡ ci_user.tenant_id)
      × (own.is_scoped ≡ true)
      × (truthy_opt ci_user.tenant_id ≡ true))
    ⊎ ((p : Payload) × (access_payload open_jwt plain_hash morning none ≡ some p)
        × (p.role ≡ "super_admin"))
unfolding resolve_user get_tenant_scope
resolve_user-scope_example =
    resolve_user-scope open_jwt plain_hash morning by_key store ci_user (some "globex")
      (record { tenant_id = some "acme"; is_scoped = true; user = ci_user }) refl refl
