-- ===== src/Auth/Access/Scope.antt =====
-- What keys and tenant users cannot reach.
use llm_dashboard.Base.{
  ◌≡◌, refl, true, false, Option, none, some, String, eq_iff, arith, Bool-cases, Option-cases, inl,
  inr, ◌⊎◌,
}
use llm_dashboard.Auth.{CurrentUser, ok, is_super_admin, truthy_opt}
use llm_dashboard.Auth.Tokens.{Jwt, Moment, Payload}
use llm_dashboard.Auth.Access.{
  Credentials, Store, resolve_user, access_payload, try_api_key, try_virtual_key, user_of_api_key,
  user_of_virtual_key, user_of_payload, get_tenant_scope, TenantScope,
}

-- A viewer that acts by a key.
abbrev IsKeyUser : CurrentUser → Type 0
IsKeyUser u = (u.is_api_key ≡ true) × (u.role ≡ "tenant_viewer")

viewer_no_super : (u : CurrentUser) → u.role ≡ "tenant_viewer" → is_super_admin u ≡ false
unfolding is_super_admin
viewer_no_super u e = rw e refl

super_payload : (p : Payload) → is_super_admin (user_of_payload p) ≡ true → p.role ≡ "super_admin"
unfolding is_super_admin user_of_payload
super_payload p e = (eq_iff p.role "super_admin").0 e

module _ {Token : Type 0} (j : Jwt Token) (hash : String → String) where
  try_virtual_key-IsKeyUser :
      (m : Moment) (raw : Option String) (s : Store) (u : CurrentUser)
      → (try_virtual_key j hash m raw s).1 ≡ some u
      → IsKeyUser u
  unfolding try_virtual_key user_of_virtual_key
  try_virtual_key-IsKeyUser m none s u e = absurd (ground arith)
  try_virtual_key-IsKeyUser m (some raw) s u e = ground arith

  try_api_key-IsKeyUser :
      (m : Moment) (raw virtual : Option String) (s : Store) (u : CurrentUser)
      → (try_api_key j hash m raw virtual s).1 ≡ some u
      → IsKeyUser u
  unfolding try_api_key user_of_api_key
  try_api_key-IsKeyUser m none virtual s u e = try_virtual_key-IsKeyUser m virtual s u e
  try_api_key-IsKeyUser m (some raw) virtual s u e =
      ground (arith, try_virtual_key-IsKeyUser m virtual s u)

  resolved :
      (m : Moment) (c : Credentials Token) (s : Store) (u : CurrentUser)
      → (resolve_user j hash m c s).1 ≡ some u
      → IsKeyUser u
        ⊎ ((p : Payload) × (access_payload j hash m c.bearer ≡ some p) × (u ≡ user_of_payload p))
  unfolding resolve_user
  resolved m c s u e = elim (Option-cases (access_payload j hash m c.bearer)) [
    | inl n ↦ inl (try_api_key-IsKeyUser m c.api_key c.virtual_key s u (ground arith))
    | inr (p, f) ↦ inr (p, f, ground arith)
  ]

  -- Whatever tenant a request asks for, the scope of its queries is the tenant of its user, and
  -- never all tenants, unless the request carries an access token with the role super_admin.
  pub resolve_user-scope :
      (m : Moment) (c : Credentials Token) (s : Store) (u : CurrentUser) (asked : Option String)
      (scope : TenantScope)
      → (resolve_user j hash m c s).1 ≡ some u
      → get_tenant_scope asked u ≡ ok scope
      → ((scope.tenant_id ≡ u.tenant_id)
          × (scope.is_scoped ≡ true)
          × (truthy_opt u.tenant_id ≡ true))
        ⊎ ((p : Payload) × (access_payload j hash m c.bearer ≡ some p) × (p.role ≡ "super_admin"))
  unfolding get_tenant_scope
  resolve_user-scope m c s u asked scope e f = elim (Bool-cases (is_super_admin u)) [
    | inr no_super ↦ inl (ground arith, ground arith, ground arith)
    | inl super ↦ elim (resolved m c s u e) [
      | inl (by_key, viewer) ↦ cc (viewer_no_super u viewer)
      | inr (p, g, q) ↦ inr (p, g, super_payload p (rw (← q) super))
    ]
  ]
