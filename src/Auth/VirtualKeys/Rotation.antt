-- ===== src/Auth/VirtualKeys/Rotation.antt =====
-- Rotation of a virtual key.
use llm_dashboard.Base.{
  ℕ, ◌≡◌, ◌≢◌, refl, sym, ap, ◌∙◌, true, false, Option, some, List, [], ◌∷◌, String, str_eq, eq_iff,
  arith, Bool-cases, Option-cases, inl, inr, find, update_where, All,
}
use llm_dashboard.Auth.{CurrentUser, ok}
use llm_dashboard.Auth.Keys.{Source, tenant_scope, may_manage}
use llm_dashboard.Auth.Keys.Revoked.{opt_eq→eq}
use llm_dashboard.Auth.ModelList.{allowed_models_list}
use llm_dashboard.Auth.ModelList.RoundTrip.{IsModelName, allowed_models_list-join}
use llm_dashboard.Auth.ModelList.Parsed.{allowed_models_list-IsModelName}
use llm_dashboard.Auth.VirtualKeys.{
  VirtualKey, VirtualKeys, verify_virtual_key, is_usable_virtual, has_virtual_id, stored_models,
  get_virtual_key, revoke_row, create_virtual_key, rotate_virtual_key, rotation_request, rotated,
  virtual_used_at, new_virtual_key,
}

restored : (ms : List String) → All IsModelName ms → allowed_models_list (stored_models ms) ≡ ms
unfolding stored_models allowed_models_list
restored [] h = refl
restored (m ∷ ms) h = allowed_models_list-join m ms h

-- The new key has the permissions of the old one, and nothing is spent on it.
pub record Succeeds (old new : VirtualKey) : Type 0 where
  pub tenant_id : new.tenant_id ≡ old.tenant_id
  pub environment : new.environment ≡ old.environment
  pub models : allowed_models_list new.allowed_models ≡ allowed_models_list old.allowed_models
  pub budget : new.budget_usd ≡ old.budget_usd
  pub rate : new.rate_limit_rpm ≡ old.rate_limit_rpm
  pub unspent : new.budget_used_usd ≡ 0
  pub usable : new.is_active ≡ true

revoked_row :
    (now : ℕ) (i h : String) (k : VirtualKey) (ks : VirtualKeys)
    → find (is_usable_virtual h) (update_where (has_virtual_id i) (revoke_row now) ks) ≡ some k
    → str_eq k.id i ≡ false
unfolding is_usable_virtual has_virtual_id revoke_row
revoked_row now i h k [] e = absurd (ground arith)
revoked_row now i h k (x ∷ ks) e = ground (arith, revoked_row now i h k ks)

not_old :
    (now : ℕ) (i h : String) (new k : VirtualKey) (ks : VirtualKeys)
    → new.id ≢ i
    → find (is_usable_virtual h) (new ∷ update_where (has_virtual_id i) (revoke_row now) ks)
      ≡ some k
    → k.id ≢ i
not_old now i h new k ks fresh e = elim (Bool-cases (is_usable_virtual h new)) [
  | inl t ↦ ground arith
  | inr f ↦ let off = revoked_row now i h k ks (ground arith) in λ q. ground (arith, eq_iff k.id i)
]

-- Who may manage a key of a tenant creates keys for that tenant.
scope_kept : (u : CurrentUser) (t : Option String) → may_manage u t ≡ true → tenant_scope u t ≡ t
unfolding may_manage tenant_scope
scope_kept u t h = ground (arith, opt_eq→eq t u.tenant_id)

module _ (hash : String → String) where
  abbrev successor : Source → CurrentUser → VirtualKey → VirtualKey
  successor s u old = new_virtual_key hash s (rotation_request old) u old.tenant_id

  rotation :
      (s : Source) (i : String) (u : CurrentUser) (ks : VirtualKeys) (new : VirtualKey)
      (raw : String)
      → (rotate_virtual_key hash s i u ks).1 ≡ ok (some (new, raw))
      → (old : VirtualKey) × (get_virtual_key i ks ≡ some old)
        × (new ≡ successor s u old)
        × ((rotate_virtual_key hash s i u ks).0
            ≡ new ∷ update_where (has_virtual_id i) (revoke_row s.now) ks)
  unfolding rotate_virtual_key create_virtual_key rotated rotation_request
  rotation s i u ks new raw done = elim (Option-cases (get_virtual_key i ks)) [
    | inl n ↦ absurd (ground arith)
    | inr (old, f) ↦ (
      old,
      f,
      ground (arith, scope_kept u old.tenant_id),
      ground (arith, scope_kept u old.tenant_id),
    )
  ]

  successor-Succeeds :
      (s : Source) (u : CurrentUser) (old : VirtualKey) → Succeeds old (successor s u old)
  unfolding new_virtual_key rotation_request
  successor-Succeeds s u old = record {
    tenant_id = refl;
    environment = refl;
    models =
        restored (allowed_models_list old.allowed_models)
          (allowed_models_list-IsModelName old.allowed_models);
    budget = refl;
    rate = refl;
    unspent = refl;
    usable = refl;
  }

  verify_virtual_key-cases :
      (now : ℕ) (raw : String) (ks : VirtualKeys) (k : VirtualKey)
      → (verify_virtual_key hash now raw ks).1 ≡ some k
      → (k' : VirtualKey) × (find (is_usable_virtual (hash raw)) ks ≡ some k') × (k.id ≡ k'.id)
  unfolding verify_virtual_key virtual_used_at
  verify_virtual_key-cases now raw ks k e =
      elim (Option-cases (find (is_usable_virtual (hash raw)) ks)) [
        | inl n ↦ absurd (ground arith)
        | inr (k', f) ↦ (k', f, ground arith)
      ]

  -- Rotating a virtual key hands its permissions on and ends it: a rotation that returns a key
  -- found a row of the id; the new key has its tenant, environment, models, budget and rate limit,
  -- nothing is spent on it and it is active; and after it no text whatever passes the check as the
  -- old key, provided that the new id is a new one.
  pub verify_virtual_key-rotate_virtual_key :
      (s : Source) (i : String) (u : CurrentUser) (ks : VirtualKeys) (new : VirtualKey)
      (raw shown : String) (now : ℕ) (k : VirtualKey)
      → (rotate_virtual_key hash s i u ks).1 ≡ ok (some (new, raw))
      → s.new_id ≢ i
      → (verify_virtual_key hash now shown (rotate_virtual_key hash s i u ks).0).1 ≡ some k
      → (k.id ≢ i) × ((old : VirtualKey) × (get_virtual_key i ks ≡ some old) × Succeeds old new)
  unfolding new_virtual_key
  verify_virtual_key-rotate_virtual_key s i u ks new raw shown now k done fresh e =
      let (old, f, made, after) = rotation s i u ks new raw done in
      let (k', passes, same) =
        verify_virtual_key-cases now shown (rotate_virtual_key hash s i u ks).0 k e in
      let other =
        not_old s.now i (hash shown) new k' ks
          (λ q. fresh (sym (ap (λ (v : VirtualKey). v.id) made) ∙ q))
          (sym (ap (find (is_usable_virtual (hash shown))) after) ∙ passes) in
      (λ q. other (sym same ∙ q), (old, f, rw made (successor-Succeeds s u old)))
