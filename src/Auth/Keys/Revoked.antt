-- ===== src/Auth/Keys/Revoked.antt =====
-- Creation, check and revocation of an API key.
use llm_dashboard.Base.{
  ℕ, ◌≡◌, ◌⊎◌, ap, ◌≢◌, refl, true, false, Option, none, some, [], ◌∷◌, String, str_eq, eq_iff,
  arith, Option-cases, inl, inr, find, update_where, if◌then◌else◌,
}
use text.Mathlib.TextPositions.{eq_refl}
use llm_dashboard.Auth.{is_super_admin, opt_eq, CurrentUser, ok}
use llm_dashboard.Auth.Keys.{
  ApiKey, ApiKeys, Source, ApiKeyCreateRequest, create_api_key, new_api_key, verify_api_key,
  is_usable, has_expired, used_at, has_key_id, switch_off, revoke_api_key, may_manage, expiry,
  raw_api_key,
}

-- A key of the id does not pass once all of them are switched off.
switched_off :
    (i h : String) (k : ApiKey) (ks : ApiKeys)
    → find (is_usable h) (update_where (has_key_id i) switch_off ks) ≡ some k
    → str_eq k.id i ≡ false
unfolding is_usable has_key_id switch_off
switched_off i h k [] e = absurd (ground arith)
switched_off i h k (x ∷ ks) e = ground (arith, switched_off i h k ks)

pub opt_eq→eq : (a b : Option String) → opt_eq a b ≡ true → a ≡ b
unfolding opt_eq
opt_eq→eq none none e = refl
opt_eq→eq none (some t) e = cc
opt_eq→eq (some s) none e = cc
opt_eq→eq (some s) (some t) e = ap some ((eq_iff s t).0 e)

-- What a revocation that reports success has done.
revoked :
    (i : String) (u : CurrentUser) (ks : ApiKeys)
    → (revoke_api_key i u ks).1 ≡ ok true
    → (old : ApiKey) × (find (has_key_id i) ks ≡ some old)
      × ((is_super_admin u ≡ true) ⊎ (old.tenant_id ≡ u.tenant_id))
      × ((revoke_api_key i u ks).0 ≡ update_where (has_key_id i) switch_off ks)
unfolding revoke_api_key may_manage
revoked i u ks done = elim (Option-cases (find (has_key_id i) ks)) [
  | inl n ↦ absurd (ground arith)
  | inr (old, f) ↦ (
    old,
    f,
    ground (arith, opt_eq→eq old.tenant_id u.tenant_id),
    ground (arith, opt_eq→eq old.tenant_id u.tenant_id),
  )
]

module _ (hash : String → String) where
  -- A key that has just been made passes the check until it expires, and is refused after that. It
  -- passes for the tenant that its creator may give it: the one asked for by a super_admin, else
  -- the creator's own. It expires after the days asked for; never for None or 0 days.
  pub verify_api_key-create_api_key :
      (s : Source) (r : ApiKeyCreateRequest) (u : CurrentUser) (ks : ApiKeys) (now : ℕ)
      → (verify_api_key hash now
          (create_api_key hash s r u ks).1.1
          (create_api_key hash s r u ks).0).1
        ≡ (if has_expired now (expiry s.now r.expires_days)
            then none
            else some (used_at now (new_api_key hash s r u)))
  unfolding verify_api_key create_api_key is_usable new_api_key
  verify_api_key-create_api_key s r u ks now = ground (arith, eq_refl (hash (raw_api_key s)))

  verify_api_key-cases :
      (now : ℕ) (raw : String) (ks : ApiKeys) (k : ApiKey)
      → (verify_api_key hash now raw ks).1 ≡ some k
      → (k' : ApiKey) × (find (is_usable (hash raw)) ks ≡ some k') × (k.id ≡ k'.id)
  unfolding verify_api_key used_at
  verify_api_key-cases now raw ks k e = elim (Option-cases (find (is_usable (hash raw)) ks)) [
    | inl n ↦ absurd (ground arith)
    | inr (k', f) ↦ (k', f, ground arith)
  ]

  -- A revocation that reports success was asked for by a super_admin or by a user of the tenant of
  -- the key that it found, and after it no text whatever passes the check as the revoked key, at any
  -- time.
  pub verify_api_key-revoke_api_key :
      (i : String) (u : CurrentUser) (ks : ApiKeys)
      → (revoke_api_key i u ks).1 ≡ ok true
      → ((old : ApiKey) × (find (has_key_id i) ks ≡ some old)
          × ((is_super_admin u ≡ true) ⊎ (old.tenant_id ≡ u.tenant_id)))
        × ((now : ℕ) (raw : String) (k : ApiKey)
            → (verify_api_key hash now raw (revoke_api_key i u ks).0).1 ≡ some k
            → k.id ≢ i)
  verify_api_key-revoke_api_key i u ks done =
      let (old, found, allowed, after) = revoked i u ks done in
      (
        (old, found, allowed),
        λ now raw k e q.
            let (k', passes, same) = verify_api_key-cases now raw (revoke_api_key i u ks).0 k e in
            let off = switched_off i (hash raw) k' ks (rw (← after) passes) in
            ground (arith, eq_iff k'.id i),
      )
