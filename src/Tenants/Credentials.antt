-- ===== src/Tenants/Credentials.antt =====
-- The credentials implement a map from tenant and provider to an API key.
use llm_dashboard.Base.{
  ◌≡◌, refl, ap, ◌&&◌, true, false, if◌then◌else◌, Option, none, some, List, [], ◌∷◌, String,
  str_eq, eq_iff, eq_refl, arith, filter, Bool-cases, inl, inr, filter-update_where,
  filter-update_where_apart, filter-delete, filter-delete_apart,
}
use llm_dashboard.Tenants.{
  Credential, Fernet, OneOrNone, no_row, one_row, several_rows, scalar_one_or_none, is_credential,
  with_key, set_credential, get_decrypted_credential, delete_credential,
}

pub data VaultOp (Draw : Type 0) : Type 0 where
  sets : String → Draw → String → String → String → VaultOp Draw
  deletes : String → String → VaultOp Draw

unfoldable pub rows_of : {A : Type 0} → Option (List Credential × A) → Option (List Credential)
rows_of none = none
rows_of (some r) = some r.0

is_credential-apart :
    (t p t' p' : String)
    → str_eq t' t && str_eq p' p ≡ false
    → (r : Credential) → is_credential t' p' r ≡ true
    → is_credential t p r ≡ false
unfolding is_credential
is_credential-apart t p t' p' n r e = ground (
  arith,
  eq_iff r.tenant_id t',
  eq_iff r.provider p',
  eq_iff t' t,
  eq_iff p' p,
  eq_iff r.tenant_id t,
  eq_iff r.provider p,
)

same-key : (t p t' p' : String) → str_eq t' t && str_eq p' p ≡ true → (t' ≡ t) × (p' ≡ p)
same-key t p t' p' on = ground (arith, eq_iff t' t, eq_iff p' p)

module _ {Draw : Type 0} (fernet : Fernet Draw) where
  -- `none` where an operation raises.
  unfoldable pub step : VaultOp Draw → List Credential → Option (List Credential)
  unfolding rows_of
  step (sets uid draw t p key) rows = rows_of (set_credential fernet uid draw t p key rows)
  step (deletes t p) rows = delete_credential t p rows

  -- The rows after the operations; an operation that raises leaves them.
  unfoldable pub after : Option (List Credential) → List Credential → List Credential
  after none rows = rows
  after (some new) rows = new

  unfoldable pub run : List (VaultOp Draw) → List Credential → List Credential
  unfolding step after
  run [] rows = rows
  run (o ∷ os) rows = run os (after (step o rows) rows)

  -- The map that the credentials stand for.
  unfoldable pub entry : String → String → VaultOp Draw → Option String → Option String
  unfolding is_credential
  entry t p (sets uid draw t' p' key) old = if str_eq t' t && str_eq p' p then some key else old
  entry t p (deletes t' p') old = if str_eq t' t && str_eq p' p then none else old

  unfoldable pub last_key : String → String → List (VaultOp Draw) → Option String → Option String
  unfolding entry
  last_key t p [] old = old
  last_key t p (o ∷ os) old = last_key t p os (entry t p o old)

  -- The rows for a tenant and a provider are what the map says: none, or one whose key decrypts to
  -- the key of the map.
  Represents : Option String → List Credential → Type 0
  Represents none rows = rows ≡ []
  Represents (some key) rows =
      (r : Credential) × (rows ≡ r ∷ []) × (fernet.decrypt r.encrypted_key ≡ some key)

  abbrev pub IsCipher : Type 0
  IsCipher = (draw : Draw) (key : String) → fernet.decrypt (fernet.encrypt draw key) ≡ some key

  module _ (is_cipher : IsCipher) where
    set-same :
        (uid : String) (draw : Draw) (t p key : String) (rows : List Credential)
        (old : Option String)
        → Represents old (filter (is_credential t p) rows)
        → Represents (some key) (
            filter
              (is_credential t p)
              (after (rows_of (set_credential fernet uid draw t p key rows)) rows))
    unfolding Represents after rows_of set_credential scalar_one_or_none with_key is_credential
    set-same uid draw t p key rows none e =
        let on_t = eq_refl t in
        let on_p = eq_refl p in
        let row : Credential = record {
          id = uid;
          tenant_id = t;
          provider = p;
          encrypted_key = fernet.encrypt draw key;
        } in
        rw (set_credential, e, on_t, on_p) (row, ap (λ rs. row ∷ rs) e, is_cipher draw key)
    set-same uid draw t p key rows (some k) (r, e, d) =
        let rewritten =
          filter-update_where (is_credential t p) (with_key (fernet.encrypt draw key)) (λ x. refl)
            rows in
        rw (set_credential, e, rewritten, e) (_, refl, is_cipher draw key)

    set-apart :
        (uid : String) (draw : Draw) (t p t' p' key : String) (rows : List Credential)
        (o : OneOrNone)
        → scalar_one_or_none (filter (is_credential t' p') rows) ≡ o
        → str_eq t' t && str_eq p' p ≡ false
        → filter
            (is_credential t p)
            (after (rows_of (set_credential fernet uid draw t' p' key rows)) rows)
          ≡ filter (is_credential t p) rows
    unfolding after rows_of set_credential with_key is_credential
    set-apart uid draw t p t' p' key rows no_row e n = rw (set_credential, e, n) refl
    set-apart uid draw t p t' p' key rows (one_row r) e n =
        rw (set_credential, e)
          (filter-update_where_apart (is_credential t' p') (is_credential t p)
            (with_key (fernet.encrypt draw key)) (is_credential-apart t p t' p' n)
            (is_credential-apart t p t' p' n) rows)
    set-apart uid draw t p t' p' key rows several_rows e n = rw (set_credential, e) refl

    delete-same :
        (t p : String) (rows : List Credential) (old : Option String)
        → Represents old (filter (is_credential t p) rows)
        → Represents none (filter (is_credential t p) (after (delete_credential t p rows) rows))
    unfolding Represents after delete_credential scalar_one_or_none
    delete-same t p rows none e = rw (delete_credential, e) e
    delete-same t p rows (some k) (r, e, d) =
        rw (delete_credential, e) (filter-delete (is_credential t p) rows)

    delete-apart :
        (t p t' p' : String) (rows : List Credential) (o : OneOrNone)
        → scalar_one_or_none (filter (is_credential t' p') rows) ≡ o
        → str_eq t' t && str_eq p' p ≡ false
        → filter (is_credential t p) (after (delete_credential t' p' rows) rows)
          ≡ filter (is_credential t p) rows
    unfolding after delete_credential
    delete-apart t p t' p' rows no_row e n = rw (delete_credential, e) refl
    delete-apart t p t' p' rows (one_row r) e n =
        rw (delete_credential, e)
          (filter-delete_apart (is_credential t' p') (is_credential t p)
            (is_credential-apart t p t' p' n) rows)
    delete-apart t p t' p' rows several_rows e n = rw (delete_credential, e) refl

    -- An operation changes the rows of each tenant and provider as the map says.
    step-Represents :
        (t p : String) (o : VaultOp Draw) (rows : List Credential) (old : Option String)
        → Represents old (filter (is_credential t p) rows)
        → Represents (entry t p o old) (filter (is_credential t p) (after (step o rows) rows))
    unfolding step entry
    step-Represents t p (sets uid draw t' p' key) rows old h =
        elim (Bool-cases (str_eq t' t && str_eq p' p)) [
          | inl on ↦
              let (e, e') = same-key t p t' p' on in
              rw (on, e, e') (set-same uid draw t p key rows old h)
          | inr n ↦ rw (n, set-apart uid draw t p t' p' key rows _ refl n) h
        ]
    step-Represents t p (deletes t' p') rows old h =
        elim (Bool-cases (str_eq t' t && str_eq p' p)) [
          | inl on ↦
              let (e, e') = same-key t p t' p' on in rw (on, e, e') (delete-same t p rows old h)
          | inr n ↦ rw (n, delete-apart t p t' p' rows _ refl n) h
        ]

    run-Represents :
        (t p : String) (os : List (VaultOp Draw)) (rows : List Credential) (old : Option String)
        → Represents old (filter (is_credential t p) rows)
        → Represents (last_key t p os old) (filter (is_credential t p) (run os rows))
    unfolding run last_key
    run-Represents t p [] rows old h = h
    run-Represents t p (o ∷ os) rows old h =
        run-Represents t p os (after (step o rows) rows) (entry t p o old)
          (step-Represents t p o rows old h)

    read-Represents :
        (t p : String) (rows : List Credential) (old : Option String)
        → Represents old (filter (is_credential t p) rows)
        → get_decrypted_credential fernet t p rows ≡ some old
    unfolding Represents get_decrypted_credential scalar_one_or_none
    read-Represents t p rows none e = rw (get_decrypted_credential, e) refl
    read-Represents t p rows (some key) (r, e, d) = rw (get_decrypted_credential, e) (ap some d)

    -- Where what is encrypted decrypts to itself: after any sequence of settings and deletions on an
    -- empty table, reading the key of a tenant for a provider does not raise and gives the key that was
    -- set last for this tenant and this provider, or none where there is none or it was deleted since.
    pub run-last_key :
        (t p : String) (os : List (VaultOp Draw))
        → get_decrypted_credential fernet t p (run os []) ≡ some (last_key t p os none)
    unfolding Represents
    run-last_key t p os =
        read-Represents t p (run os []) (last_key t p os none) (run-Represents t p os [] none refl)
