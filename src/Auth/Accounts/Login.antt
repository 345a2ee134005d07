-- ===== src/Auth/Accounts/Login.antt =====
-- Logging in after a change of the account.
use llm_dashboard.Base.{
  ℕ, ◌≡◌, ◌≢◌, refl, sym, ap, ◌∙◌, Bool, true, false, Option, none, some, [], ◌∷◌, String, str_eq,
  eq_iff, arith, Bool-cases, Option-cases, inl, inr, ◌⊎◌, find, In-find, All_at, update_where,
}
use llm_dashboard.Auth.Accounts.{
  User, Users, Server, IsHasher, has_id, has_username, may_log_in, logged_in, get_user_by_id,
  create_initial_admin, authenticate, change_password, deactivate_user, rewrite_user, set_password,
  set_active,
}
use llm_dashboard.Auth.Tokens.{
  Jwt, Moment, Payload, Blacklist, rotate_refresh_token, new_pair, may_refresh,
}
use llm_dashboard.Auth.Accounts.Names.{IsDistinct}

-- The user is none, or another one than that of the id.
abbrev pub IsNot : String → Option User → Type 0
IsNot i none = Unit
IsNot i (some u) = u.id ≢ i

inactive_row :
    (i : String) (p : User → Bool) (u : User) (us : Users)
    → ((v : User) → p v ≡ true → v.is_active ≡ true)
    → find p (update_where (has_id i) (set_active false) us) ≡ some u
    → str_eq u.id i ≡ false
unfolding has_id set_active
inactive_row i p u [] active e = absurd (ground arith)
inactive_row i p u (x ∷ us) active e =
    ground (arith, active (set_active false x), inactive_row i p u us active)

deactivated :
    (i : String) (us : Users)
    → (deactivate_user i us).1 ≡ true
    → (deactivate_user i us).0 ≡ update_where (has_id i) (set_active false) us
unfolding deactivate_user rewrite_user
deactivated i us done = ground arith

-- Where a row was found the table is not empty.
nonempty :
    (s : Server) (i : String) (us : Users)
    → (deactivate_user i us).1 ≡ true
    → (create_initial_admin s (update_where (has_id i) (set_active false) us)).0
      ≡ update_where (has_id i) (set_active false) us
unfolding deactivate_user rewrite_user get_user_by_id create_initial_admin
nonempty s i [] done = ground arith
nonempty s i (u ∷ us) done = refl

authenticate-cases :
    (s : Server) (n password : String) (us : Users)
    → ((authenticate s n password us).1 ≡ none)
      ⊎ ((u : User) × (find (may_log_in n) (create_initial_admin s us).0 ≡ some u)
          × (s.hasher.verify password u.hashed_password ≡ true)
          × ((authenticate s n password us).1 ≡ some (logged_in s.now u)))
unfolding authenticate
authenticate-cases s n password us =
    elim (Option-cases (find (may_log_in n) (create_initial_admin s us).0)) [
      | inl e ↦ inl (rw (e, authenticate) refl)
      | inr (u, e) ↦ elim (Bool-cases (s.hasher.verify password u.hashed_password)) [
        | inl t ↦ inr (u, e, t, rw (e, authenticate) (rw t refl))
        | inr f ↦ inl (rw (e, authenticate) (rw f refl))
      ]
    ]

may_log_in-active : (n : String) (v : User) → may_log_in n v ≡ true → v.is_active ≡ true
unfolding may_log_in
may_log_in-active n v t = ground arith

may_refresh-active : (i : String) (v : User) → may_refresh i v ≡ true → v.is_active ≡ true
unfolding may_refresh
may_refresh-active i v t = ground arith

may_refresh_id : (i : String) (v : User) → may_refresh i v ≡ true → str_eq v.id i ≡ true
unfolding may_refresh has_id
may_refresh_id i v t = ground arith

-- No login is one of a user that was deactivated.
login_refused :
    (s : Server) (i n password : String) (us : Users)
    → (deactivate_user i us).1 ≡ true
    → IsNot i (authenticate s n password (deactivate_user i us).0).1
unfolding logged_in
login_refused s i n password us done =
    rw (deactivated i us done)
      (elim (authenticate-cases s n password (update_where (has_id i) (set_active false) us)) [
        | inl e ↦ rw e tt
        | inr (u, e, t, f) ↦
            let found = sym (ap (find (may_log_in n)) (nonempty s i us done)) ∙ e in
            let off = inactive_row i (may_log_in n) u us (may_log_in-active n) found in
            rw f (λ q. ground (arith, eq_iff u.id i))
      ])

-- Nor does a refresh token of that user buy a new pair.
module _ {Token : Type 0} (j : Jwt Token) where
  pair_refused :
      (m : Moment) (i : String) (us : Users)
      → (deactivate_user i us).1 ≡ true
      → new_pair j m i (deactivate_user i us).0 ≡ none
  unfolding new_pair
  pair_refused m i us done =
      let after = deactivated i us done in
      elim (Option-cases (find (may_refresh i) (update_where (has_id i) (set_active false) us))) [
        | inl e ↦ rw after (rw (e, new_pair) refl)
        | inr (u, e) ↦ absurd (
            let off = inactive_row i (may_refresh i) u us (may_refresh-active i) e in
            let here =
              (In-find (may_refresh i) u (update_where (has_id i) (set_active false) us) e).1 in
            cc (may_refresh_id i u here, off))
      ]

  -- A deactivated user is locked out: no login, by whatever name and password, returns the user of
  -- the id, and no refresh token of that user buys a new pair.
  pub deactivate_user-locks_out :
      (s : Server) (i n password : String) (us : Users) (m : Moment) (token : Token) (p : Payload)
      (bl : Blacklist)
      → (deactivate_user i us).1 ≡ true
      → j.decode m.now token ≡ some p
      → p.sub ≡ i
      → IsNot i (authenticate s n password (deactivate_user i us).0).1
        × ((rotate_refresh_token j m token (deactivate_user i us).0 bl).1 ≡ none)
  unfolding rotate_refresh_token
  deactivate_user-locks_out s i n password us m token p bl done d sub =
      (login_refused s i n password us done, ground (arith, pair_refused m i us done))

module _ (f : User → User)
    (same : (v : User) → ((f v).username ≡ v.username) × ((f v).is_active ≡ v.is_active)) where
  -- The row that was found by its id is found by its name.
  found_by_name :
      (i : String) (u : User) (us : Users)
      → IsDistinct us
      → find (has_id i) us ≡ some u
      → u.is_active ≡ true
      → find (may_log_in u.username) (update_where (has_id i) f us) ≡ some (f u)
  unfolding may_log_in has_username
  found_by_name i u [] h e active = absurd (ground arith)
  found_by_name i u (x ∷ us) h e active = elim (Bool-cases (has_id i x)) [
    | inl t ↦ ground (arith, same x, eq_iff x.username x.username)
    | inr d ↦
        let rest : find (has_id i) us ≡ some u = ground arith in
        let here = (In-find (has_id i) u us rest).0 in
        let other = All_at (λ v. v.username ≢ x.username) u us h.0 here in
        ground (arith, found_by_name i u us h.1 rest active, eq_iff x.username u.username)
  ]

passes :
    (s : Server) (n password : String) (u : User) (us : Users)
    → find (may_log_in n) (create_initial_admin s us).0 ≡ some u
    → s.hasher.verify password u.hashed_password ≡ true
    → (authenticate s n password us).1 ≡ some (logged_in s.now u)
unfolding authenticate
passes s n password u us e t = rw (e, authenticate) (rw t refl)

changed :
    (s : Server) (i current_pw new_pw : String) (us : Users)
    → (change_password s i current_pw new_pw us).1 ≡ true
    → (change_password s i current_pw new_pw us).0
      ≡ update_where (has_id i) (set_password s new_pw) us
unfolding change_password
changed s i current_pw new_pw us done = ground arith

-- The table with a changed password is not empty.
still_there :
    (s : Server) (i : String) (f : User → User) (u : User) (us : Users)
    → find (has_id i) us ≡ some u
    → (create_initial_admin s (update_where (has_id i) f us)).0 ≡ update_where (has_id i) f us
unfolding create_initial_admin
still_there s i f u [] e = absurd (ground arith)
still_there s i f u (x ∷ us) e = refl

-- A changed password works: where names are unique and an active user's change of password reports
-- success, a login with that user's name and the new password returns the user, with the time of
-- the login as the last login.
pub authenticate-change_password :
    (s : Server) (now : ℕ) (i current_pw new_pw : String) (u : User) (us : Users)
    → IsHasher s.hasher
    → IsDistinct us
    → get_user_by_id i us ≡ some u
    → u.is_active ≡ true
    → (change_password s i current_pw new_pw us).1 ≡ true
    → (authenticate
        (record s { now = now })
        u.username
        new_pw
        (change_password s i current_pw new_pw us).0).1
      ≡ some (logged_in now (set_password s new_pw u))
unfolding get_user_by_id set_password
authenticate-change_password s now i current_pw new_pw u us sound names e active done =
    let later : Server = record s { now = now } in
    let found = found_by_name (set_password s new_pw) (λ v. (refl, refl)) i u us names e active in
    let present =
      ap (find (may_log_in u.username)) (still_there later i (set_password s new_pw) u us e) in
    rw (changed s i current_pw new_pw us done) (
      passes later u.username new_pw (set_password s new_pw u)
        (update_where (has_id i) (set_password s new_pw) us) (present ∙ found)
        (sound new_pw s.salt))
