-- ===== src/Tests/Accounts.antt =====
-- Accounts, tokens and keys at concrete inputs.
use text.Mathlib.TextPositions.{eq_refl}
use llm_dashboard.Base.{
  ℕ, ◌≡◌, ◌≤◌, ◌<◌, refl, true, none, some, [], ◌∷◌, arith, ltb, str_eq, if◌then◌else◌, length,
  filter,
}
use llm_dashboard.Auth.Accounts.{
  User, Server, Hasher, IsHasher, authenticate, change_password, deactivate_user, set_password,
  logged_in,
}
use llm_dashboard.Auth.Accounts.Names.{Call, run, IsDistinct, run-IsDistinct}
use llm_dashboard.Auth.Accounts.Login.{
  IsNot, deactivate_user-locks_out, authenticate-change_password,
}
use llm_dashboard.Auth.Tokens.{Jwt, IsJwt, Payload, Moment, rotate_refresh_token}
use llm_dashboard.Auth.Tokens.SingleUse.{Attempt, Obeys, exchanged, exchanged_single_use}

-- The hash of a password is the password.
abbrev plain : Hasher
plain = record { hash = λ p salt. p; verify = λ p h. str_eq p h }

plain-IsHasher : IsHasher plain
plain-IsHasher p salt = eq_refl p

-- A token is its payload.
abbrev pub open_jwt : Jwt Payload
open_jwt = record { encode = λ p. p; decode = λ now p. if ltb p.exp now then none else some p }

pub open_jwt-IsJwt : IsJwt open_jwt
open_jwt-IsJwt = record { expires = λ now t p e. ground arith; signed = λ now p q e. ground arith }

abbrev pub server : Server
server = record {
  hasher = plain;
  now = 100;
  new_id = "u2";
  salt = 5;
  admin_password = "Admin@1234";
}

abbrev pub alice : User
alice = record {
  id = "u1";
  username = "alice";
  email = none;
  hashed_password = "Secret1";
  role = "tenant_admin";
  tenant_id = some "acme";
  is_active = true;
  created_at = 1;
  last_login_at = none;
  last_activity_at = none;
}

abbrev pub morning : Moment
morning = record {
  now = 1000;
  exists_reaches = true;
  setex_reaches = true;
  access_jti = "a1";
  refresh_jti = "r1";
}

run-IsDistinct_example :
    IsDistinct (run (Call.starts server ∷ Call.is_deactivated "u1" ∷ []) (alice ∷ []))
run-IsDistinct_example =
    run-IsDistinct (Call.starts server ∷ Call.is_deactivated "u1" ∷ []) (alice ∷ []) (tt, tt)

-- The refresh token of alice.
abbrev refresh : Payload
refresh = record {
  sub = "u1";
  username = "alice";
  role = "tenant_admin";
  tenant_id = some "acme";
  token_type = "refresh";
  iat = 1000;
  exp = 605800;
  jti = "r1";
}

deactivate_user-locks_out_example :
    IsNot "u1" (authenticate server "alice" "Secret1" (deactivate_user "u1" (alice ∷ [])).0).1
    × ((rotate_refresh_token open_jwt morning refresh
          (deactivate_user "u1" (alice ∷ [])).0
          (λ _. none)).1
        ≡ none)
unfolding deactivate_user
deactivate_user-locks_out_example =
    deactivate_user-locks_out open_jwt server "u1" "alice" "Secret1" (alice ∷ []) morning refresh
      refresh (λ _. none) refl refl refl

authenticate-change_password_example :
    (authenticate
      (record server { now = 200 })
      "alice"
      "Newer2"
      (change_password server "u1" "Secret1" "Newer2" (alice ∷ [])).0).1
    ≡ some (logged_in 200 (set_password server "Newer2" alice))
unfolding change_password
authenticate-change_password_example =
    authenticate-change_password server 200 "u1" "Secret1" "Newer2" alice (alice ∷ [])
      plain-IsHasher (tt, tt) refl refl refl

abbrev attempt : ℕ → Attempt open_jwt
attempt now = record { moment = record morning { now = now }; token = refresh; users = alice ∷ [] }

attempt-Obeys : (now : ℕ) → now < 605800 → Obeys open_jwt "r1" 605800 (attempt now)
attempt-Obeys now h = (refl, refl, λ p e q. (ground arith, ground arith))

exchanged_single_use_example :
    length
      (filter (str_eq "r1") (exchanged open_jwt (attempt 2000 ∷ attempt 2001 ∷ []) (λ _. none)))
    ≤ 1
exchanged_single_use_example =
    exchanged_single_use open_jwt "r1" 605800 (attempt 2000 ∷ attempt 2001 ∷ []) (λ _. none)
      open_jwt-IsJwt (attempt-Obeys 2000 (omega arith), (attempt-Obeys 2001 (omega arith), tt))

-- The first of two exchanges succeeds.
exchanged_once : exchanged open_jwt (attempt 2000 ∷ attempt 2001 ∷ []) (λ _. none) ≡ "r1" ∷ []
unfolding exchanged rotate_refresh_token
exchanged_once = refl
