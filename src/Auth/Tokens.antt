-- ===== src/Auth/Tokens.antt =====
-- Signed tokens (the JWT utilities and `rotate_refresh_token` of modules/auth/service.py). The
-- JWT library is a parameter: how it signs a payload and what it reads back at a time. Redis holds
-- for a revoked jti the time at which its entry expires; without Redis nothing is written and
-- nothing counts as revoked.
pub mod SingleUse
use llm_dashboard.Base.{
  ℕ, ◌+◌, ◌-◌, ◌*◌, ◌≡◌, ◌≤◌, Bool, true, false, ◌&&◌, not, Option, none, some, String, str_eq,
  if◌then◌else◌, find, ltb,
}
use llm_dashboard.Auth.Accounts.{User, Users, has_id}

-- The claims of a token; a claim that is missing reads as "" or 0.
pub record Payload : Type 0 where
  pub sub : String
  pub username : String
  pub role : String
  pub tenant_id : Option String
  pub token_type : String
  pub iat : ℕ
  pub exp : ℕ
  pub jti : String

-- `jwt.encode` and `jwt.decode` under the server's key; `none` is a JWTError.
pub record Jwt (Token : Type 0) : Type 0 where
  pub encode : Payload → Token
  pub decode : ℕ → Token → Option Payload

-- What the library is documented to do: it reads no token after its time, and what it reads from
-- a token that it signed is what was signed.
pub record IsJwt {Token : Type 0} (j : Jwt Token) : Type 0 where
  pub expires : (now : ℕ) (t : Token) (p : Payload) → j.decode now t ≡ some p → now ≤ p.exp
  pub signed : (now : ℕ) (p q : Payload) → j.decode now (j.encode p) ≡ some q → q ≡ p

-- What a call finds: the time, whether EXISTS and SETEX reach Redis, two new uuids.
pub record Moment : Type 0 where
  pub now : ℕ
  pub exists_reaches : Bool
  pub setex_reaches : Bool
  pub access_jti : String
  pub refresh_jti : String

abbrev pub access_expire_seconds : ℕ
access_expire_seconds = 15 * 60

abbrev pub refresh_expire_seconds : ℕ
refresh_expire_seconds = 7 * 86400

-- The payload of `_make_token`.
unfoldable pub make_payload : User → String → ℕ → ℕ → String → Payload
make_payload u token_type now expire_delta jti = record {
  sub = u.id;
  username = u.username;
  role = u.role;
  tenant_id = u.tenant_id;
  token_type = token_type;
  iat = now;
  exp = now + expire_delta;
  jti = jti;
}

abbrev pub Blacklist : Type 0
Blacklist = String → Option ℕ

-- `max(exp - now, 1)`
unfoldable pub remaining : ℕ → ℕ → ℕ
remaining exp now = if ltb 1 (exp - now) then exp - now else 1

unfoldable pub blacklist_token : Moment → String → ℕ → Blacklist → Blacklist
unfolding remaining
blacklist_token m jti exp bl i =
    if m.setex_reaches && str_eq jti i then some (m.now + remaining exp m.now) else bl i

-- An entry counts until the time at which it expires.
unfoldable pub is_blacklisted : Moment → String → Blacklist → Bool
is_blacklisted m jti bl =
    m.exists_reaches && elim (bl jti) [ none ↦ false | some expires ↦ ltb m.now expires ]

-- The condition of the query of `rotate_refresh_token`.
unfoldable pub may_refresh : String → User → Bool
unfolding has_id
may_refresh sub u = has_id sub u && u.is_active

module _ {Token : Type 0} (j : Jwt Token) where
  unfoldable pub create_access_token : Moment → User → Token
  unfolding make_payload
  create_access_token m u =
      j.encode (make_payload u "access" m.now access_expire_seconds m.access_jti)

  unfoldable pub create_refresh_token : Moment → User → Token
  unfolding make_payload
  create_refresh_token m u =
      j.encode (make_payload u "refresh" m.now refresh_expire_seconds m.refresh_jti)

  -- The new pair for the user of a token, from the table as it is now.
  unfoldable pub new_pair : Moment → String → Users → Option (Token × Token)
  unfolding may_refresh create_access_token create_refresh_token
  new_pair m sub us = elim (find (may_refresh sub) us) [
    | none ↦ none
    | some u ↦ some (create_access_token m u, create_refresh_token m u)
  ]

  unfoldable pub rotate_refresh_token :
      Moment → Token → Users → Blacklist → Blacklist × Option (Token × Token)
  unfolding is_blacklisted blacklist_token new_pair
  rotate_refresh_token m token us bl = elim (j.decode m.now token) [
    | none ↦ (bl, none)
    | some p ↦
        if not (str_eq p.token_type "refresh")
        then (bl, none)
        else if is_blacklisted m p.jti bl
        then (bl, none)
        else (blacklist_token m p.jti p.exp bl, new_pair m p.sub us)
  ]
