-- ===== src/Auth/Accounts.antt =====
-- User accounts (the table llm_auth_users of modules/auth/models.py; authentication and user
-- management of AuthService in modules/auth/service.py). The password scheme is passlib's: a
-- parameter. Usernames and ids are unique in the table, so a query for one has at most one row.
pub mod Names
pub mod Login
use llm_dashboard.Base.{
  ℕ, ◌≡◌, Bool, true, false, ◌&&◌, not, Option, none, some, List, [], ◌∷◌, String, str_eq,
  if◌then◌else◌, find, update_where, sort_desc,
}
use llm_dashboard.Auth.{Result, ok, http_exception, forbidden, conflict}

pub record User : Type 0 where
  pub id : String
  pub username : String
  pub email : Option String
  pub hashed_password : String
  pub role : String
  pub tenant_id : Option String
  pub is_active : Bool
  pub created_at : ℕ
  pub last_login_at : Option ℕ
  pub last_activity_at : Option ℕ

abbrev pub Users : Type 0
Users = List User

-- `pwd_context`: the hash of a password under a salt, and the test of a password against a hash.
pub record Hasher : Type 0 where
  pub hash : String → ℕ → String
  pub verify : String → String → Bool

-- What `verify` is documented to do: a password passes against each of its own hashes.
abbrev pub IsHasher : Hasher → Type 0
IsHasher h = (password : String) (salt : ℕ) → h.verify password (h.hash password salt) ≡ true

-- What the server contributes to a call: the time, a new uuid, a salt, `settings.admin_password`.
pub record Server : Type 0 where
  pub hasher : Hasher
  pub now : ℕ
  pub new_id : String
  pub salt : ℕ
  pub admin_password : String

unfoldable pub has_id : String → User → Bool
has_id i u = str_eq u.id i

unfoldable pub has_username : String → User → Bool
has_username n u = str_eq u.username n

-- The query of `get_user_by_id`, which most operations make.
unfoldable pub get_user_by_id : String → Users → Option User
unfolding has_id
get_user_by_id i us = find (has_id i) us

unfoldable pub get_user_by_username : String → Users → Option User
unfolding has_username
get_user_by_username n us = find (has_username n) us

-- The row of the default administrator.
unfoldable pub initial_admin : Server → User
initial_admin s = record {
  id = s.new_id;
  username = "admin";
  email = some "admin@llmdashboard.local";
  hashed_password = s.hasher.hash s.admin_password s.salt;
  role = "super_admin";
  tenant_id = none;
  is_active = true;
  created_at = s.now;
  last_login_at = none;
  last_activity_at = none;
}

-- The default administrator is made where there are no users.
unfoldable pub create_initial_admin : Server → Users → Users × Bool
unfolding initial_admin
create_initial_admin s [] = (initial_admin s ∷ [], true)
create_initial_admin s (u ∷ us) = (u ∷ us, false)

-- The condition of the query of `authenticate`.
unfoldable pub may_log_in : String → User → Bool
unfolding has_username
may_log_in n u = has_username n u && u.is_active

unfoldable pub logged_in : ℕ → User → User
logged_in now u = record u { last_login_at = some now; last_activity_at = some now }

unfoldable pub authenticate : Server → String → String → Users → Users × Option User
unfolding create_initial_admin may_log_in logged_in has_id
authenticate s username password us =
    let present = (create_initial_admin s us).0 in
    elim (find (may_log_in username) present) [
      | none ↦ (present, none)
      | some u ↦
          if s.hasher.verify password u.hashed_password
          then (update_where (has_id u.id) (logged_in s.now) present, some (logged_in s.now u))
          else (present, none)
    ]

unfoldable pub update_last_activity : ℕ → String → Users → Users
unfolding has_id
update_last_activity now i = update_where (has_id i) (λ u. record u { last_activity_at = some now })

unfoldable pub set_password : Server → String → User → User
set_password s password u = record u { hashed_password = s.hasher.hash password s.salt }

unfoldable pub change_password : Server → String → String → String → Users → Users × Bool
unfolding get_user_by_id set_password has_id
change_password s i current_pw new_pw us = elim (get_user_by_id i us) [
  | none ↦ (us, false)
  | some u ↦
      if s.hasher.verify current_pw u.hashed_password
      then (update_where (has_id i) (set_password s new_pw) us, true)
      else (us, false)
]

-- A row that is found by its id is rewritten; the result says whether there is one.
unfoldable pub rewrite_user : String → (User → User) → Users → Users × Bool
unfolding get_user_by_id has_id
rewrite_user i f us = elim (get_user_by_id i us) [
  | none ↦ (us, false)
  | some u ↦ (update_where (has_id i) f us, true)
]

unfoldable pub set_active : Bool → User → User
set_active b u = record u { is_active = b }

unfoldable pub deactivate_user : String → Users → Users × Bool
unfolding rewrite_user set_active
deactivate_user i = rewrite_user i (set_active false)

unfoldable pub reactivate_user : String → Users → Users × Bool
unfolding rewrite_user set_active
reactivate_user i = rewrite_user i (set_active true)

unfoldable pub admin_reset_password : Server → String → String → Users → Users × Bool
unfolding rewrite_user set_password
admin_reset_password s i password = rewrite_user i (set_password s password)

-- The fields that an update may name; None leaves a field as it is.
pub record Updates : Type 0 where
  pub email : Option String
  pub role : Option String
  pub tenant_id : Option String
  pub is_active : Option Bool

unfoldable pub apply_updates : Updates → User → User
apply_updates d u = record u {
  email = elim (d.email) [ none ↦ u.email | some e ↦ some e ];
  role = elim (d.role) [ none ↦ u.role | some r ↦ r ];
  tenant_id = elim (d.tenant_id) [ none ↦ u.tenant_id | some t ↦ some t ];
  is_active = elim (d.is_active) [ none ↦ u.is_active | some b ↦ b ];
}

unfoldable pub update_user : String → Updates → Users → Users × Option User
unfolding get_user_by_id apply_updates has_id
update_user i d us = elim (get_user_by_id i us) [
  | none ↦ (us, none)
  | some u ↦ (update_where (has_id i) (apply_updates d) us, some (apply_updates d u))
]

pub record UserCreateRequest : Type 0 where
  pub username : String
  pub password : String
  pub email : Option String
  pub role : String
  pub tenant_id : Option String

unfoldable pub new_user : Server → UserCreateRequest → User
new_user s r = record {
  id = s.new_id;
  username = r.username;
  email = r.email;
  hashed_password = s.hasher.hash r.password s.salt;
  role = r.role;
  tenant_id = r.tenant_id;
  is_active = true;
  created_at = s.now;
  last_login_at = none;
  last_activity_at = none;
}

unfoldable pub create_user : Server → UserCreateRequest → String → Users → Users × Result User
unfolding get_user_by_username new_user
create_user s r created_by_role us =
    if str_eq r.role "super_admin" && not (str_eq created_by_role "super_admin")
    then (us, http_exception forbidden)
    else elim (get_user_by_username r.username us) [
      | some u ↦ (us, http_exception conflict)
      | none ↦ (new_user s r ∷ us, ok (new_user s r))
    ]

-- The newest first.
unfoldable pub get_all_users : Users → List User
get_all_users us = sort_desc (λ u. u.created_at) us
