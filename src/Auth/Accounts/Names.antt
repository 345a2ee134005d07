-- ===== src/Auth/Accounts/Names.antt =====
-- No operation on accounts gives two users one name.
use llm_dashboard.Base.{
  ℕ, ◌≡◌, ◌≢◌, refl, sym, Bool, true, false, none, some, List, [], ◌∷◌, String, eq_iff, arith,
  Bool-cases, Option-cases, inl, inr, find, find-In, update_where, All, if◌then◌else◌, ◌∙◌,
}
use llm_dashboard.Auth.Accounts.{
  User, Users, Server, Updates, UserCreateRequest, has_id, may_log_in, has_username,
  get_user_by_username, create_initial_admin, authenticate, update_last_activity, change_password,
  rewrite_user, deactivate_user, reactivate_user, admin_reset_password, update_user, create_user,
  logged_in, set_password, set_active, apply_updates,
}

-- A call of the service on the table of users.
pub data Call : Type 0 where
  logs_in : Server → String → String → Call
  is_seen : ℕ → String → Call
  changes_password : Server → String → String → String → Call
  is_created : Server → UserCreateRequest → String → Call
  is_deactivated is_reactivated : String → Call
  is_updated : String → Updates → Call
  has_password_reset : Server → String → String → Call
  starts : Server → Call

unfoldable pub step : Call → Users → Users
step (logs_in s n p) us = (authenticate s n p us).0
step (is_seen now i) us = update_last_activity now i us
step (changes_password s i p q) us = (change_password s i p q us).0
step (is_created s r by) us = (create_user s r by us).0
step (is_deactivated i) us = (deactivate_user i us).0
step (is_reactivated i) us = (reactivate_user i us).0
step (is_updated i d) us = (update_user i d us).0
step (has_password_reset s i p) us = (admin_reset_password s i p us).0
step (starts s) us = (create_initial_admin s us).0

unfoldable pub run : List Call → Users → Users
unfolding step
run [] us = us
run (c ∷ cs) us = run cs (step c us)

-- No two rows have one name.
abbrev pub IsDistinct : Users → Type 0
IsDistinct [] = Unit
IsDistinct (u ∷ us) = All (λ v. v.username ≢ u.username) us × IsDistinct us

module _ (p : User → Bool) (f : User → User) (same : (u : User) → (f u).username ≡ u.username) where
  row_username : (u : User) → (if p u then f u else u).username ≡ u.username
  row_username u = elim (Bool-cases (p u)) [ inl t ↦ rw t (same u) | inr e ↦ rw e refl ]

  update_where-Differ :
      (n : String) (us : Users)
      → All (λ v. v.username ≢ n) us
      → All (λ v. v.username ≢ n) (update_where p f us)
  update_where-Differ n [] h = tt
  update_where-Differ n (u ∷ us) h =
      (λ e. h.0 (sym (row_username u) ∙ e), update_where-Differ n us h.1)

  update_where-IsDistinct : (us : Users) → IsDistinct us → IsDistinct (update_where p f us)
  update_where-IsDistinct [] h = tt
  update_where-IsDistinct (u ∷ us) h =
      (rw (row_username u) (update_where-Differ u.username us h.0), update_where-IsDistinct us h.1)

rewrite_user-IsDistinct :
    (i : String) (f : User → User) (us : Users)
    → ((u : User) → (f u).username ≡ u.username)
    → IsDistinct us
    → IsDistinct (rewrite_user i f us).0
unfolding rewrite_user
rewrite_user-IsDistinct i f us same h =
    ground (arith, update_where-IsDistinct (has_id i) f same us h)

create_initial_admin-IsDistinct :
    (s : Server) (us : Users) → IsDistinct us → IsDistinct (create_initial_admin s us).0
unfolding create_initial_admin
create_initial_admin-IsDistinct s [] h = (tt, tt)
create_initial_admin-IsDistinct s (u ∷ us) h = h

authenticate-IsDistinct :
    (s : Server) (n p : String) (us : Users) → IsDistinct us → IsDistinct (authenticate s n p us).0
unfolding authenticate
authenticate-IsDistinct s n p us h =
    let present = (create_initial_admin s us).0 in
    let start = create_initial_admin-IsDistinct s us h in
    elim (Option-cases (find (may_log_in n) present)) [
      | inl e ↦ rw (e, authenticate) start
      | inr (u, e) ↦
          let kept =
            update_where-IsDistinct (has_id u.id) (logged_in s.now) (λ v. refl) present start in
          rw (e, authenticate) (ground arith)
    ]

-- A name that no row has is free.
absent : (n : String) (us : Users) → get_user_by_username n us ≡ none → All (λ v. v.username ≢ n) us
unfolding get_user_by_username has_username
absent n [] e = tt
absent n (u ∷ us) e = elim (Bool-cases (has_username n u)) [
  | inl t ↦ absurd (find-In (has_username n) u (u ∷ us) (inl refl) t e)
  | inr f ↦ (λ q. ground (arith, eq_iff u.username n), absent n us (ground arith))
]

create_user-IsDistinct :
    (s : Server) (r : UserCreateRequest) (by : String) (us : Users)
    → IsDistinct us
    → IsDistinct (create_user s r by us).0
unfolding create_user
create_user-IsDistinct s r by us h = elim (Option-cases (get_user_by_username r.username us)) [
  | inl e ↦ ground (arith, absent r.username us e)
  | inr (u, e) ↦ ground arith
]

step-IsDistinct : (c : Call) (us : Users) → IsDistinct us → IsDistinct (step c us)
unfolding step update_last_activity change_password deactivate_user reactivate_user
    admin_reset_password update_user
step-IsDistinct (logs_in s n p) us h = authenticate-IsDistinct s n p us h
step-IsDistinct (is_seen now i) us h =
    update_where-IsDistinct (has_id i) (λ u. record u { last_activity_at = some now }) (λ u. refl)
      us h
step-IsDistinct (changes_password s i p q) us h =
    ground (arith, update_where-IsDistinct (has_id i) (set_password s q) (λ u. refl) us h)
step-IsDistinct (is_created s r by) us h = create_user-IsDistinct s r by us h
step-IsDistinct (is_deactivated i) us h =
    rewrite_user-IsDistinct i (set_active false) us (λ u. refl) h
step-IsDistinct (is_reactivated i) us h =
    rewrite_user-IsDistinct i (set_active true) us (λ u. refl) h
step-IsDistinct (is_updated i d) us h =
    ground (arith, update_where-IsDistinct (has_id i) (apply_updates d) (λ u. refl) us h)
step-IsDistinct (has_password_reset s i p) us h =
    rewrite_user-IsDistinct i (set_password s p) us (λ u. refl) h
step-IsDistinct (starts s) us h = create_initial_admin-IsDistinct s us h

-- Usernames stay unique: after any sequence of calls of the account operations, no two rows have
-- one name, if this held before.
pub run-IsDistinct : (cs : List Call) (us : Users) → IsDistinct us → IsDistinct (run cs us)
unfolding run
run-IsDistinct [] us h = h
run-IsDistinct (c ∷ cs) us h = run-IsDistinct cs (step c us) (step-IsDistinct c us h)
