-- ===== src/RateLimit.antt =====
-- The sliding-window rate limiter (core/rate_limit.py). Times are milliseconds of the monotonic clock. The
-- middleware is one step on the limiter and an answer; the application behind it is left out. `first_hop` is
-- the part of a forwarding header before the first comma, stripped.
mod Filters
pub mod Window
use Prim.Native.String.{◌++◌ as append}
use text.Mathlib.Text.{starts_with}
use llm_dashboard.Base.{
  ℕ, ◌+◌, ◌-◌, ◌*◌, ◌/◌, Bool, true, false, ◌||◌, Option, none, some, List, [], ◌∷◌, ◌++◌, String,
  str_eq, ltb, leb, if◌then◌else◌, length, filter, head,
}
use llm_dashboard.Gateway.Rules.{truthy_text}

abbrev pub default_rate : ℕ
default_rate = 200

abbrev pub auth_rate : ℕ
auth_rate = 10

abbrev pub burst_rate : ℕ
burst_rate = 60

-- `WINDOW_SECONDS`, in milliseconds.
abbrev pub window : ℕ
window = 60000

pub record Request : Type 0 where
  pub path : String
  pub method : String
  pub forwarded : Option String
  pub host : Option String

-- The timestamps by key, and the time of the last cleanup.
pub record Limiter : Type 0 where
  pub requests : String → List ℕ
  pub last_cleanup : ℕ

-- `exempt` is a path without a limit; `limited` is the answer 429 with Retry-After and the limit; `passed` has
-- the limit and what remains of it.
pub data Response : Type 0 where
  exempt : Response
  limited : ℕ → ℕ → Response
  passed : ℕ → ℕ → Response

unfoldable pub is_auth_path : String → Bool
is_auth_path p = str_eq p "/v1/auth/login" || str_eq p "/v1/auth/refresh"

unfoldable pub is_exempt : String → Bool
is_exempt p =
    starts_with p "/health"
    || (starts_with p "/ready"
        || (starts_with p "/docs"
            || (starts_with p "/redoc"
                || (starts_with p "/openapi.json" || starts_with p "/dashboard"))))

unfoldable pub get_client_ip : (String → String) → Request → String
get_client_ip first_hop r = elim (truthy_text r.forwarded) [
  | some chain ↦ first_hop chain
  | none ↦ elim (r.host) [ some h ↦ h | none ↦ "unknown" ]
]

unfoldable pub get_rate_limit : String → String → ℕ
unfolding is_auth_path
get_rate_limit path method =
    if is_auth_path path
    then auth_rate
    else if str_eq method "POST"
        || (str_eq method "PUT" || (str_eq method "PATCH" || str_eq method "DELETE"))
    then burst_rate
    else default_rate

-- `rate_key`
unfoldable pub rate_key : (String → String) → Request → String
unfolding get_client_ip is_auth_path
rate_key first_hop r =
    let ip = get_client_ip first_hop r in
    if is_auth_path r.path then append ip (append ":" r.path) else ip

-- `t > now - WINDOW_SECONDS`
unfoldable pub is_recent : ℕ → ℕ → Bool
is_recent now t = ltb now (t + window)

-- `_cleanup_old_entries`. A key without timestamps and a missing key read the same.
unfoldable pub cleanup_old_entries : ℕ → Limiter → Limiter
unfolding is_recent
cleanup_old_entries now l =
    if ltb (now - l.last_cleanup) 60000
    then l
    else record { requests = λ k. filter (is_recent now) (l.requests k); last_cleanup = now }

unfoldable pub set_requests : String → List ℕ → Limiter → Limiter
set_requests k ts l = record l { requests = λ j. if str_eq k j then ts else l.requests j }

-- Seconds until the oldest request of the window leaves it; a full window is never empty, since every
-- limit is positive.
unfoldable pub retry_after : ℕ → List ℕ → ℕ
retry_after now recent = elim (head recent) [
  | none ↦ 1
  | some oldest ↦ (window - (now - oldest)) / 1000 + 1
]

-- The test of a request against the limit of its key.
unfoldable pub check_limit : ℕ → ℕ → String → List ℕ → Limiter → Limiter × Response
unfolding set_requests retry_after
check_limit now limit key recent l =
    if leb limit (length recent)
    then (set_requests key recent l, limited (retry_after now recent) limit)
    else (
      set_requests key (recent ++ now ∷ []) l,
      passed limit (limit - length (recent ++ now ∷ [])),
    )

-- `dispatch`
unfoldable pub dispatch : (String → String) → ℕ → Request → Limiter → Limiter × Response
unfolding is_exempt cleanup_old_entries rate_key get_rate_limit is_recent check_limit
dispatch first_hop now r l =
    let cleaned = cleanup_old_entries now l in
    let key = rate_key first_hop r in
    if is_exempt r.path
    then (l, exempt)
    else check_limit now (get_rate_limit r.path r.method) key
        (filter (is_recent now) (cleaned.requests key)) cleaned
