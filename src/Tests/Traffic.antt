-- ===== src/Tests/Traffic.antt =====
-- The rate limiter at concrete inputs.
use llm_dashboard.Base.{ℕ, ◌≤◌, some, none, List, [], ◌∷◌, String, arith, length, filter}
use llm_dashboard.RateLimit.{Request, get_rate_limit}
use llm_dashboard.RateLimit.Window.{Attempt, serve, in_window, Obeys, serve_bounded}

-- The whole header is one hop.
abbrev whole : String → String
whole s = s

abbrev login : Request
login = record {
  path = "/v1/auth/login";
  method = "POST";
  forwarded = none;
  host = some "10.0.0.1";
}

abbrev logins : List Attempt
logins = record { now = 5; request = login } ∷ record { now = 900; request = login } ∷ []

login-Obeys :
    (now : ℕ) → Obeys whole "10.0.0.1:/v1/auth/login" 10 (record { now = now; request = login })
unfolding get_rate_limit
login-Obeys now e = omega arith

serve_bounded_example :
    length (
      filter (in_window 60000) (
        (serve whole logins (record { requests = λ _. []; last_cleanup = 0 }, λ _. [])).1
          "10.0.0.1:/v1/auth/login"))
    ≤ 10
serve_bounded_example =
    serve_bounded whole "10.0.0.1:/v1/auth/login" 10 0 logins (omega arith, (omega arith, tt))
      (login-Obeys 5, (login-Obeys 900, tt)) 60000
