-- ===== src/Gateway/Fallback/Breaker.antt =====
-- The circuit breaker: three failures in a row close a provider off for a minute, and no other one.
use llm_dashboard.Base.{ℕ, ◌+◌, ◌≡◌, ◌≢◌, true, none, String, eq_iff, eq_refl, arith, ltb}
use llm_dashboard.Gateway.Fallback.{
  Health, set_key, count_failure, record_failure, record_success, is_healthy,
}

-- Three failures in a row, from a provider without a record.
abbrev pub fail_thrice : String → ℕ → ℕ → ℕ → Health → Health
fail_thrice p t1 t2 t3 h = record_failure t3 p (record_failure t2 p (record_failure t1 p h))

-- Take a provider without recorded failures or cooldown. After two failures in a row it still counts as
-- healthy; after three it counts as unhealthy until 60 seconds after the third, and as healthy from then on;
-- after a success it counts as healthy at once. Whether another provider counts as healthy does not change.
pub is_healthy-record_failure :
    (p q : String) (t1 t2 t3 t : ℕ) (h : Health)
    → h.failures p ≡ none
    → h.cooldown_until p ≡ none
    → q ≢ p
    → ((is_healthy t p (record_failure t2 p (record_failure t1 p h))).1 ≡ true)
      × ((is_healthy t p (fail_thrice p t1 t2 t3 h)).1 ≡ ltb (t3 + 60000) t)
      × ((is_healthy t p (record_success p (fail_thrice p t1 t2 t3 h))).1 ≡ true)
      × ((is_healthy t q (fail_thrice p t1 t2 t3 h)).1 ≡ (is_healthy t q h).1)
unfolding is_healthy record_failure record_success set_key count_failure
is_healthy-record_failure p q t1 t2 t3 t h none_yet never other =
    ground (arith, eq_refl p, eq_iff p q)
