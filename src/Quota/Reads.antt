-- ===== src/Quota/Reads.antt =====
-- What is read from the counters after an increment.
use llm_dashboard.Base.{ℕ, ◌+◌, ◌*◌, ◌≡◌, ◌↔◌, true, String, arith, eq_iff, ltb, if◌then◌else◌}
use llm_dashboard.Quota.{
  Metric, Key, daily, monthly, metric_eq, key_eq, Clock, Redis, get, get_or_zero, put, incrby,
  expire, increment,
}

pub key_eq_iff : (j k : Key) → (key_eq j k ≡ true) ↔ (j ≡ k)
unfolding key_eq metric_eq
key_eq_iff (daily t m d) (daily t' m' d') = ground (arith, eq_iff t t')
key_eq_iff (daily t m d) (monthly t' m' d') = (λ h. cc, λ h. cc)
key_eq_iff (monthly t m d) (daily t' m' d') = (λ h. cc, λ h. cc)
key_eq_iff (monthly t m d) (monthly t' m' d') = ground (arith, eq_iff t t')

-- One counter is incremented and its expiry renewed.
abbrev bump : ℕ → Key → ℕ → ℕ → Redis → Redis
bump now k ttl n r = expire now k ttl (incrby now k n r)

get_or_zero-bump :
    (now later : ℕ) (k j : Key) (ttl n : ℕ) (r : Redis)
    → get_or_zero later (bump now k ttl n r) j ≡ (
        if key_eq k j
        then (if ltb later (now + ttl) then get_or_zero now r k + n else 0)
        else get_or_zero later r j)
unfolding get_or_zero incrby expire put get
get_or_zero-bump now later k j ttl n r = ground (arith, key_eq_iff k j, key_eq_iff k k)

-- What is read from any counter at any time after an increment: the
-- counter of the same tenant, metric and day (or month) reads as before plus the amount until its life of 25
-- hours (or 35 days) is over, and as 0 afterwards; every other counter reads as without the increment.
pub get_or_zero-increment :
    (m m' : Metric) (c : Clock) (t u : String) (n d later : ℕ) (r : Redis)
    → (get_or_zero later (increment m c t n r) (daily u m' d) ≡ (
        if key_eq (daily t m c.today) (daily u m' d)
        then (if ltb later (c.now + 25 * 3600)
            then get_or_zero c.now r (daily t m c.today) + n
            else 0)
        else get_or_zero later r (daily u m' d)))
      × (get_or_zero later (increment m c t n r) (monthly u m' d) ≡ (
          if key_eq (monthly t m c.month) (monthly u m' d)
          then (if ltb later (c.now + 35 * 24 * 3600)
              then get_or_zero c.now r (monthly t m c.month) + n
              else 0)
          else get_or_zero later r (monthly u m' d)))
unfolding increment
get_or_zero-increment m m' c t u n d later r =
    let dk = daily t m c.today in
    let mk = monthly t m c.month in
    (
      ground (
        arith,
        get_or_zero-bump c.now later mk (daily u m' d) (35 * 24 * 3600) n
            (bump c.now dk (25 * 3600) n r),
        get_or_zero-bump c.now later dk (daily u m' d) (25 * 3600) n r,
        key_eq_iff mk (daily u m' d),
      ),
      ground (
        arith,
        get_or_zero-bump c.now later mk (monthly u m' d) (35 * 24 * 3600) n
            (bump c.now dk (25 * 3600) n r),
        get_or_zero-bump c.now c.now dk mk (25 * 3600) n r,
        get_or_zero-bump c.now later dk (monthly u m' d) (25 * 3600) n r,
        key_eq_iff dk (monthly u m' d),
        key_eq_iff dk mk,
      ),
    )
