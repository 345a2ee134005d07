-- ===== src/Quota.antt =====
-- The usage counters in the quota database of Redis (core/redis.py): keys, increments with their
-- expiry, reads and the reset. A key is given by the parts of its text. Redis is a map from keys
-- to a value with the time at which it expires; costs are whole numbers of a smallest unit.
-- `up` is false where the connection fails: then the call raises (`none`) and nothing is written.
pub mod Reads
pub mod Day
use llm_dashboard.Base.{
  ℕ, ◌+◌, ◌*◌, ◌==◌, Bool, true, false, ◌&&◌, Option, none, some, String, str_eq, ltb,
  if◌then◌else◌,
}
use llm_dashboard.Gateway.Rules.{Usage}

pub data Metric : Type 0 where
  tokens cost : Metric

-- `_daily_key` and `_monthly_key`: the tenant, the metric, and the day or the month.
pub data Key : Type 0 where
  daily monthly : String → Metric → ℕ → Key

unfoldable pub metric_eq : Metric → Metric → Bool
metric_eq tokens tokens = true
metric_eq cost cost = true
metric_eq _ _ = false

unfoldable pub key_eq : Key → Key → Bool
unfolding metric_eq
key_eq (daily t m d) (daily t' m' d') = str_eq t t' && (metric_eq m m' && d == d')
key_eq (monthly t m d) (monthly t' m' d') = str_eq t t' && (metric_eq m m' && d == d')
key_eq _ _ = false

-- What the clock shows: seconds, and the numbers of the day and of the month.
pub record Clock : Type 0 where
  pub now : ℕ
  pub today : ℕ
  pub month : ℕ

pub record Entry : Type 0 where
  pub value : ℕ
  pub expires_at : Option ℕ

abbrev pub Redis : Type 0
Redis = Key → Option Entry

abbrev pub daily_ttl_seconds : ℕ
daily_ttl_seconds = 25 * 3600

abbrev pub monthly_ttl_seconds : ℕ
monthly_ttl_seconds = 35 * 24 * 3600

-- An entry counts until the time at which it expires.
unfoldable pub is_live : ℕ → Entry → Bool
is_live now e = elim (e.expires_at) [ none ↦ true | some t ↦ ltb now t ]

-- `GET`
unfoldable pub get : ℕ → Redis → Key → Option ℕ
unfolding is_live
get now r k = elim (r k) [ none ↦ none | some e ↦ if is_live now e then some e.value else none ]

-- The value, or 0: `int(result or 0)`.
unfoldable pub get_or_zero : ℕ → Redis → Key → ℕ
unfolding get
get_or_zero now r k = elim (get now r k) [ none ↦ 0 | some v ↦ v ]

unfoldable pub put : Key → Option Entry → Redis → Redis
unfolding key_eq
put k e r j = if key_eq k j then e else r j

-- `INCRBY` and `INCRBYFLOAT`: a live entry keeps its expiry, a new one has none.
unfoldable pub incrby : ℕ → Key → ℕ → Redis → Redis
unfolding get put
incrby now k n r =
    put k
      (some (record {
        value = get_or_zero now r k + n;
        expires_at = elim (r k) [
          | none ↦ none
          | some e ↦ if is_live now e then e.expires_at else none
        ];
      }))
      r

-- `EXPIRE`
unfoldable pub expire : ℕ → Key → ℕ → Redis → Redis
unfolding put
expire now k ttl r = elim (r k) [
  | none ↦ r
  | some e ↦ put k (some (record e { expires_at = some (now + ttl) })) r
]

-- `DEL`
unfoldable pub delete : Key → Redis → Redis
unfolding put
delete k = put k none

-- The pipeline of `increment_token_usage` and of `increment_cost_usage`.
unfoldable pub increment : Metric → Clock → String → ℕ → Redis → Redis
unfolding incrby expire
increment m c tenant n r =
    let dk = daily tenant m c.today in
    let mk = monthly tenant m c.month in
    expire c.now mk monthly_ttl_seconds
      (incrby c.now mk n (expire c.now dk daily_ttl_seconds (incrby c.now dk n r)))

-- The new totals are returned.
unfoldable pub increment_usage : Bool → Metric → Clock → String → ℕ → Redis → Option (Redis × ℕ × ℕ)
unfolding increment get_or_zero
increment_usage up m c tenant n r =
    let r' = increment m c tenant n r in
    if up
    then some (
      r',
      get_or_zero c.now r' (daily tenant m c.today),
      get_or_zero c.now r' (monthly tenant m c.month),
    )
    else none

unfoldable pub usage : Clock → String → Redis → Usage
unfolding get_or_zero
usage c tenant r = record {
  daily_tokens = get_or_zero c.now r (daily tenant tokens c.today);
  monthly_tokens = get_or_zero c.now r (monthly tenant tokens c.month);
  daily_cost_usd = get_or_zero c.now r (daily tenant cost c.today);
  monthly_cost_usd = get_or_zero c.now r (monthly tenant cost c.month);
}

unfoldable pub get_current_usage : Bool → Clock → String → Redis → Option Usage
unfolding usage
get_current_usage up c tenant r = if up then some (usage c tenant r) else none

unfoldable pub reset_tenant_quota : Bool → Clock → String → Redis → Option Redis
unfolding delete
reset_tenant_quota up c tenant r =
    if up
    then some (
        delete (daily tenant tokens c.today) (
          delete (monthly tenant tokens c.month)
            (delete (daily tenant cost c.today) (delete (monthly tenant cost c.month) r))))
    else none
