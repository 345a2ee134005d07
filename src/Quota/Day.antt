-- ===== src/Quota/Day.antt =====
-- A day of increments: the daily counter is the sum of the day's amounts.
use llm_dashboard.Base.{
  ℕ, ◌+◌, ◌≤◌, ◌<◌, ◌≡◌, none, List, [], ◌∷◌, String, str_eq, arith, All, eq_iff, if◌then◌else◌,
}
use llm_dashboard.Quota.{Metric, daily, Clock, Redis, get_or_zero, increment}
use llm_dashboard.Quota.Reads.{get_or_zero-increment, key_eq_iff}

pub record Call : Type 0 where
  pub clock : Clock
  pub tenant : String
  pub amount : ℕ

-- The increments of a sequence of calls.
pub run : Metric → List Call → Redis → Redis
run m [] r = r
run m (c ∷ calls) r = run m calls (increment m c.clock c.tenant c.amount r)

-- What one tenant used.
pub total : String → List Call → ℕ
total u [] = 0
total u (c ∷ calls) = (if str_eq c.tenant u then c.amount else 0) + total u calls

-- The time falls in the day that began at `start`.
abbrev pub InDay : ℕ → ℕ → Type 0
InDay start t = (start ≤ t) × (t < start + 86400)

abbrev pub OnDay : ℕ → ℕ → Call → Type 0
OnDay start d c = InDay start c.clock.now × (c.clock.today ≡ d)

run_from :
    (m : Metric) (u : String) (start d acc : ℕ) (calls : List Call) (r : Redis) (later : ℕ)
    → All (OnDay start d) calls
    → ((t : ℕ) → InDay start t → get_or_zero t r (daily u m d) ≡ acc)
    → InDay start later
    → get_or_zero later (run m calls r) (daily u m d) ≡ acc + total u calls
unfolding run total
run_from m u start d acc [] r later on h l = omega (arith, h later l)
run_from m u start d acc (c ∷ calls) r later on h l =
    let part : ℕ = if str_eq c.tenant u then c.amount else 0 in
    let r' = increment m c.clock c.tenant c.amount r in
    let step : (t : ℕ) → InDay start t → get_or_zero t r' (daily u m d) ≡ acc + part = λ t i.
      ground (
        arith,
        (get_or_zero-increment m m c.clock c.tenant u c.amount d t r).0,
        key_eq_iff (daily c.tenant m c.clock.today) (daily u m d),
        h t i,
        h c.clock.now on.0.0,
        eq_iff c.tenant u,
      ) in
    omega (arith, run_from m u start d (acc + part) calls r' later on.1 step l)

-- If no counter of the tenant and day exists yet, then after any sequence of calls of that day, by
-- any tenants in any order, the counter reads at every later time of the day as the sum of the
-- tenant's own amounts: no increment of the day is lost to an expiry.
pub get_or_zero-run :
    (m : Metric) (u : String) (start d : ℕ) (calls : List Call) (r : Redis) (later : ℕ)
    → r (daily u m d) ≡ none
    → All (OnDay start d) calls
    → InDay start later
    → get_or_zero later (run m calls r) (daily u m d) ≡ total u calls
unfolding get_or_zero
get_or_zero-run m u start d calls r later fresh on l =
    omega (arith, run_from m u start d 0 calls r later on (λ t i. ground arith) l)
