-- ===== src/Gateway/LogCall/Sequence.antt =====
-- A daily token limit holds through any sequence of calls, one after another.
use llm_dashboard.Base.{
  ℕ, ◌+◌, ◌≤◌, ◌<◌, ◌≡◌, refl, ◌∙◌, ap, inl, inr, Bool, Option, none, some, List, [], ◌∷◌, String,
  arith, Bool-cases, All, if◌then◌else◌,
}
use llm_dashboard.Gateway.RuleStore.{Codec, IsFaithful}
use llm_dashboard.Gateway.Security.{Models, sanitize_request}
use llm_dashboard.Gateway.World.{World, CallRequest}
use llm_dashboard.Gateway.LogCall.{log_call}
use llm_dashboard.Gateway.LogCall.Outcome.{
  served_from_cache, carried_out, refused, counted, counted_if, log_call-Outcome,
}
use llm_dashboard.Gateway.LogCall.Guard.{IsGuarded, IsGuarded-of}
use llm_dashboard.Gateway.LogCall.DailyLimit.{process-fits, process-IsGuarded}
use llm_dashboard.Quota.{Redis, Clock, daily, tokens, cost, key_eq, usage, get_or_zero, increment}
use llm_dashboard.Quota.Reads.{get_or_zero-increment, key_eq_iff}
use llm_dashboard.Quota.Day.{InDay}

-- What the surroundings choose for a call: the clock, which services answer, the answers of the
-- semantic cache, the security service, the random values and the request.
pub record Step : Type 0 where
  pub clock : Clock
  pub quota_up : Bool
  pub cache_up : Bool
  pub db_up : Bool
  pub semantic : String → String → String → Option String
  pub security : Option Models
  pub draw : ℕ
  pub log_id : ℕ
  pub request : CallRequest

unfoldable pub arrive : Step → World → World
arrive s w = record w {
  clock = s.clock;
  quota_up = s.quota_up;
  cache_up = s.cache_up;
  db_up = s.db_up;
  semantic = s.semantic;
}

-- The calls, one after another.
unfoldable pub serve : Codec → List Step → World → World
unfolding arrive
serve c [] w = w
serve c (s ∷ steps) w =
    serve c steps (log_call c s.security s.draw s.log_id (arrive s w) s.request).0

log_call-fits :
    (c : Codec) (f : IsFaithful c) (limit : ℕ) (security : Option Models) (draw id : ℕ) (w : World)
    (r : CallRequest)
    → 0 < limit
    → IsGuarded c r.tenant_id limit w
    → (log_call c security draw id w r).1.log_id ≡ some id
    → (usage w.clock r.tenant_id w.quota).daily_tokens + r.total_tokens ≤ limit
unfolding log_call sanitize_request
log_call-fits c f limit none draw id w r pos h l = process-fits c f limit draw id w r pos h l
log_call-fits c f limit (some m) draw id w r pos h l =
    process-fits c f limit draw id w (sanitize_request (some m) r) pos h l

-- The tenant's counter for the day, once a call has been counted.
counted_daily :
    (cl : Clock) (r : CallRequest) (q : Redis) (tenant : String) (start d t : ℕ)
    → InDay start cl.now
    → InDay start t
    → get_or_zero t (counted cl r q) (daily tenant tokens d) ≡ (
        if key_eq (daily r.tenant_id tokens cl.today) (daily tenant tokens d)
        then get_or_zero cl.now q (daily r.tenant_id tokens cl.today) + r.total_tokens
        else get_or_zero t q (daily tenant tokens d))
counted_daily cl r q tenant start d t i j =
    let q' = increment tokens cl r.tenant_id r.total_tokens q in
    ground (
      arith,
      (get_or_zero-increment cost tokens cl r.tenant_id tenant r.cost_usd d t q').0,
      (get_or_zero-increment tokens tokens cl r.tenant_id tenant r.total_tokens d t q).0,
      key_eq_iff (daily r.tenant_id cost cl.today) (daily tenant tokens d),
    )

module _ (c : Codec) (f : IsFaithful c) (tenant : String) (limit start d : ℕ)
    (pos : 0 < limit) where
  abbrev IsBelow : Redis → Type 0
  IsBelow q = (t : ℕ) → InDay start t → get_or_zero t q (daily tenant tokens d) ≤ limit

  counted-IsBelow :
      (cl : Clock) (r : CallRequest) (q : Redis)
      → InDay start cl.now
      → cl.today ≡ d
      → (r.tenant_id ≡ tenant → (usage cl tenant q).daily_tokens + r.total_tokens ≤ limit)
      → IsBelow q
      → IsBelow (counted cl r q)
  unfolding usage
  counted-IsBelow cl r q i today fits h t j = ground (
    arith,
    counted_daily cl r q tenant start d t i j,
    h t j,
    key_eq_iff (daily r.tenant_id tokens cl.today) (daily tenant tokens d),
    fits,
  )

  log_call-IsBelow :
      (s : Step) (w : World)
      → InDay start s.clock.now
      → s.clock.today ≡ d
      → IsGuarded c tenant limit w
      → IsBelow w.quota
      → IsBelow (log_call c s.security s.draw s.log_id (arrive s w) s.request).0.quota
  unfolding arrive
  log_call-IsBelow s w i today g h =
      elim (log_call-Outcome c s.security s.draw s.log_id (arrive s w) s.request) [
        | served_from_cache _ _ e ↦ rw e h
        | refused _ _ _ e ↦ rw e h
        | carried_out _ _ _ logged _ _ _ quota ↦ elim (Bool-cases s.quota_up) [
          | inr off ↦ rw (quota ∙ ap (λ up. counted_if up s.clock s.request w.quota) off) h
          | inl on ↦ rw (quota ∙ ap (λ up. counted_if up s.clock s.request w.quota) on) (
              counted-IsBelow s.clock s.request w.quota i today
                (λ same. rw same at (
                  log_call-fits c f limit s.security s.draw s.log_id (arrive s w) s.request pos
                    (rw same (IsGuarded-of c f tenant limit g refl refl g.cached)) logged))
                h)
        ]
      ]

  -- `log_call` and what arrives with a call leave the guard in place.
  log_call-IsGuarded :
      (s : Step) (w : World)
      → IsGuarded c tenant limit w
      → IsGuarded c tenant limit (log_call c s.security s.draw s.log_id (arrive s w) s.request).0
  unfolding arrive log_call
  log_call-IsGuarded s w g =
      process-IsGuarded c f tenant limit s.draw s.log_id (arrive s w)
        (sanitize_request s.security s.request) (IsGuarded-of c f tenant limit g refl refl g.cached)

  abbrev OnDay : Step → Type 0
  OnDay s = InDay start s.clock.now × (s.clock.today ≡ d)

  -- Take a tenant under a daily token limit: an active rule without dates sets it, no rule
  -- downgrades a model, no experiment runs for the tenant, and the rule cache agrees. Then after any
  -- sequence of calls of one day, one after another, by any tenants, with the cache, the counters or
  -- the database failing at any call and any answers of the semantic cache, the tenant's token
  -- counter never reads above the limit at any time of that day, if it did not at the start. The
  -- rules do not change between the calls.
  pub serve-IsBelow :
      (steps : List Step) (w : World)
      → IsGuarded c tenant limit w
      → All OnDay steps
      → ((t : ℕ) → InDay start t → get_or_zero t w.quota (daily tenant tokens d) ≤ limit)
      → (t : ℕ) → InDay start t
      → get_or_zero t (serve c steps w).quota (daily tenant tokens d) ≤ limit
  unfolding serve
  serve-IsBelow [] w g on h = h
  serve-IsBelow (s ∷ steps) w g on h =
      serve-IsBelow steps (log_call c s.security s.draw s.log_id (arrive s w) s.request).0
        (log_call-IsGuarded s w g) on.1 (log_call-IsBelow s w on.0.0 on.0.1 g h)
