-- ===== src/Gateway/LogCall/Outcome.antt =====
-- How a call ends, and what it leaves in the log and in the counters.
use mathlib.Core.List.{append_assoc}
use llm_dashboard.Base.{
  ◌&&◌, ◌++◌, [], ℕ, ◌≡◌, ◌≢◌, refl, ◌∙◌, Bool, true, false, Option, none, some, ◌∷◌, String, arith,
  Option-cases, Bool-cases, inl, inr, if◌then◌else◌,
}
use llm_dashboard.Gateway.Rules.{GovernanceResult, is_blocked, was_downgraded}
use llm_dashboard.Gateway.RuleStore.{Codec}
use llm_dashboard.Gateway.Security.{Models, sanitize_request}
use llm_dashboard.Gateway.World.{
  World, CallRequest, CallResult, TokenLog, usage_logged, call_logged,
}
use llm_dashboard.Gateway.Governance.{evaluate_governance, load_rules, set_cached_rule}
use llm_dashboard.Gateway.LogCall.{
  check_semantic_cache, finish, finish_blocked, finish_allowed, process, log_call, log_row, refers,
  persist_log, update_usage_counters, store_semantic_cache, record_blocked_decision, count, publish,
  or_internal, internal_error,
}
use llm_dashboard.Quota.{Redis, tokens, cost, increment, increment_usage, Clock}

-- Both counters of the call's tenant go up.
abbrev pub counted : Clock → CallRequest → Redis → Redis
counted c r q =
    increment cost c r.tenant_id r.cost_usd (increment tokens c r.tenant_id r.total_tokens q)

-- The counters after a call that goes through, while Redis is up or down.
abbrev pub counted_if : Bool → Clock → CallRequest → Redis → Redis
counted_if up c r q = if up then counted c r q else q

counted_if_cong :
    {up up' : Bool} {c c' : Clock} (r : CallRequest) {q q' : Redis}
    → up ≡ up'
    → c ≡ c'
    → q ≡ q'
    → counted_if up c r q ≡ counted_if up' c' r q'
counted_if_cong r e f h = cc

-- The parts of the world that an evaluation leaves alone.
pub record KeepsBooks (w w' : World) : Type 0 where
  pub logs : w'.logs ≡ w.logs
  pub decisions : w'.decisions ≡ w.decisions
  pub events : w'.events ≡ w.events
  pub quota : w'.quota ≡ w.quota
  pub clock : w'.clock ≡ w.clock
  pub rules : w'.rules ≡ w.rules
  pub experiments : w'.experiments ≡ w.experiments
  pub quota_up : w'.quota_up ≡ w.quota_up
  pub db_up : w'.db_up ≡ w.db_up

pub load_rules-KeepsBooks :
    (c : Codec) (w : World) (tenant : String) → KeepsBooks w (load_rules c w tenant).0
unfolding load_rules set_cached_rule
load_rules-KeepsBooks c w tenant = ground arith

pub evaluate_governance-KeepsBooks :
    (c : Codec) (draw : ℕ) (w : World) (tenant model : String) (n : ℕ) (prompt : Option String)
    → KeepsBooks w (evaluate_governance c draw w tenant model n prompt).0
unfolding evaluate_governance
evaluate_governance-KeepsBooks c draw w tenant model n prompt =
    ground (arith, load_rules-KeepsBooks c w tenant)

-- The log row tells what the call was and which model was used.
pub record RecordsCall (row : TokenLog) (r : CallRequest) (log_id : ℕ) (res : CallResult)
    : Type 0 where
  pub id : row.id ≡ log_id
  pub tenant : row.tenant_id ≡ r.tenant_id
  pub model : row.model ≡ res.model_used
  pub tokens : row.total_tokens ≡ r.total_tokens
  pub cost : row.cost_usd ≡ r.cost_usd

-- The books after a call, by how it ended.
pub data Outcome (w w' : World) (r : CallRequest) (log_id : ℕ) (res : CallResult) : Type 0 where
  served_from_cache : res.success ≡ true → res.log_id ≡ none → w' ≡ w → Outcome w w' r log_id res
  carried_out :
      (row : TokenLog) (rule : Option ℕ)
      → res.success ≡ true
      → res.log_id ≡ some log_id
      → RecordsCall row r log_id res
      → w'.events
        ≡ w.events
          ++ call_logged log_id r.tenant_id res.model_used r.total_tokens res.was_downgraded rule
            ∷ usage_logged log_id r.tenant_id res.model_used r.total_tokens
            ∷ []
      → w'.logs ≡ (if w.db_up && refers rule w.rules then row ∷ w.logs else w.logs)
      → w'.quota ≡ counted_if w.quota_up w.clock r w.quota
      → Outcome w w' r log_id res
  refused :
      res.success ≡ false
      → res.log_id ≡ none
      → w'.logs ≡ w.logs
      → w'.quota ≡ w.quota
      → Outcome w w' r log_id res

store_semantic_cache-KeepsBooks :
    (r : CallRequest) (w : World) → KeepsBooks w (store_semantic_cache r w)
unfolding store_semantic_cache
store_semantic_cache-KeepsBooks r w = ground arith

update_usage_counters-logs :
    (r : CallRequest) (w : World) → (update_usage_counters r w).logs ≡ w.logs
unfolding update_usage_counters count
update_usage_counters-logs r w = ground arith

update_usage_counters-quota :
    (r : CallRequest) (w : World)
    → (update_usage_counters r w).quota ≡ counted_if w.quota_up w.clock r w.quota
unfolding update_usage_counters count increment_usage
update_usage_counters-quota r w = ground arith

persist_log-keeps :
    (r : CallRequest) (g : GovernanceResult) (id : ℕ) (w : World)
    → ((persist_log r g id w).quota ≡ w.quota)
      × ((persist_log r g id w).quota_up ≡ w.quota_up)
      × ((persist_log r g id w).clock ≡ w.clock)
unfolding persist_log
persist_log-keeps r g id w = ground arith

persist_log-logs :
    (r : CallRequest) (g : GovernanceResult) (id : ℕ) (w : World)
    → (persist_log r g id w).logs ≡ (
        if w.db_up && refers g.rule_id w.rules then log_row r g id w.clock.now ∷ w.logs else w.logs)
unfolding persist_log
persist_log-logs r g id w = ground arith

-- The events and the stored prompt change neither the log nor the counters.
finish_allowed-books :
    (r : CallRequest) (g : GovernanceResult) (id : ℕ) (w : World)
    → let counters = update_usage_counters r (persist_log r g id w) in
      ((finish_allowed r g id w).0.logs ≡ counters.logs)
      × ((finish_allowed r g id w).0.quota ≡ counters.quota)
      × ((finish_allowed r g id w).0.events
          ≡ (counters.events
              ++ call_logged id r.tenant_id g.model_to_use r.total_tokens
                  (was_downgraded g)
                  g.rule_id
                ∷ [])
            ++ usage_logged id r.tenant_id g.model_to_use r.total_tokens ∷ [])
unfolding finish_allowed publish
finish_allowed-books r g id w =
    let counters = update_usage_counters r (persist_log r g id w) in
    let k = store_semantic_cache-KeepsBooks r (
      publish (usage_logged id r.tenant_id g.model_to_use r.total_tokens) (
        publish
          (call_logged id r.tenant_id g.model_to_use r.total_tokens (was_downgraded g) g.rule_id)
          counters)) in
    (k.logs, k.quota, k.events)

books-events :
    (r : CallRequest) (g : GovernanceResult) (id : ℕ) (w : World)
    → (update_usage_counters r (persist_log r g id w)).events ≡ w.events
unfolding update_usage_counters count persist_log
books-events r g id w = ground arith

finish_allowed-Outcome :
    (r : CallRequest) (g : GovernanceResult) (id : ℕ) (w : World)
    → Outcome w (finish_allowed r g id w).0 r id (finish_allowed r g id w).1
unfolding finish_allowed log_row
finish_allowed-Outcome r g id w =
    let (ls, q, es) = finish_allowed-books r g id w in
    let p = persist_log r g id w in
    let (pq, pu, pc) = persist_log-keeps r g id w in
    carried_out (log_row r g id w.clock.now) g.rule_id refl refl
      (record { id = refl; tenant = refl; model = refl; tokens = refl; cost = refl })
      (rw (es, books-events r g id w) (append_assoc w.events _ _))
      (ls ∙ update_usage_counters-logs r p ∙ persist_log-logs r g id w)
      (q ∙ update_usage_counters-quota r p ∙ counted_if_cong r pu pc pq)

finish_blocked-Outcome :
    (r : CallRequest) (g : GovernanceResult) (id : ℕ) (w : World)
    → Outcome w
        (or_internal r (finish_blocked r g w)).0
        r
        id
        (or_internal r (finish_blocked r g w)).1
unfolding finish_blocked or_internal internal_error record_blocked_decision
finish_blocked-Outcome r g id w =
    refused (ground arith) (ground arith) (ground arith) (ground arith)

-- What holds from a world on holds from one with the same books, unless the cache answered.
from_same_books :
    {w v w' : World} {r : CallRequest} {id : ℕ} {res : CallResult}
    → KeepsBooks w v
    → (res.success ≡ true → res.log_id ≢ none)
    → Outcome v w' r id res
    → Outcome w w' r id res
from_same_books k other (served_from_cache s i e) = absurd (other s i)
from_same_books {r = r} k other (carried_out row rule s i told es l q) =
    carried_out row rule s i told (es ∙ rw (k.events) refl) (l ∙ rw (k.db_up, k.logs, k.rules) refl)
      (q ∙ counted_if_cong r k.quota_up k.clock k.quota)
from_same_books k other (refused s i l q) = refused s i (l ∙ k.logs) (q ∙ k.quota)

finish_blocked_fails :
    (r : CallRequest) (g : GovernanceResult) (w : World)
    → (or_internal r (finish_blocked r g w)).1.success ≡ false
unfolding finish_blocked or_internal internal_error record_blocked_decision
finish_blocked_fails r g w = ground arith

finish-Outcome :
    (w v : World) (r : CallRequest) (id : ℕ) (o : Option GovernanceResult)
    → KeepsBooks w v
    → Outcome w (finish r id (v, o)).0 r id (finish r id (v, o)).1
unfolding finish internal_error
finish-Outcome w v r id none k = refused refl refl k.logs k.quota
finish-Outcome w v r id (some g) k = elim (Bool-cases (is_blocked g)) [
  | inl b ↦ rw b (
      from_same_books k (λ s. absurd (let f = finish_blocked_fails r g v in cc))
        (finish_blocked-Outcome r g id v))
  | inr a ↦ rw a (from_same_books k (λ s i. cc) (finish_allowed-Outcome r g id v))
]

check_semantic_cache_hit :
    (w : World) (r : CallRequest) {hit : CallResult}
    → check_semantic_cache w r ≡ some hit
    → (hit.success ≡ true) × (hit.log_id ≡ none)
unfolding check_semantic_cache
check_semantic_cache_hit w r e = ground arith

process-Outcome :
    (c : Codec) (draw id : ℕ) (w : World) (r : CallRequest)
    → Outcome w (process c draw id w r).0 r id (process c draw id w r).1
unfolding process
process-Outcome c draw id w r = elim (Option-cases (check_semantic_cache w r)) [
  | inl miss ↦
      let e = evaluate_governance c draw w r.tenant_id r.model r.total_tokens r.prompt_name in
      rw (miss, process)
        (finish-Outcome w e.0 r id e.1 (
          evaluate_governance-KeepsBooks c draw w r.tenant_id r.model r.total_tokens r.prompt_name))
  | inr (hit, e) ↦
      let (s, i) = check_semantic_cache_hit w r e in rw (e, process) (served_from_cache s i refl)
]

pub log_call-Outcome :
    (c : Codec) (security : Option Models) (draw id : ℕ) (w : World) (r : CallRequest)
    → Outcome w (log_call c security draw id w r).0 r id (log_call c security draw id w r).1
unfolding log_call sanitize_request
log_call-Outcome c none draw id w r = process-Outcome c draw id w r
log_call-Outcome c (some m) draw id w r =
    elim (process-Outcome c draw id w (sanitize_request (some m) r)) [
      | served_from_cache s i e ↦ served_from_cache s i e
      | carried_out row rule s i told es l q ↦
          carried_out row rule s i
            (record {
              id = told.id;
              tenant = told.tenant;
              model = told.model;
              tokens = told.tokens;
              cost = told.cost;
            })
            es l q
      | refused s i l q ↦ refused s i l q
    ]
