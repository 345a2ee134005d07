-- ===== src/Gateway/LogCall.antt =====
-- One call through the gateway (log_call and the helpers that it calls in
-- modules/gateway/services/gateway_service.py, _persist_log_async of modules/gateway/tasks.py).
-- Random values are arguments: the draw of an experiment and the identifier of the log row.
-- `none` is an exception; log_call catches every one of them. The event bus isolates the failures
-- of handlers, so to publish is to append to the list of events. Each id of a rule and of an
-- experiment is a number.
pub mod Outcome
pub mod Guard
pub mod Tables
pub mod DailyLimit
pub mod Sequence
use llm_dashboard.Base.{
  ℕ, ◌≡◌, Bool, true, false, ◌&&◌, ◌||◌, Option, none, some, List, [], ◌∷◌, ◌++◌, String,
  if◌then◌else◌, find, ◌==◌,
}
use llm_dashboard.Gateway.Rules.{
  GovernanceResult, allow, block, is_blocked, was_downgraded, truthy_text,
}
use llm_dashboard.Gateway.RuleStore.{Codec, Table}
use llm_dashboard.Gateway.Security.{Models, sanitize_request}
use llm_dashboard.Gateway.Governance.{evaluate_governance}
use llm_dashboard.Gateway.World.{
  World, CallRequest, CallResult, TokenLog, DecisionRow, Event, call_logged, usage_logged,
  call_blocked, usage_blocked, blocked_by, internal,
}
use llm_dashboard.Tracing.{Session, SessionCall, upsert_and_aggregate}
use llm_dashboard.Quota.{Metric, tokens, cost, increment_usage}

-- `_check_semantic_cache`: a hit answers the call.
unfoldable pub check_semantic_cache : World → CallRequest → Option CallResult
check_semantic_cache w r = elim (truthy_text r.prompt_text) [
  | none ↦ none
  | some prompt ↦ elim (w.semantic r.tenant_id r.model prompt) [
    | none ↦ none
    | some model ↦ some (record {
      success = true;
      decision = allow;
      model_used = model;
      log_id = none;
      error = none;
      was_downgraded = false;
    })
  ]
]

-- `_store_semantic_cache`
unfoldable pub store_semantic_cache : CallRequest → World → World
store_semantic_cache r w = elim (truthy_text r.prompt_text) [
  | none ↦ w
  | some prompt ↦ elim (truthy_text r.completion_text) [
    | none ↦ w
    | some completion ↦ record w { stored = (prompt, completion) ∷ w.stored }
  ]
]

-- `publish`
unfoldable pub publish : Event → World → World
publish e w = record w { events = w.events ++ e ∷ [] }

-- The foreign key of a decision's `rule_id` to the rules: there is none, or a rule has it.
unfoldable pub refers : Option ℕ → Table → Bool
refers none rules = true
refers (some i) rules = elim (find (λ x. x.id == i) rules) [ none ↦ false | some x ↦ true ]

-- `_record_blocked_decision` and the commit: they raise where the database fails, or the rule is none
-- of the table.
unfoldable pub record_blocked_decision : CallRequest → GovernanceResult → World → World × Bool
unfolding refers
record_blocked_decision r g w =
    if w.db_up && refers g.rule_id w.rules
    then (
      record w {
        decisions =
            record {
              tenant_id = r.tenant_id;
              model_requested = r.model;
              model_used = none;
              decision = block;
              reason = g.reason;
              rule_id = g.rule_id;
            }
            ∷ w.decisions;
      },
      true,
    )
    else (w, false)

-- The log row that is written for an allowed call.
unfoldable pub log_row : CallRequest → GovernanceResult → ℕ → ℕ → TokenLog
log_row r g log_id now = record {
  id = log_id;
  tenant_id = r.tenant_id;
  model = g.model_to_use;
  provider = r.provider;
  input_tokens = r.input_tokens;
  output_tokens = r.output_tokens;
  total_tokens = r.total_tokens;
  cost_usd = r.cost_usd;
  created_at = now;
}

-- What the session of a call is told of it.
unfoldable pub session_call : CallRequest → ℕ → String → SessionCall
session_call r log_id session = record {
  session_id = session;
  tenant_id = r.tenant_id;
  log_id = log_id;
  tokens = r.total_tokens;
  cost = r.cost_usd;
  duration = r.duration_ms;
  agent_id = r.agent_id;
  user_id = r.user_id;
}

-- A call with a session_id is counted into the session.
unfoldable pub trace_session : CallRequest → ℕ → World → List Session
unfolding session_call
trace_session r log_id w = elim (truthy_text r.session_id) [
  | none ↦ w.sessions
  | some s ↦ upsert_and_aggregate w.clock.now w.session_uuid (session_call r log_id s) w.sessions
]

-- `_persist_log_async`: the rows are one transaction; a failure is logged and swallowed. Where the
-- decision names what is no rule, as for an experiment, the foreign key rolls all of it back.
unfoldable pub persist_log : CallRequest → GovernanceResult → ℕ → World → World
unfolding log_row trace_session refers
persist_log r g log_id w =
    if w.db_up && refers g.rule_id w.rules
    then record w {
      sessions = trace_session r log_id w;
      logs = log_row r g log_id w.clock.now ∷ w.logs;
      decisions =
          record {
            tenant_id = r.tenant_id;
            model_requested = r.model;
            model_used = some g.model_to_use;
            decision = g.decision;
            reason = g.reason;
            rule_id = g.rule_id;
          }
          ∷ w.decisions;
    }
    else w

-- One counter update of `_update_usage_counters`; the result says whether it went through.
unfoldable pub count : Metric → String → ℕ → World → Option World
unfolding increment_usage
count m tenant n w = elim (increment_usage w.quota_up m w.clock tenant n w.quota) [
  | none ↦ none
  | some (quota', _, _) ↦ some (record w { quota = quota' })
]

-- `_update_usage_counters`: tokens, then cost; an exception stops it and is swallowed.
unfoldable pub update_usage_counters : CallRequest → World → World
unfolding count
update_usage_counters r w = elim (count tokens r.tenant_id r.total_tokens w) [
  | none ↦ w
  | some w' ↦ elim (count cost r.tenant_id r.cost_usd w') [ none ↦ w' | some w'' ↦ w'' ]
]

-- Step 2: a blocked call.
unfoldable pub finish_blocked : CallRequest → GovernanceResult → World → World × Option CallResult
unfolding record_blocked_decision publish
finish_blocked r g w =
    let (w', written) = record_blocked_decision r g w in
    if written
    then (
      publish (usage_blocked r.tenant_id r.model g.reason)
          (publish (call_blocked r.tenant_id r.model g.reason g.rule_id) w'),
      some (record {
        success = false;
        decision = g.decision;
        model_used = r.model;
        log_id = none;
        error = some (blocked_by g.reason);
        was_downgraded = false;
      }),
    )
    else (w', none)

-- Steps 3 to 9: a call that goes through.
unfoldable pub finish_allowed : CallRequest → GovernanceResult → ℕ → World → World × CallResult
unfolding persist_log update_usage_counters publish store_semantic_cache
finish_allowed r g log_id w =
    let logged = update_usage_counters r (persist_log r g log_id w) in
    let announced = publish (usage_logged log_id r.tenant_id g.model_to_use r.total_tokens) (
      publish
        (call_logged log_id r.tenant_id g.model_to_use r.total_tokens (was_downgraded g) g.rule_id)
        logged) in
    (
      store_semantic_cache r announced,
      record {
        success = true;
        decision = g.decision;
        model_used = g.model_to_use;
        log_id = some log_id;
        error = none;
        was_downgraded = was_downgraded g;
      },
    )

-- The `except` clause.
unfoldable pub internal_error : CallRequest → CallResult
internal_error r = record {
  success = false;
  decision = allow;
  model_used = r.model;
  log_id = none;
  error = some internal;
  was_downgraded = false;
}

-- The result of the `try` block, or that of the `except` clause.
unfoldable pub or_internal : CallRequest → World × Option CallResult → World × CallResult
unfolding internal_error
or_internal r (w, none) = (w, internal_error r)
or_internal r (w, some result) = (w, result)

-- What follows the evaluation.
unfoldable pub finish : CallRequest → ℕ → World × Option GovernanceResult → World × CallResult
unfolding finish_blocked finish_allowed internal_error or_internal
finish r log_id (w, none) = (w, internal_error r)
finish r log_id (w, some g) =
    if is_blocked g then or_internal r (finish_blocked r g w) else finish_allowed r g log_id w

-- The steps after the request has been sanitized.
unfoldable pub process : Codec → ℕ → ℕ → World → CallRequest → World × CallResult
unfolding check_semantic_cache finish
process c draw log_id w r = elim (check_semantic_cache w r) [
  | some hit ↦ (w, hit)
  | none ↦
      finish r log_id
        (evaluate_governance c draw w r.tenant_id r.model r.total_tokens r.prompt_name)
]

unfoldable pub log_call : Codec → Option Models → ℕ → ℕ → World → CallRequest → World × CallResult
unfolding process
log_call c security draw log_id w r = process c draw log_id w (sanitize_request security r)
