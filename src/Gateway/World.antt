-- ===== src/Gateway/World.antt =====
-- What the gateway service reads and writes: the tables and the two Redis databases that it
-- reaches, the events that it has published, and the answers of the code that it only calls
-- (modules/gateway/services/gateway_service.py, CallRequest and CallResult included).
use llm_dashboard.Base.{ℕ, Bool, Option, List, String}
use llm_dashboard.Gateway.Rules.{Decision, Reason}
use llm_dashboard.Gateway.RuleStore.{Table, RuleDict}
use llm_dashboard.Gateway.SmartRouter.{SmartRouter}
use llm_dashboard.Tracing.{Session}
use llm_dashboard.Quota.{Redis, Clock}

-- A row of the experiments; `traffic_split` and the random draw are in ten-thousandths.
pub record Experiment : Type 0 where
  pub id : ℕ
  pub name : String
  pub tenant_id : String
  pub prompt_name : String
  pub running : Bool
  pub traffic_split : ℕ
  pub variant_a_version : ℕ
  pub variant_b_version : ℕ

-- A value in the metadata of a request.
pub data Meta : Type 0 where
  text : String → Meta
  flag : Bool → Meta
  score : ℕ → Meta
  json : ℕ → Meta

-- `CallRequest`. The fields that the service only copies into the log row (site_id,
-- module, pricing_profile and the experiment's labels) are left out.
pub record CallRequest : Type 0 where
  pub tenant_id : String
  pub model : String
  pub provider : String
  pub input_tokens : ℕ
  pub output_tokens : ℕ
  pub total_tokens : ℕ
  pub cost_usd : ℕ
  pub error_message : Option String
  pub metadata : List (String × Meta)
  pub prompt_text : Option String
  pub completion_text : Option String
  pub prompt_name : Option String
  pub session_id : Option String
  pub agent_id : Option String
  pub user_id : Option String
  pub duration_ms : Option ℕ

-- The kinds of `error` text in a result.
pub data CallError : Type 0 where
  blocked_by : Reason → CallError
  internal : CallError

pub record CallResult : Type 0 where
  pub success : Bool
  pub decision : Decision
  pub model_used : String
  pub log_id : Option ℕ
  pub error : Option CallError
  pub was_downgraded : Bool

-- A row of llm_token_log.
pub record TokenLog : Type 0 where
  pub id : ℕ
  pub tenant_id : String
  pub model : String
  pub provider : String
  pub input_tokens : ℕ
  pub output_tokens : ℕ
  pub total_tokens : ℕ
  pub cost_usd : ℕ
  pub created_at : ℕ

-- A row of llm_governance_decisions.
pub record DecisionRow : Type 0 where
  pub tenant_id : String
  pub model_requested : String
  pub model_used : Option String
  pub decision : Decision
  pub reason : Reason
  pub rule_id : Option ℕ

pub data Event : Type 0 where
  call_logged : ℕ → String → String → ℕ → Bool → Option ℕ → Event
  usage_logged : ℕ → String → String → ℕ → Event
  call_blocked : String → String → Reason → Option ℕ → Event
  usage_blocked : String → String → Reason → Event
  usage_fallback : String → String → String → String → String → ℕ → Event

-- What the rule cache holds for a tenant (its key is "rules:" and the tenant), with its expiry.
pub record CacheEntry : Type 0 where
  pub rules : List RuleDict
  pub expires_at : ℕ

-- `cache_up`, `quota_up` and `db_up` say whether the cache, the counters and the database answer.
-- `semantic` is the answer of the semantic cache: the model of a stored response.
-- `stored` lists the prompts that were handed to it. `session_uuid` is what uuid4 gives for a session.
pub record World : Type 0 where
  pub rules : Table
  pub experiments : List Experiment
  pub rule_cache : String → Option CacheEntry
  pub rule_cache_ttl : ℕ
  pub quota : Redis
  pub clock : Clock
  pub router : SmartRouter
  pub semantic : String → String → String → Option String
  pub stored : List (String × String)
  pub logs : List TokenLog
  pub decisions : List DecisionRow
  pub events : List Event
  pub sessions : List Session
  pub session_uuid : String
  pub cache_up : Bool
  pub quota_up : Bool
  pub db_up : Bool
