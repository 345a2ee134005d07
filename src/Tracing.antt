-- ===== src/Tracing.antt =====
-- Sessions, which group the calls of one client (modules/tracing/repositories/session_repository.py
-- and SessionService of modules/tracing/service.py). The table has one row for a session_id; costs
-- are whole numbers of a fixed fraction of a dollar. Left out: the metadata and the tags.
pub mod Totals
pub mod Experiments
use llm_dashboard.Base.{
  ℕ, ◌+◌, ◌-◌, leb, if◌then◌else◌, Bool, Option, none, some, List, [], ◌∷◌, ◌++◌, String, str_eq,
  filter, find, update_where, sort_desc,
}

pub data SessionStatus : Type 0 where
  active : SessionStatus
  completed : SessionStatus
  failed : SessionStatus
  timeout : SessionStatus

pub record Session : Type 0 where
  pub id : String
  pub session_id : String
  pub tenant_id : String
  pub user_id : Option String
  pub agent_id : Option String
  pub name : Option String
  pub total_calls : ℕ
  pub total_tokens : ℕ
  pub total_input_tokens : ℕ
  pub total_output_tokens : ℕ
  pub total_cost_usd : ℕ
  pub total_duration_ms : ℕ
  pub status : SessionStatus
  pub started_at : ℕ
  pub ended_at : Option ℕ
  pub call_chain : List ℕ

-- The arguments of `upsert_and_aggregate`.
pub record SessionCall : Type 0 where
  pub session_id : String
  pub tenant_id : String
  pub log_id : ℕ
  pub tokens : ℕ
  pub cost : ℕ
  pub duration : Option ℕ
  pub agent_id : Option String
  pub user_id : Option String

unfoldable pub is_session : String → Session → Bool
is_session s r = str_eq r.session_id s

unfoldable pub get_by_session_id : String → List Session → Option Session
unfolding is_session
get_by_session_id s rows = find (is_session s) rows

-- `duration or 0`
unfoldable pub duration_of : Option ℕ → ℕ
duration_of none = 0
duration_of (some d) = d

unfoldable pub first_row : ℕ → String → SessionCall → Session
unfolding duration_of
first_row now uid c = record {
  id = uid;
  session_id = c.session_id;
  tenant_id = c.tenant_id;
  user_id = c.user_id;
  agent_id = c.agent_id;
  name = none;
  total_calls = 1;
  total_tokens = c.tokens;
  total_input_tokens = 0;
  total_output_tokens = 0;
  total_cost_usd = c.cost;
  total_duration_ms = duration_of c.duration;
  status = active;
  started_at = now;
  ended_at = none;
  call_chain = c.log_id ∷ [];
}

-- The assignments of `on_conflict_do_update`.
unfoldable pub aggregate : SessionCall → Session → Session
unfolding duration_of
aggregate c r = record r {
  total_calls = r.total_calls + 1;
  total_tokens = r.total_tokens + c.tokens;
  total_cost_usd = r.total_cost_usd + c.cost;
  total_duration_ms = r.total_duration_ms + duration_of c.duration;
  call_chain = r.call_chain ++ c.log_id ∷ [];
}

unfoldable pub upsert_and_aggregate : ℕ → String → SessionCall → List Session → List Session
unfolding get_by_session_id is_session first_row aggregate
upsert_and_aggregate now uid c rows = elim (get_by_session_id c.session_id rows) [
  | none ↦ first_row now uid c ∷ rows
  | some r ↦ update_where (is_session c.session_id) (aggregate c) rows
]

-- A session without calls, as `get_or_create_session` makes it.
pub record SessionRequest : Type 0 where
  pub session_id : String
  pub tenant_id : String
  pub user_id : Option String
  pub agent_id : Option String
  pub name : Option String

unfoldable pub new_session : ℕ → String → SessionRequest → Session
new_session now uid q = record {
  id = uid;
  session_id = q.session_id;
  tenant_id = q.tenant_id;
  user_id = q.user_id;
  agent_id = q.agent_id;
  name = q.name;
  total_calls = 0;
  total_tokens = 0;
  total_input_tokens = 0;
  total_output_tokens = 0;
  total_cost_usd = 0;
  total_duration_ms = 0;
  status = active;
  started_at = now;
  ended_at = none;
  call_chain = [];
}

unfoldable pub get_or_create_session :
    ℕ → String → SessionRequest → List Session → List Session × Session
unfolding get_by_session_id new_session
get_or_create_session now uid q rows = elim (get_by_session_id q.session_id rows) [
  | none ↦ (new_session now uid q ∷ rows, new_session now uid q)
  | some r ↦ (rows, r)
]

unfoldable pub end_session : ℕ → SessionStatus → Session → Session
end_session now s r = record r { status = s; ended_at = some now }

-- `none` where there is no such session.
unfoldable pub complete_session :
    ℕ → String → SessionStatus → List Session → List Session × Option Session
unfolding get_by_session_id end_session is_session
complete_session now s status rows = elim (get_by_session_id s rows) [
  | none ↦ (rows, none)
  | some r ↦
      (update_where (is_session s) (end_session now status) rows, some (end_session now status r))
]

-- A query's `LIMIT`.
unfoldable pub limit_rows : ℕ → List Session → List Session
limit_rows n [] = []
limit_rows n (r ∷ rows) = let rest = limit_rows (n - 1) rows in if leb 1 n then r ∷ rest else []

unfoldable pub of_tenant : String → Session → Bool
of_tenant t r = str_eq r.tenant_id t

unfoldable pub list_recent : String → ℕ → List Session → List Session
unfolding of_tenant limit_rows
list_recent tenant limit rows =
    limit_rows limit (sort_desc (λ r. r.started_at) (filter (of_tenant tenant) rows))
