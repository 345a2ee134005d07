-- ===== src/Gateway/RuleStore.antt =====
-- The table of governance rules and its two readers: the repository
-- (modules/gateway/repositories/rule_repository.py), the administration service
-- (modules/gateway/services/governance_service.py) and the form that the rule cache keeps
-- (_rule_to_dict and _dict_to_rule_proxy of modules/gateway/services/gateway_service.py).
-- The table is a list of rows; times are seconds. A transaction that commits is one call here.
pub mod Selection
pub mod RoundTrip
use llm_dashboard.Base.{
  ℕ, ◌==◌, ◌≡◌, Bool, true, false, ◌&&◌, ◌||◌, Option, none, some, List, [], ◌∷◌, map, String,
  str_eq, leb, if◌then◌else◌, find, filter, update_where, sort_desc,
}
use llm_dashboard.Gateway.Rules.{RuleType, RuleProxy, truthy, truthy_text}

-- A row of llm_governance_rules; `id` stands for the UUID. The texts `description` and
-- `created_by` are left out.
pub record Rule : Type 0 where
  pub id : ℕ
  pub rule_type : RuleType
  pub tenant_id : Option String
  pub model_name : Option String
  pub daily_token_limit : Option ℕ
  pub monthly_token_limit : Option ℕ
  pub monthly_budget_usd : Option ℕ
  pub max_tokens_per_request : Option ℕ
  pub priority : ℕ
  pub is_active : Bool
  pub downgrade_to_model : Option String
  pub effective_from : Option ℕ
  pub effective_until : Option ℕ
  pub created_at : ℕ
  pub updated_at : ℕ

abbrev pub Table : Type 0
Table = List Rule

-- `session.add(rule)`
unfoldable pub create : Rule → Table → Table
create rule t = rule ∷ t

unfoldable pub get_by_id : ℕ → Table → Option Rule
get_by_id rule_id t = find (λ r. r.id == rule_id) t

-- `deactivate`: the UPDATE statement, and whether it returned a row.
unfoldable pub deactivate : ℕ → ℕ → Table → Table × Bool
unfolding get_by_id
deactivate now rule_id t = (
  update_where (λ r. r.id == rule_id) (λ r. record r { is_active = false; updated_at = now }) t,
  elim (get_by_id rule_id t) [ none ↦ false | some _ ↦ true ],
)

-- `update_rule` of the service: `updates` sets the given fields of the row that was found.
unfoldable pub update_rule : ℕ → ℕ → (Rule → Rule) → Table → Table × Option Rule
unfolding get_by_id
update_rule now rule_id updates t = elim (get_by_id rule_id t) [
  | none ↦ (t, none)
  | some rule ↦
      let rule' = updates rule in
      let saved = record rule' { updated_at = now } in
      (update_where (λ r. r.id == rule_id) (λ r. saved) t, some saved)
]

-- `deactivate_rule` of the service
unfoldable pub deactivate_rule : ℕ → ℕ → Table → Table × Option Rule
unfolding update_rule
deactivate_rule now rule_id t = update_rule now rule_id (λ r. record r { is_active = false }) t

-- The column is NULL, or holds this tenant.
unfoldable pub for_tenant : String → Rule → Bool
for_tenant tenant r = elim (r.tenant_id) [ none ↦ true | some t ↦ str_eq t tenant ]

-- The two conditions on the effective dates.
unfoldable pub in_effect : ℕ → Rule → Bool
in_effect now r =
    elim (r.effective_from) [ none ↦ true | some t ↦ leb t now ]
    && elim (r.effective_until) [ none ↦ true | some t ↦ leb now t ]

unfoldable pub get_active_rules_for_tenant : ℕ → String → Table → List Rule
unfolding for_tenant in_effect
get_active_rules_for_tenant now tenant t =
    sort_desc (λ r. r.priority)
      (filter (λ r. for_tenant tenant r && (r.is_active && in_effect now r)) t)

unfoldable pub get_all_active : ℕ → Table → List Rule
unfolding in_effect
get_all_active now t = sort_desc (λ r. r.priority) (filter (λ r. r.is_active && in_effect now r) t)

-- How a UUID and a Decimal are written and read: `str`, `uuid.UUID` and `Decimal`. A reader
-- fails on a malformed text.
pub record Codec : Type 0 where
  pub show_uuid : ℕ → String
  pub read_uuid : String → Option ℕ
  pub show_decimal : ℕ → String
  pub read_decimal : String → Option ℕ

-- What the gateway relies on: what was written is read back, and no written text is empty.
pub record IsFaithful (c : Codec) : Type 0 where
  pub uuid : (n : ℕ) → c.read_uuid (c.show_uuid n) ≡ some n
  pub uuid_nonempty : (n : ℕ) → str_eq (c.show_uuid n) "" ≡ false
  pub decimal : (n : ℕ) → c.read_decimal (c.show_decimal n) ≡ some n
  pub decimal_nonempty : (n : ℕ) → str_eq (c.show_decimal n) "" ≡ false

-- The dict in the cache.
pub record RuleDict : Type 0 where
  pub id : Option String
  pub rule_type : RuleType
  pub tenant_id : Option String
  pub model_name : Option String
  pub daily_token_limit : Option ℕ
  pub monthly_token_limit : Option ℕ
  pub monthly_budget_usd : Option String
  pub max_tokens_per_request : Option ℕ
  pub priority : ℕ
  pub is_active : Bool
  pub downgrade_to_model : Option String

-- A missing or empty text stays missing; another is read, or the call fails.
unfoldable pub read_optional : (String → Option ℕ) → Option String → Option (Option ℕ)
read_optional read o = elim (truthy_text o) [
  | none ↦ some none
  | some s ↦ elim (read s) [ none ↦ none | some n ↦ some (some n) ]
]

module _ (c : Codec) where
  unfoldable pub rule_to_dict : Rule → RuleDict
  rule_to_dict r = record {
    id = some (c.show_uuid r.id);
    rule_type = r.rule_type;
    tenant_id = r.tenant_id;
    model_name = r.model_name;
    daily_token_limit = r.daily_token_limit;
    monthly_token_limit = r.monthly_token_limit;
    monthly_budget_usd = elim (truthy r.monthly_budget_usd) [
      | none ↦ none
      | some n ↦ some (c.show_decimal n)
    ];
    max_tokens_per_request = r.max_tokens_per_request;
    priority = r.priority;
    is_active = r.is_active;
    downgrade_to_model = r.downgrade_to_model;
  }

  -- `none` is the exception of a malformed identifier or amount.
  unfoldable pub dict_to_rule_proxy : RuleDict → Option RuleProxy
  unfolding read_optional
  dict_to_rule_proxy d = elim (read_optional c.read_uuid d.id) [
    | none ↦ none
    | some uuid ↦ elim (read_optional c.read_decimal d.monthly_budget_usd) [
      | none ↦ none
      | some budget ↦ some (record {
        id = uuid;
        rule_type = d.rule_type;
        tenant_id = d.tenant_id;
        model_name = d.model_name;
        daily_token_limit = d.daily_token_limit;
        monthly_token_limit = d.monthly_token_limit;
        monthly_budget_usd = budget;
        max_tokens_per_request = d.max_tokens_per_request;
        priority = d.priority;
        downgrade_to_model = d.downgrade_to_model;
      })
    ]
  ]

  -- The list comprehension over the cached dicts: it fails if one element does.
  unfoldable pub proxies : List RuleDict → Option (List RuleProxy)
  unfolding dict_to_rule_proxy
  proxies [] = some []
  proxies (d ∷ ds) = elim (dict_to_rule_proxy d) [
    | none ↦ none
    | some p ↦ elim (proxies ds) [ none ↦ none | some ps ↦ some (p ∷ ps) ]
  ]
