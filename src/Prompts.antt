-- ===== src/Prompts.antt =====
-- Versioned prompt templates (modules/prompts/models.py, repository.py and service.py). The slug
-- of a name and the names that the pattern of `_extract_variables` finds in a text are parameters
-- (regular expressions); temperatures are whole numbers of a smallest unit. A new row stands first
-- in the table. The columns tenant_id, name and version are unique together.
pub mod View
pub mod Publishing
pub mod Refines
pub mod Render
use llm_dashboard.Base.{
  ℕ, suc, ◌+◌, ◌==◌, Bool, true, false, ◌&&◌, not, Option, none, some, List, [], ◌∷◌, String,
  str_eq, if◌then◌else◌, find, filter, update_where, map, leb, sort_desc,
}

pub data PromptStatus : Type 0 where
  draft published archived : PromptStatus

pub record Variable : Type 0 where
  pub name : String
  pub required : Bool
  pub default : Option String

-- A commit message: given, or formatted with a version.
pub data Summary : Type 0 where
  given : String → Summary
  initial_version : Summary
  version_of updated_from : ℕ → Summary

pub record Template : Type 0 where
  pub id : String
  pub tenant_id : String
  pub name : String
  pub slug : String
  pub version : ℕ
  pub content : String
  pub system_message : Option String
  pub description : Option String
  pub variables : Option (List Variable)
  pub model : Option String
  pub max_tokens : Option ℕ
  pub temperature : Option ℕ
  pub tags : Option (List String)
  pub status : PromptStatus
  pub is_published : Bool
  pub published_at : Option ℕ
  pub published_by : Option String
  pub created_by : String
  pub parent_version_id : Option String
  pub change_summary : Summary
  pub usage_count : ℕ

abbrev pub Templates : Type 0
Templates = List Template

-- The parameters: `_slugify`, the matches of the pattern, the time and a new uuid.
pub record Server : Type 0 where
  pub slugify : String → String
  pub findall : String → List String
  pub now : ℕ
  pub new_id : String

-- The condition on tenant and name of the queries.
unfoldable pub is_of : String → String → Template → Bool
is_of tenant name x = str_eq x.tenant_id tenant && str_eq x.name name

unfoldable pub is_version : String → String → ℕ → Template → Bool
unfolding is_of
is_version tenant name v x = is_of tenant name x && x.version == v

unfoldable pub has_template_id : String → Template → Bool
has_template_id i x = str_eq x.id i

unfoldable pub get_template : String → Templates → Option Template
unfolding has_template_id
get_template i xs = find (has_template_id i) xs

unfoldable pub is_published_of : String → String → Template → Bool
unfolding is_of
is_published_of tenant name x = is_of tenant name x && x.is_published

unfoldable pub get_published : String → String → Templates → Option Template
unfolding is_published_of
get_published tenant name xs = find (is_published_of tenant name) xs

unfoldable pub get_version : String → String → ℕ → Templates → Option Template
unfolding is_version
get_version tenant name v xs = find (is_version tenant name v) xs

-- `coalesce(max(version), 0)`
unfoldable pub max_version : Templates → ℕ
max_version [] = 0
max_version (x ∷ xs) = let rest = max_version xs in if leb x.version rest then rest else x.version

unfoldable pub get_latest_version_number : String → String → Templates → ℕ
unfolding is_of max_version
get_latest_version_number tenant name xs = max_version (filter (is_of tenant name) xs)

unfoldable pub list_versions : String → String → Templates → List Template
unfolding is_of
list_versions tenant name xs = sort_desc (λ x. x.version) (filter (is_of tenant name) xs)

unfoldable pub archive : Template → Template
archive x = record x { is_published = false; status = archived }

unfoldable pub publish_row : ℕ → String → Template → Template
publish_row now user x = record x {
  is_published = true;
  status = published;
  published_at = some now;
  published_by = some user;
}

-- All versions are archived before the target is looked for.
unfoldable pub update_published_status :
    ℕ → String → String → ℕ → String → Templates → Templates × Option Template
unfolding is_of is_version archive publish_row
update_published_status now tenant name v user xs =
    let unpublished = update_where (is_of tenant name) archive xs in
    elim (find (is_version tenant name v) unpublished) [
      | none ↦ (unpublished, none)
      | some x ↦ (
        update_where (is_version tenant name v) (publish_row now user) unpublished,
        some (publish_row now user x),
      )
    ]

unfoldable pub increment_usage : String → Templates → Templates
unfolding has_template_id
increment_usage i =
    update_where (has_template_id i) (λ x. record x { usage_count = x.usage_count + 1 })

unfoldable pub was_seen : String → List String → Bool
was_seen s [] = false
was_seen s (x ∷ xs) = let rest = was_seen s xs in if str_eq s x then true else rest

-- The loop of `_extract_variables` over the matches, with the names seen so far.
unfoldable pub first_seen : List String → List String → List String
unfolding was_seen
first_seen seen [] = []
first_seen seen (n ∷ ns) =
    let fresh = n ∷ first_seen (n ∷ seen) ns in
    let rest = first_seen seen ns in if was_seen n seen then rest else fresh

unfoldable pub extract_variables : Server → String → List String
unfolding first_seen
extract_variables s content = first_seen [] (s.findall content)

unfoldable pub detected : List String → Option (List Variable)
detected [] = none
detected (n ∷ ns) = some (map (λ m. record { name = m; required = true; default = none }) (n ∷ ns))

-- The variables of a request, or those that the text shows.
unfoldable pub variables_of : Server → List Variable → String → Option (List Variable)
unfolding detected extract_variables
variables_of s [] content = detected (extract_variables s content)
variables_of s (v ∷ vs) content = some (v ∷ vs)

-- An absent list of variables and an empty one are the same to the code.
pub record PromptRequest : Type 0 where
  pub content : String
  pub system_message : Option String
  pub description : Option String
  pub variables : List Variable
  pub model : Option String
  pub max_tokens : Option ℕ
  pub temperature : Option ℕ
  pub tags : Option (List String)
  pub change_summary : Option String

unfoldable pub given_or : Option String → Summary → Summary
given_or none d = d
given_or (some s) d = if str_eq s "" then d else given s

-- `a or b if version == 1 else c` is read as `(a or b) if version == 1 else c`.
unfoldable pub create_summary : ℕ → Option String → Summary
unfolding given_or
create_summary version s = if version == 1 then given_or s initial_version else version_of version

unfoldable pub new_template : Server → PromptRequest → String → String → String → ℕ → Template
unfolding variables_of create_summary
new_template s r name tenant user version = record {
  id = s.new_id;
  tenant_id = tenant;
  name = name;
  slug = s.slugify name;
  version = version;
  content = r.content;
  system_message = r.system_message;
  description = r.description;
  variables = variables_of s r.variables r.content;
  model = r.model;
  max_tokens = r.max_tokens;
  temperature = r.temperature;
  tags = r.tags;
  status = draft;
  is_published = false;
  published_at = none;
  published_by = none;
  created_by = user;
  parent_version_id = none;
  change_summary = create_summary version r.change_summary;
  usage_count = 0;
}

unfoldable pub create_prompt :
    Server → PromptRequest → String → String → String → Templates → Templates × Template
unfolding get_latest_version_number new_template publish_row
create_prompt s r name tenant user xs =
    let version = get_latest_version_number tenant name xs + 1 in
    let row = new_template s r name tenant user version in
    let saved = if version == 1 then publish_row s.now user row else row in (saved ∷ xs, saved)

-- `x if x is not None else y`
unfoldable pub or_else : {A : Type 0} → Option A → Option A → Option A
or_else none d = d
or_else (some a) d = some a

unfoldable pub next_template : Server → PromptRequest → Template → String → ℕ → Template
unfolding variables_of or_else given_or
next_template s r source user version = record {
  id = s.new_id;
  tenant_id = source.tenant_id;
  name = source.name;
  slug = source.slug;
  version = version;
  content = r.content;
  system_message = or_else r.system_message source.system_message;
  description = or_else r.description source.description;
  variables = or_else (variables_of s r.variables r.content) source.variables;
  model = or_else r.model source.model;
  max_tokens = or_else r.max_tokens source.max_tokens;
  temperature = or_else r.temperature source.temperature;
  tags = or_else r.tags source.tags;
  status = draft;
  is_published = false;
  published_at = none;
  published_by = none;
  created_by = user;
  parent_version_id = some source.id;
  change_summary = given_or r.change_summary (updated_from source.version);
  usage_count = 0;
}

unfoldable pub update_prompt :
    Server → String → PromptRequest → String → Templates → Templates × Option Template
unfolding get_template get_latest_version_number next_template
update_prompt s i r user xs = elim (get_template i xs) [
  | none ↦ (xs, none)
  | some source ↦
      let version = get_latest_version_number source.tenant_id source.name xs + 1 in
      let row = next_template s r source user version in (row ∷ xs, some row)
]

unfoldable pub publish : ℕ → String → String → Templates → Templates × Option Template
unfolding get_template update_published_status
publish now i user xs = elim (get_template i xs) [
  | none ↦ (xs, none)
  | some x ↦ update_published_status now x.tenant_id x.name x.version user xs
]

-- What was changed is committed, also where no version is found.
unfoldable pub rollback : ℕ → String → String → ℕ → String → Templates → Templates × Option Template
unfolding update_published_status
rollback now tenant name target_version user xs =
    update_published_status now tenant name target_version user xs

unfoldable pub get_prompt : String → String → Option ℕ → Templates → Option Template
unfolding get_version get_published
get_prompt tenant name none xs = get_published tenant name xs
get_prompt tenant name (some v) xs = get_version tenant name v xs
