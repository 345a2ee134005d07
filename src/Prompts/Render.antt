-- ===== src/Prompts/Render.antt =====
-- Rendering a prompt (`render` of modules/prompts/models.py and of modules/prompts/service.py).
-- The values of the variables are texts already; `None` given for a variable is `some none`.
pub mod Outcome
use Prim.Native.Char.{Char, code}
use Prim.Native.String.{◌++◌ as append}
use llm_dashboard.Base.{
  ℕ, suc, zero, ◌-◌, ◌==◌, Bool, true, false, ◌&&◌, not, Option, none, some, List, [], ◌∷◌, String,
  if◌then◌else◌,
}
use llm_dashboard.Prompts.{Template, Templates, Variable, get_prompt, increment_usage, or_else}

abbrev pub Values : Type 0
Values = String → Option (Option String)

-- Whether the second text begins with the first.
unfoldable pub begins : String → String → Bool
begins String.[] s = true
begins (String.◌∷◌ c p) String.[] = false
begins (String.◌∷◌ c p) (String.◌∷◌ d s) = code c == code d && begins p s

unfoldable pub size : String → ℕ
size String.[] = 0
size (String.◌∷◌ c s) = suc (size s)

-- `str.replace` for a needle that is not empty: the number is of characters still to be skipped.
unfoldable pub replace_from : String → String → ℕ → String → String
unfolding begins size
replace_from needle value k String.[] = ""
replace_from needle value (suc k) (String.◌∷◌ c s) = replace_from needle value k s
replace_from needle value zero (String.◌∷◌ c s) =
    let hit = append value (replace_from needle value (size needle - 1) s) in
    let miss = String.◌∷◌ c (replace_from needle value zero s) in
    if begins needle (String.◌∷◌ c s) then hit else miss

unfoldable pub replace : String → String → String → String
unfolding replace_from
replace text needle value = replace_from needle value 0 text

-- `kwargs.get(name, default)`
unfoldable pub value_of : Values → Variable → Option String
value_of values v = elim (values v.name) [ none ↦ v.default | some given ↦ given ]

unfoldable pub placeholder : String → String
placeholder name = append "{{" (append name "}}")

-- The loop over the variables; `none` is the ValueError.
unfoldable pub substitute : Values → List Variable → String → Option String
unfolding value_of replace placeholder
substitute values [] text = some text
substitute values (v ∷ vs) text =
    let kept = substitute values vs text in
    elim (value_of values v) [
      | none ↦ if v.required then none else kept
      | some s ↦ substitute values vs (replace text (placeholder v.name) s)
    ]

unfoldable pub variables_or_empty : Option (List Variable) → List Variable
variables_or_empty none = []
variables_or_empty (some vs) = vs

unfoldable pub render_template : Values → Template → Option String
unfolding substitute variables_or_empty
render_template values x = substitute values (variables_or_empty x.variables) x.content

pub record Rendered : Type 0 where
  pub rendered : String
  pub system_message : Option String
  pub model : Option String
  pub max_tokens : Option ℕ
  pub temperature : Option ℕ
  pub version : ℕ
  pub prompt_id : String

pub data RenderReply : Type 0 where
  not_found value_error : RenderReply
  success : Rendered → RenderReply

unfoldable pub rendered_of : Template → String → Rendered
rendered_of x text = record {
  rendered = text;
  system_message = x.system_message;
  model = x.model;
  max_tokens = x.max_tokens;
  temperature = x.temperature;
  version = x.version;
  prompt_id = x.id;
}

-- `counts` is false where the update of the usage fails, which is ignored.
unfoldable pub render :
    Bool → String → String → Values → Option ℕ → Templates → Templates × RenderReply
unfolding get_prompt render_template increment_usage rendered_of
render counts tenant name values version xs = elim (get_prompt tenant name version xs) [
  | none ↦ (xs, not_found)
  | some x ↦ elim (render_template values x) [
    | none ↦ (xs, value_error)
    | some text ↦ (if counts then increment_usage x.id xs else xs, success (rendered_of x text))
  ]
]
