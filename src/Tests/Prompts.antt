-- ===== src/Tests/Prompts.antt =====
-- Prompts at concrete inputs.
use llm_dashboard.Base.{◌≡◌, refl, true, none, some, List, [], ◌∷◌, ◌++◌, String, ◌⊎◌}
use llm_dashboard.Prompts.{
  Template, Templates, Server, PromptRequest, rollback, create_prompt, get_prompt,
}
use llm_dashboard.Prompts.View.{view}
use llm_dashboard.Prompts.Publishing.{AreNumbered}
use llm_dashboard.Prompts.Refines.{Call, creates, rolls_back, Refines, run, run-keeps_versions}
use llm_dashboard.Prompts.Render.{
  render, replace, not_found, value_error, success, rendered_of, variables_or_empty,
}
use llm_dashboard.Prompts.Render.Outcome.{counted_once, IsSupplied, render-Outcome}

abbrev server : Server
server = record { slugify = λ s. s; findall = λ s. "who" ∷ "who" ∷ []; now = 9; new_id = "p1" }

abbrev request : PromptRequest
request = record {
  content = "Greet {{who}}, and {{who}} again";
  system_message = none;
  description = none;
  variables = [];
  model = none;
  max_tokens = none;
  temperature = none;
  tags = none;
  change_summary = none;
}

abbrev creation : Call
creation = creates server request "greet" "acme" "u1"

no_rows-AreNumbered : AreNumbered []
no_rows-AreNumbered t n = tt

run-keeps_versions_example :
    (news : List String) × ((view "acme" "greet" (run (creation ∷ creation ∷ []) [])).contents
      ≡ news ++ (view "acme" "greet" []).contents)
run-keeps_versions_example =
    run-keeps_versions (creation ∷ creation ∷ []) [] "acme" "greet" no_rows-AreNumbered

-- Rolling back to a version that does not exist leaves the prompt without a published version.
rolled_back_nowhere :
    view "acme" "greet" (run (creation ∷ rolls_back 10 "acme" "greet" 7 "u1" ∷ []) [])
    ≡ record { contents = "Greet {{who}}, and {{who}} again" ∷ []; current = none }
unfolding run create_prompt rollback view
rolled_back_nowhere = refl

abbrev table : Templates
table = (create_prompt server request "greet" "acme" "u1" []).0

abbrev row : Template
row = (create_prompt server request "greet" "acme" "u1" []).1

replaced : replace "Greet {{who}}, and {{who}} again" "{{who}}" "Ada" ≡ "Greet Ada, and Ada again"
unfolding replace
replaced = refl

render-Outcome_example :
    ((get_prompt "acme" "greet" none table ≡ none)
      × (render true "acme" "greet" (λ _. none) none table ≡ (table, not_found)))
    ⊎ ((x : Template) × (get_prompt "acme" "greet" none table ≡ some x)
        × ((¬ IsSupplied (λ _. none) (variables_or_empty x.variables)
              × (render true "acme" "greet" (λ _. none) none table ≡ (table, value_error)))
            ⊎ (IsSupplied (λ _. none) (variables_or_empty x.variables)
                × ((text : String) × (render true "acme" "greet" (λ _. none) none table
                      ≡ (counted_once x.id table, success (rendered_of x text)))))))
render-Outcome_example = render-Outcome true "acme" "greet" (λ _. none) none table
