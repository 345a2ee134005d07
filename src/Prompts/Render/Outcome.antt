-- ===== src/Prompts/Render/Outcome.antt =====
-- What a request to render a prompt comes to.
use llm_dashboard.Base.{
  ℕ, ◌+◌, str_eq, ap, arith, ◌≡◌, ◌≢◌, refl, Bool, true, Option, none, some, List, [], ◌∷◌, String,
  Bool-cases, Option-cases, inl, inr, All, if◌then◌else◌, ◌⊎◌,
}
use llm_dashboard.Prompts.{
  Template, Templates, Variable, get_prompt, increment_usage, has_template_id,
}
use llm_dashboard.Prompts.Render.{
  Values, value_of, substitute, render_template, variables_or_empty, render, rendered_of, not_found,
  value_error, success, replace, placeholder,
}

-- The variable is given a value other than None, or is not given at all and has a default.
abbrev pub HasValue : Values → Variable → Type 0
HasValue values v =
    ((s : String) × (values v.name ≡ some (some s)))
    ⊎ ((values v.name ≡ none) × ((s : String) × (v.default ≡ some s)))

-- Every required variable has a value or a default.
abbrev pub IsSupplied : Values → List Variable → Type 0
IsSupplied values vs = All (λ v. v.required ≡ true → HasValue values v) vs

value_of-HasValue :
    (values : Values) (v : Variable) (s : String) → value_of values v ≡ some s → HasValue values v
unfolding value_of
value_of-HasValue values v s e = elim (Option-cases (values v.name)) [
  | inl n ↦ inr (n, (s, ground arith))
  | inr (given, g) ↦ inl (s, ground arith)
]

HasValue-value_of : (values : Values) (v : Variable) → HasValue values v → value_of values v ≢ none
unfolding value_of
HasValue-value_of values v (inl (s, g)) n = ground arith
HasValue-value_of values v (inr (g, (s, d))) n = ground arith

-- The table in which the usage count of the rows with the id is one higher, all else as before.
unfoldable pub counted_once : String → Templates → Templates
counted_once i [] = []
counted_once i (x ∷ xs) =
    (if str_eq x.id i then record x { usage_count = x.usage_count + 1 } else x) ∷ counted_once i xs

increment_usage-counted_once :
    (i : String) (xs : Templates) → increment_usage i xs ≡ counted_once i xs
unfolding increment_usage counted_once has_template_id
increment_usage-counted_once i [] = refl
increment_usage-counted_once i (x ∷ xs) =
    ap (λ ys. (if str_eq x.id i then record x { usage_count = x.usage_count + 1 } else x) ∷ ys)
      (increment_usage-counted_once i xs)

substitute-cases :
    (values : Values) (vs : List Variable) (text : String)
    → (¬ IsSupplied values vs × (substitute values vs text ≡ none))
      ⊎ (IsSupplied values vs × ((out : String) × (substitute values vs text ≡ some out)))
unfolding substitute
substitute-cases values [] text = inr (tt, (text, refl))
substitute-cases values (v ∷ vs) text = elim (Option-cases (value_of values v)) [
  | inr (s, e) ↦
      let next = replace text (placeholder v.name) s in
      elim (substitute-cases values vs next) [
        | inl (lacks, q) ↦ inl (λ h. lacks h.1, rw (e, substitute) q)
        | inr (has, (out, q)) ↦
            inr ((λ t. value_of-HasValue values v s e, has), (out, rw (e, substitute) q))
      ]
  | inl e ↦ elim (Bool-cases v.required) [
    | inl t ↦ inl (λ h. HasValue-value_of values v (h.0 t) e, rw (e, substitute) (rw t refl))
    | inr f ↦ elim (substitute-cases values vs text) [
      | inl (lacks, q) ↦ inl (λ h. lacks h.1, rw (e, substitute) (rw f q))
      | inr (has, (out, q)) ↦ inr ((λ t. absurd (cc), has), (out, rw (e, substitute) (rw f q)))
    ]
  ]
]

-- Rendering a prompt that is found raises a ValueError and changes nothing exactly if a required
-- variable is given None, or is not given and has no default; else it returns a text with the prompt's version and
-- settings, and of the table only the usage count of the rows with the prompt's id goes up, by one,
-- where that update works. For a prompt that is not found nothing changes.
pub render-Outcome :
    (counts : Bool) (tenant name : String) (values : Values) (version : Option ℕ) (xs : Templates)
    → ((get_prompt tenant name version xs ≡ none)
        × (render counts tenant name values version xs ≡ (xs, not_found)))
      ⊎ ((x : Template) × (get_prompt tenant name version xs ≡ some x)
          × ((¬ IsSupplied values (variables_or_empty x.variables)
                × (render counts tenant name values version xs ≡ (xs, value_error)))
              ⊎ (IsSupplied values (variables_or_empty x.variables)
                  × ((text : String) × (render counts tenant name values version xs ≡ (
                    if counts then counted_once x.id xs else xs,
                    success (rendered_of x text),
                  ))))))
unfolding render render_template
render-Outcome counts tenant name values version xs =
    elim (Option-cases (get_prompt tenant name version xs)) [
      | inl e ↦ inl (e, rw (e, render) refl)
      | inr (x, e) ↦ inr (
        x,
        e,
        elim (substitute-cases values (variables_or_empty x.variables) x.content) [
          | inl (lacks, q) ↦ inl (lacks, rw (e, render) (rw q refl))
          | inr (has, (text, q)) ↦
              inr (has, (text, rw (e, render) (rw (q, increment_usage-counted_once x.id xs) refl)))
        ],
      )
    ]
