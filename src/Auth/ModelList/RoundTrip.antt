-- ===== src/Auth/ModelList/RoundTrip.antt =====
-- A list of models that is joined and read back.
use Prim.Native.String.{◌++◌ as append}
use text.Mathlib.TextLemmas.{nil-append, cons-append}
use llm_dashboard.Base.{
  ◌≡◌, refl, ap, ◌∙◌, false, not, some, List, [], ◌∷◌, String, map, filter, All,
}
use llm_dashboard.Auth.ModelList.{
  join, split, is_comma, to_first, strip, is_empty, allowed_models_list,
}

-- The text has no comma.
abbrev pub IsCommaFree : String → Type 0
IsCommaFree String.[] = Unit
IsCommaFree (String.◌∷◌ c s) = (is_comma c ≡ false) × IsCommaFree s

-- A name of a model as one may write it in the list: no comma, not blank, no space at its ends.
pub record IsModelName (m : String) : Type 0 where
  pub comma_free : IsCommaFree m
  pub nonempty : is_empty m ≡ false
  pub stripped : strip m ≡ m

split_name : (m : String) → IsCommaFree m → split m ≡ m ∷ []
unfolding split to_first
split_name String.[] h = refl
split_name (String.◌∷◌ c m) h = rw (h.0) (rw (split_name m h.1) refl)

-- A comma before a text starts a new name.
split-comma : (s : String) → split (append "," s) ≡ "" ∷ split s
unfolding split is_comma
split-comma s = rw (cons-append _ "" s, nil-append s) refl

split_joined : (m s : String) → IsCommaFree m → split (append m (append "," s)) ≡ m ∷ split s
unfolding split to_first
split_joined String.[] s h = rw (nil-append (append "," s)) (split-comma s)
split_joined (String.◌∷◌ c m) s h =
    rw (cons-append c m (append "," s)) (rw h.0 (rw (split_joined m s h.1) refl))

split-join :
    (m : String) (ms : List String)
    → IsCommaFree m
    → All IsCommaFree ms
    → split (join (m ∷ ms)) ≡ m ∷ ms
unfolding join
split-join m [] h hs = split_name m h
split-join m (n ∷ ms) h hs =
    split_joined m (join (n ∷ ms)) h ∙ ap (◌∷◌ m) (split-join n ms hs.0 hs.1)

map-strip : (ms : List String) → All IsModelName ms → map strip ms ≡ ms
map-strip [] h = refl
map-strip (m ∷ ms) h = rw h.0.stripped (ap (◌∷◌ m) (map-strip ms h.1))

names_pass : (ms : List String) → All IsModelName ms → filter (λ m. not (is_empty m)) ms ≡ ms
names_pass [] h = refl
names_pass (m ∷ ms) h = rw h.0.nonempty (ap (◌∷◌ m) (names_pass ms h.1))

read_names :
    (ms : List String) → All IsModelName ms → filter (λ m. not (is_empty m)) (map strip ms) ≡ ms
read_names ms h =
    ap (λ (ns : List String). filter (λ m. not (is_empty m)) ns) (map-strip ms h) ∙ names_pass ms h

free_names : (ms : List String) → All IsModelName ms → All IsCommaFree ms
free_names [] h = tt
free_names (m ∷ ms) h = (h.0.comma_free, free_names ms h.1)

join_nonempty :
    (m : String) (ms : List String) → is_empty m ≡ false → is_empty (join (m ∷ ms)) ≡ false
unfolding join is_empty
join_nonempty m [] h = h
join_nonempty String.[] (n ∷ ms) h = cc
join_nonempty (String.◌∷◌ c m) (n ∷ ms) h = rw (cons-append c m (append "," (join (n ∷ ms)))) refl

-- A nonempty list of model names survives storage: joined by commas into one text and read back
-- it is the same list. The names have no comma, are not blank and have no space at their ends.
pub allowed_models_list-join :
    (m : String) (ms : List String)
    → All IsModelName (m ∷ ms)
    → allowed_models_list (some (join (m ∷ ms))) ≡ m ∷ ms
unfolding allowed_models_list
allowed_models_list-join m ms h =
    rw (join_nonempty m ms h.0.nonempty)
      (rw (split-join m ms h.0.comma_free (free_names ms h.1)) (read_names (m ∷ ms) h))
