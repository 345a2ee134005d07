-- ===== src/Auth/ModelList/Parsed.antt =====
-- What is read from a stored list of models is a list of model names.
use Prim.Native.Char.{Char}
use llm_dashboard.Base.{
  ◌≡◌, refl, ap, ◌∙◌, false, ◌&&◌, not, Option, none, some, List, [], ◌∷◌, String, Bool-cases, inl,
  inr, map, filter, All,
}
use llm_dashboard.Auth.ModelList.{
  split, is_comma, to_first, strip, lstrip, rstrip, is_space, is_empty, allowed_models_list,
}
use llm_dashboard.Auth.ModelList.RoundTrip.{IsCommaFree, IsModelName}

lstrip-IsCommaFree : (s : String) → IsCommaFree s → IsCommaFree (lstrip s)
unfolding lstrip
lstrip-IsCommaFree String.[] h = tt
lstrip-IsCommaFree (String.◌∷◌ c s) h = elim (Bool-cases (is_space c)) [
  | inl t ↦ rw t (lstrip-IsCommaFree s h.1)
  | inr f ↦ rw f h
]

rstrip-IsCommaFree : (s : String) → IsCommaFree s → IsCommaFree (rstrip s)
unfolding rstrip
rstrip-IsCommaFree String.[] h = tt
rstrip-IsCommaFree (String.◌∷◌ c s) h = elim (Bool-cases (is_empty (rstrip s) && is_space c)) [
  | inl t ↦ rw t tt
  | inr f ↦ rw f (h.0, rstrip-IsCommaFree s h.1)
]

-- A text without white space at its start.
abbrev StartsDark : String → Type 0
StartsDark String.[] = Unit
StartsDark (String.◌∷◌ c s) = is_space c ≡ false

lstrip-StartsDark : (s : String) → StartsDark (lstrip s)
unfolding lstrip
lstrip-StartsDark String.[] = tt
lstrip-StartsDark (String.◌∷◌ c s) = elim (Bool-cases (is_space c)) [
  | inl t ↦ rw t (lstrip-StartsDark s)
  | inr f ↦ rw f f
]

lstrip_dark : (s : String) → StartsDark s → lstrip s ≡ s
unfolding lstrip
lstrip_dark String.[] h = refl
lstrip_dark (String.◌∷◌ c s) h = rw h refl

rstrip-StartsDark : (s : String) → StartsDark s → StartsDark (rstrip s)
unfolding rstrip
rstrip-StartsDark String.[] h = tt
rstrip-StartsDark (String.◌∷◌ c s) h = elim (Bool-cases (is_empty (rstrip s) && is_space c)) [
  | inl t ↦ rw t tt
  | inr f ↦ rw f h
]

rstrip_idem : (s : String) → rstrip (rstrip s) ≡ rstrip s
unfolding rstrip
rstrip_idem String.[] = refl
rstrip_idem (String.◌∷◌ c s) = elim (Bool-cases (is_empty (rstrip s) && is_space c)) [
  | inl t ↦ rw t refl
  | inr f ↦ rw f (rw (rstrip_idem s) (rw f refl))
]

strip_idem : (s : String) → strip (strip s) ≡ strip s
unfolding strip
strip_idem s =
    ap rstrip (lstrip_dark (rstrip (lstrip s)) (rstrip-StartsDark (lstrip s) (lstrip-StartsDark s)))
    ∙ rstrip_idem (lstrip s)

to_first-IsCommaFree :
    (c : Char) (ss : List String)
    → is_comma c ≡ false
    → All IsCommaFree ss
    → All IsCommaFree (to_first c ss)
unfolding to_first
to_first-IsCommaFree c [] h hs = ((h, tt), tt)
to_first-IsCommaFree c (s ∷ ss) h hs = ((h, hs.0), hs.1)

split-IsCommaFree : (s : String) → All IsCommaFree (split s)
unfolding split
split-IsCommaFree String.[] = (tt, tt)
split-IsCommaFree (String.◌∷◌ c s) = elim (Bool-cases (is_comma c)) [
  | inl t ↦ rw t (tt, split-IsCommaFree s)
  | inr f ↦ rw f (to_first-IsCommaFree c (split s) f (split-IsCommaFree s))
]

names-IsModelName :
    (ss : List String)
    → All IsCommaFree ss
    → All IsModelName (filter (λ m. not (is_empty m)) (map strip ss))
unfolding strip
names-IsModelName [] h = tt
names-IsModelName (s ∷ ss) h = elim (Bool-cases (is_empty (strip s))) [
  | inl t ↦ rw t (names-IsModelName ss h.1)
  | inr f ↦ rw f (
    record {
      comma_free = rstrip-IsCommaFree (lstrip s) (lstrip-IsCommaFree s h.0);
      nonempty = f;
      stripped = strip_idem s;
    },
    names-IsModelName ss h.1,
  )
]

-- What is read from a stored list is a list of model names.
pub allowed_models_list-IsModelName : (o : Option String) → All IsModelName (allowed_models_list o)
unfolding allowed_models_list
allowed_models_list-IsModelName none = tt
allowed_models_list-IsModelName (some s) = elim (Bool-cases (is_empty s)) [
  | inl t ↦ rw t tt
  | inr f ↦ rw f (names-IsModelName (split s) (split-IsCommaFree s))
]
