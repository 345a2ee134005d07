-- ===== src/Auth/ModelList.antt =====
-- The allowed models of a virtual key as one text (`",".join` in create_virtual_key of
-- modules/auth/service.py) and back (allowed_models_list of modules/auth/models.py).
pub mod RoundTrip
pub mod Parsed
use Prim.Native.Char.{Char, code}
use Prim.Native.String.{◌++◌ as append}
use llm_dashboard.Base.{
  ℕ, ◌==◌, Bool, true, false, ◌&&◌, ◌||◌, not, Option, none, some, List, [], ◌∷◌, String, str_eq,
  if◌then◌else◌, leb, map, filter,
}

-- `",".join`
unfoldable pub join : List String → String
join [] = ""
join (m ∷ []) = m
join (m ∷ n ∷ ms) = append m (append "," (join (n ∷ ms)))

unfoldable pub is_comma : Char → Bool
is_comma c = code c == 44

unfoldable pub to_first : Char → List String → List String
to_first c [] = String.◌∷◌ c "" ∷ []
to_first c (s ∷ ss) = String.◌∷◌ c s ∷ ss

-- `split(",")`
unfoldable pub split : String → List String
unfolding is_comma to_first
split String.[] = "" ∷ []
split (String.◌∷◌ c s) = let rest = split s in if is_comma c then "" ∷ rest else to_first c rest

unfoldable pub between : ℕ → ℕ → ℕ → Bool
between a b n = leb a n && leb n b

-- The characters that `strip()` removes.
unfoldable pub is_space : Char → Bool
unfolding between
is_space c =
    let n = code c in
    between 9 13 n
    || (between 28 32 n
        || (n == 133
            || (n == 160
                || (n == 5760
                    || (between 8192 8202 n
                        || (between 8232 8233 n || (n == 8239 || (n == 8287 || n == 12288))))))))

unfoldable pub lstrip : String → String
unfolding is_space
lstrip String.[] = ""
lstrip (String.◌∷◌ c s) = let rest = lstrip s in if is_space c then rest else String.◌∷◌ c s

unfoldable pub is_empty : String → Bool
is_empty String.[] = true
is_empty (String.◌∷◌ c s) = false

unfoldable pub rstrip : String → String
unfolding is_space is_empty
rstrip String.[] = ""
rstrip (String.◌∷◌ c s) =
    let rest = rstrip s in if is_empty rest && is_space c then "" else String.◌∷◌ c rest

unfoldable pub strip : String → String
unfolding lstrip rstrip
strip s = rstrip (lstrip s)

-- `allowed_models_list`
unfoldable pub allowed_models_list : Option String → List String
unfolding split strip is_empty
allowed_models_list none = []
allowed_models_list (some s) =
    if is_empty s then [] else filter (λ m. not (is_empty m)) (map strip (split s))
