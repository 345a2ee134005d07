-- ===== src/Prompts/View.antt =====
-- The history of one prompt, and how the rows of a tenant and a name stand for it.
use llm_dashboard.Base.{
  ℕ, ◌+◌, ◌≡◌, refl, ap, Bool, ◌&&◌, Option, none, some, List, [], ◌∷◌, String, arith, Bool-cases,
  inl, inr, filter, find, update_where, map, length, if◌then◌else◌, leb, ◌==◌,
}
use llm_dashboard.Prompts.{Template, Templates, is_of, max_version, archive, publish_row}

-- The texts of the versions, the newest first, and the number of the published one.
pub record History : Type 0 where
  pub contents : List String
  pub current : Option ℕ

pub data Change : Type 0 where
  adds : String → Change
  publishes : ℕ → Change

-- A new text becomes the next version, and the published one if it is the first. Publishing
-- selects an existing version; a number that is no version leaves nothing published.
unfoldable pub change : Change → History → History
change (adds c) h = record {
  contents = c ∷ h.contents;
  current = elim (h.contents) [ [] ↦ some 1 | x ∷ xs ↦ h.current ];
}
change (publishes v) h = record h {
  current = if leb 1 v && leb v (length h.contents) then some v else none;
}

unfoldable pub version_of : Option Template → Option ℕ
version_of none = none
version_of (some x) = some x.version

unfoldable pub history : Templates → History
unfolding version_of
history xs = record {
  contents = map (λ x. x.content) xs;
  current = version_of (find (λ x. x.is_published) xs);
}

unfoldable pub view : String → String → Templates → History
unfolding history is_of
view tenant name xs = history (filter (is_of tenant name) xs)

-- The versions count down to 1.
abbrev pub IsNumbered : Templates → Type 0
IsNumbered [] = Unit
IsNumbered (x ∷ xs) = (x.version ≡ length xs + 1) × IsNumbered xs

pub max_version-length : (xs : Templates) → IsNumbered xs → max_version xs ≡ length xs
unfolding max_version
max_version-length [] h = refl
max_version-length (x ∷ xs) h = ground (arith, max_version-length xs h.1)

-- The rows of a prompt after all of them are archived.
abbrev archived_rows : Templates → Templates
archived_rows xs = map archive xs

none_published : (xs : Templates) → find (λ x. x.is_published) (archived_rows xs) ≡ none
unfolding archive
none_published [] = refl
none_published (x ∷ xs) = none_published xs

contents-archive :
    (xs : Templates) → map (λ x. x.content) (archived_rows xs) ≡ map (λ x. x.content) xs
unfolding archive
contents-archive [] = refl
contents-archive (x ∷ xs) = ap (◌∷◌ x.content) (contents-archive xs)

contents-update_where :
    (p : Template → Bool) (now : ℕ) (user : String) (xs : Templates)
    → map (λ x. x.content) (update_where p (publish_row now user) xs) ≡ map (λ x. x.content) xs
unfolding publish_row
contents-update_where p now user [] = refl
contents-update_where p now user (x ∷ xs) = elim (Bool-cases (p x)) [
  | inl t ↦ rw t (ap (◌∷◌ x.content) (contents-update_where p now user xs))
  | inr f ↦ rw f (ap (◌∷◌ x.content) (contents-update_where p now user xs))
]

-- Among numbered rows that are all archived, publishing by number publishes that number.
published_number :
    (v now : ℕ) (user : String) (xs : Templates)
    → IsNumbered xs
    → version_of (
        find
          (λ x. x.is_published)
          (update_where (λ x. x.version == v) (publish_row now user) (archived_rows xs)))
      ≡ (if leb 1 v && leb v (length xs) then some v else none)
unfolding version_of publish_row archive
published_number v now user [] h = ground arith
published_number v now user (x ∷ xs) h = ground (arith, published_number v now user xs h.1)

length-contents : (xs : Templates) → length (map (λ x. x.content) xs) ≡ length xs
length-contents [] = refl
length-contents (x ∷ xs) = omega (arith, length-contents xs)

pub history-publish :
    (v now : ℕ) (user : String) (xs : Templates)
    → IsNumbered xs
    → history (update_where (λ x. x.version == v) (publish_row now user) (map archive xs))
      ≡ change (publishes v) (history xs)
unfolding history change
history-publish v now user xs h = ground (
  arith,
  contents-update_where (λ x. x.version == v) now user (map archive xs),
  contents-archive xs,
  published_number v now user xs h,
  length-contents xs,
)
