-- ===== src/Prompts/Publishing.antt =====
-- Publishing a version, on the rows of its prompt and of the others.
use llm_dashboard.Base.{
  ℕ, ◌≡◌, refl, sym, ap, ◌∙◌, Bool, true, false, ◌&&◌, none, [], ◌∷◌, String, str_eq, eq_iff, arith,
  Bool-cases, Option-cases, inl, inr, filter, find, update_where, map, length, if◌then◌else◌, ◌==◌,
}
use llm_dashboard.Prompts.{
  Template, Templates, is_of, is_version, archive, publish_row, update_published_status,
}
use llm_dashboard.Prompts.View.{publishes, change, history, view, IsNumbered, history-publish}

-- A change of a row that keeps the columns of the queries.
abbrev KeepsKey : (Template → Template) → Type 0
KeepsKey f =
    (x : Template)
    → ((f x).tenant_id ≡ x.tenant_id) × ((f x).name ≡ x.name) × ((f x).version ≡ x.version)

length-update_where :
    (p : Template → Bool) (f : Template → Template) (xs : Templates)
    → length (update_where p f xs) ≡ length xs
length-update_where p f [] = refl
length-update_where p f (x ∷ xs) = omega (arith, length-update_where p f xs)

module _ (f : Template → Template) (keeps : KeepsKey f) where
  filter-update_where :
      (t n : String) (p : Template → Bool) (xs : Templates)
      → filter (is_of t n) (update_where p f xs) ≡ update_where p f (filter (is_of t n) xs)
  unfolding is_of
  filter-update_where t n p [] = refl
  filter-update_where t n p (x ∷ xs) = ground (arith, keeps x, filter-update_where t n p xs)

  -- Rows of another prompt are not touched.
  filter_untouched :
      (t n : String) (p : Template → Bool) (xs : Templates)
      → ((x : Template) → p x ≡ true → is_of t n x ≡ false)
      → filter (is_of t n) (update_where p f xs) ≡ filter (is_of t n) xs
  unfolding is_of
  filter_untouched t n p [] apart = refl
  filter_untouched t n p (x ∷ xs) apart =
      ground (arith, keeps x, apart x, filter_untouched t n p xs apart)

  update_where-IsNumbered :
      (p : Template → Bool) (xs : Templates) → IsNumbered xs → IsNumbered (update_where p f xs)
  update_where-IsNumbered p [] h = tt
  update_where-IsNumbered p (x ∷ xs) h =
      (ground (arith, keeps x, length-update_where p f xs), update_where-IsNumbered p xs h.1)

no_target :
    (p : Template → Bool) (f : Template → Template) (xs : Templates)
    → find p xs ≡ none
    → update_where p f xs ≡ xs
no_target p f [] e = refl
no_target p f (x ∷ xs) e = ground (arith, no_target p f xs)

archive-KeepsKey : KeepsKey archive
unfolding archive
archive-KeepsKey x = (refl, refl, refl)

publish_row-KeepsKey : (now : ℕ) (user : String) → KeepsKey (publish_row now user)
unfolding publish_row
publish_row-KeepsKey now user x = (refl, refl, refl)

-- The table after an attempt to publish, whether the version is found or not.
pub published_rows : ℕ → String → String → ℕ → String → Templates → Templates
published_rows now t n v user xs =
    update_where (is_version t n v) (publish_row now user) (update_where (is_of t n) archive xs)

pub update_published_status-rows :
    (now : ℕ) (t n : String) (v : ℕ) (user : String) (xs : Templates)
    → (update_published_status now t n v user xs).0 ≡ published_rows now t n v user xs
unfolding update_published_status published_rows
update_published_status-rows now t n v user xs =
    elim (Option-cases (find (is_version t n v) (update_where (is_of t n) archive xs))) [
      | inl e ↦ rw (e, update_published_status) (sym (no_target _ _ _ e))
      | inr (x, e) ↦ rw (e, update_published_status) refl
    ]

rows_of_prompt :
    (now : ℕ) (t n : String) (v : ℕ) (user : String) (xs : Templates)
    → update_where
        (is_version t n v)
        (publish_row now user)
        (update_where (is_of t n) archive (filter (is_of t n) xs))
      ≡ update_where
          (λ x. x.version == v)
          (publish_row now user)
          (map archive (filter (is_of t n) xs))
unfolding is_version is_of archive
rows_of_prompt now t n v user [] = refl
rows_of_prompt now t n v user (x ∷ xs) = ground (arith, rows_of_prompt now t n v user xs)

unfoldable pub same_key : String → String → String → String → Bool
same_key t n t' n' = str_eq t t' && str_eq n n'

pub apart :
    (t n t' n' : String) (x : Template)
    → same_key t n t' n' ≡ false
    → is_of t n x ≡ true
    → is_of t' n' x ≡ false
unfolding same_key is_of
apart t n t' n' x d e = ground (
  arith,
  eq_iff x.tenant_id t,
  eq_iff x.tenant_id t',
  eq_iff x.name n,
  eq_iff x.name n',
  eq_iff t t',
  eq_iff n n',
)

-- Every prompt of the table is numbered.
abbrev pub AreNumbered : Templates → Type 0
AreNumbered xs = (t n : String) → IsNumbered (filter (is_of t n) xs)

own_rows :
    (now : ℕ) (t n : String) (v : ℕ) (user : String) (xs : Templates)
    → filter (is_of t n) (published_rows now t n v user xs)
      ≡ update_where
          (λ x. x.version == v)
          (publish_row now user)
          (map archive (filter (is_of t n) xs))
unfolding published_rows
own_rows now t n v user xs =
    filter-update_where (publish_row now user) (publish_row-KeepsKey now user) t n
      (is_version t n v) (update_where (is_of t n) archive xs)
    ∙ ap (update_where (is_version t n v) (publish_row now user))
        (filter-update_where archive archive-KeepsKey t n (is_of t n) xs)
    ∙ rows_of_prompt now t n v user xs

version_apart :
    (t n t' n' : String) (v : ℕ) (x : Template)
    → same_key t n t' n' ≡ false
    → is_version t n v x ≡ true
    → is_of t' n' x ≡ false
unfolding is_version
version_apart t n t' n' v x d e = apart t n t' n' x d (ground arith)

other_rows :
    (now : ℕ) (t n : String) (v : ℕ) (user : String) (xs : Templates) (t' n' : String)
    → same_key t n t' n' ≡ false
    → filter (is_of t' n') (published_rows now t n v user xs) ≡ filter (is_of t' n') xs
unfolding published_rows
other_rows now t n v user xs t' n' d =
    filter_untouched (publish_row now user) (publish_row-KeepsKey now user) t' n' (is_version t n v)
      (update_where (is_of t n) archive xs) (λ x e. version_apart t n t' n' v x d e)
    ∙ filter_untouched archive archive-KeepsKey t' n' (is_of t n) xs (λ x e. apart t n t' n' x d e)

pub same_key-eq : (t n t' n' : String) → same_key t n t' n' ≡ true → (t ≡ t') × (n ≡ n')
unfolding same_key
same_key-eq t n t' n' e = ground (arith, eq_iff t t', eq_iff n n')

length-archive : (xs : Templates) → length (map archive xs) ≡ length xs
length-archive [] = refl
length-archive (x ∷ xs) = omega (arith, length-archive xs)

map-archive-IsNumbered : (xs : Templates) → IsNumbered xs → IsNumbered (map archive xs)
unfolding archive
map-archive-IsNumbered [] h = tt
map-archive-IsNumbered (x ∷ xs) h =
    (ground (arith, length-archive xs), map-archive-IsNumbered xs h.1)

-- A try to publish is a change of the history of its prompt, and of no other.
pub view-published_rows :
    (now : ℕ) (t n : String) (v : ℕ) (user : String) (xs : Templates) (t' n' : String)
    → AreNumbered xs
    → view t' n' (published_rows now t n v user xs)
      ≡ (if same_key t n t' n' then change (publishes v) (view t' n' xs) else view t' n' xs)
unfolding view
view-published_rows now t n v user xs t' n' h = elim (Bool-cases (same_key t n t' n')) [
  | inl s ↦
      let (et, en) = same_key-eq t n t' n' s in
      rw s (
        rw (← et, ← en)
          (ap history (own_rows now t n v user xs)
            ∙ history-publish v now user (filter (is_of t n) xs) (h t n)))
  | inr d ↦ rw d (ap history (other_rows now t n v user xs t' n' d))
]

pub published_rows-AreNumbered :
    (now : ℕ) (t n : String) (v : ℕ) (user : String) (xs : Templates)
    → AreNumbered xs
    → AreNumbered (published_rows now t n v user xs)
published_rows-AreNumbered now t n v user xs h t' n' = elim (Bool-cases (same_key t n t' n')) [
  | inl s ↦
      let (et, en) = same_key-eq t n t' n' s in
      rw (← et, ← en)
        (rw (own_rows now t n v user xs) (
          update_where-IsNumbered (publish_row now user) (publish_row-KeepsKey now user)
            (λ x. x.version == v) (map archive (filter (is_of t n) xs))
            (map-archive-IsNumbered (filter (is_of t n) xs) (h t n))))
  | inr d ↦ rw (other_rows now t n v user xs t' n' d) (h t' n')
]
