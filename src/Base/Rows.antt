-- ===== src/Base/Rows.antt =====
-- What queries for some rows find in a table after other rows, or the same, are rewritten or deleted.
use mathlib.Core.Path.{◌≡◌, refl, ap, ◌∙◌}
use mathlib.Core.Logic.{inl, inr}
use mathlib.Core.Bool.{Bool, true, false, not}
use mathlib.Core.Option.{Option, none, some}
use mathlib.Core.List.{List, [], ◌∷◌, map}
use llm_dashboard.Base.Tests.{if◌then◌else◌, Bool-cases}
use llm_dashboard.Base.Lists.{All, filter, find, update_where}

module _ {A : Type 0} where
  abbrev pub map_option : (A → A) → Option A → Option A
  map_option f none = none
  map_option f (some a) = some (f a)

  module _ (p : A → Bool) (f : A → A) (keeps : (x : A) → p (f x) ≡ p x) where
    pub find-update_where : (xs : List A) → find p (update_where p f xs) ≡ map_option f (find p xs)
    find-update_where [] = refl
    find-update_where (x ∷ xs) = elim (Bool-cases (p x)) [
      | inl t ↦ let kept = keeps x ∙ t in rw (t, kept) refl
      | inr n ↦ rw (n, n) (find-update_where xs)
    ]

    pub filter-update_where : (xs : List A) → filter p (update_where p f xs) ≡ map f (filter p xs)
    filter-update_where [] = refl
    filter-update_where (x ∷ xs) = elim (Bool-cases (p x)) [
      | inl t ↦
          let kept = keeps x ∙ t in rw (t, kept) (ap (λ ys. f x ∷ ys) (filter-update_where xs))
      | inr n ↦ rw (n, n) (filter-update_where xs)
    ]

  -- The rows that are rewritten are no rows of the query.
  module _ (p q : A → Bool) (f : A → A) (apart : (x : A) → p x ≡ true → q x ≡ false)
      (still_apart : (x : A) → p x ≡ true → q (f x) ≡ false) where
    pub find-update_where_apart : (xs : List A) → find q (update_where p f xs) ≡ find q xs
    find-update_where_apart [] = refl
    find-update_where_apart (x ∷ xs) = elim (Bool-cases (p x)) [
      | inl t ↦
          let a = apart x t in let b = still_apart x t in rw (t, a, b) (find-update_where_apart xs)
      | inr n ↦ rw n (ap (λ o. if q x then some x else o) (find-update_where_apart xs))
    ]

    pub filter-update_where_apart : (xs : List A) → filter q (update_where p f xs) ≡ filter q xs
    filter-update_where_apart [] = refl
    filter-update_where_apart (x ∷ xs) = elim (Bool-cases (p x)) [
      | inl t ↦
          let a = apart x t in
          let b = still_apart x t in rw (t, a, b) (filter-update_where_apart xs)
      | inr n ↦ rw n (ap (λ ys. if q x then x ∷ ys else ys) (filter-update_where_apart xs))
    ]

  pub filter-delete : (p : A → Bool) (xs : List A) → filter p (filter (λ x. not (p x)) xs) ≡ []
  filter-delete p [] = refl
  filter-delete p (x ∷ xs) = elim (Bool-cases (p x)) [
    | inl t ↦ rw t (filter-delete p xs)
    | inr n ↦ rw (n, n) (filter-delete p xs)
  ]

  pub filter-delete_apart :
      (p q : A → Bool)
      → ((x : A) → p x ≡ true → q x ≡ false)
      → (xs : List A) → filter q (filter (λ x. not (p x)) xs) ≡ filter q xs
  filter-delete_apart p q apart [] = refl
  filter-delete_apart p q apart (x ∷ xs) = elim (Bool-cases (p x)) [
    | inl t ↦ let a = apart x t in rw (t, a) (filter-delete_apart p q apart xs)
    | inr n ↦ rw n (ap (λ ys. if q x then x ∷ ys else ys) (filter-delete_apart p q apart xs))
  ]

  pub All-update_where :
      (P : A → Type 0) (p : A → Bool) (f : A → A)
      → ((x : A) → P x → P (f x))
      → (xs : List A) → All P xs
      → All P (update_where p f xs)
  All-update_where P p f keeps [] h = tt
  All-update_where P p f keeps (x ∷ xs) h = elim (Bool-cases (p x)) [
    | inl t ↦ rw t (keeps x h.0, All-update_where P p f keeps xs h.1)
    | inr n ↦ rw n (h.0, All-update_where P p f keeps xs h.1)
  ]
