-- ===== src/Base/Lists.antt =====
-- Python list operations over the native numbers, and predicates on lists by recursion.
use Prim.Native.Nat.{ℕ, suc, ◌≤◌}
use mathlib.Core.Path.{◌≡◌, refl, sym, ap, ◌∙◌}
use mathlib.Core.Logic.{◌≢◌, ◌⊎◌, ◌↔◌, inl, inr}
use mathlib.Core.Bool.{Bool, true, false}
use mathlib.Core.Option.{Option, none, some, none-ne-some, some-injective}
use mathlib.Core.List.{List, [], ◌∷◌, ◌++◌, map}
use native.Mathlib.Omega.{arith}
use llm_dashboard.Base.Tests.{if◌then◌else◌, leb, leb→le, Bool-cases}

module _ {ℓ} {A : Type ℓ} where
  abbrev pub length : List A → ℕ
  length [] = 0
  length (x ∷ xs) = suc (length xs)

  -- `xs[0]`, where there is one.
  abbrev pub head : List A → Option A
  head [] = none
  head (x ∷ xs) = some x

  -- `[x for x in xs if p(x)]`
  abbrev pub filter : (A → Bool) → List A → List A
  filter p [] = []
  filter p (x ∷ xs) = let rest = filter p xs in if p x then x ∷ rest else rest

  -- The first element that passes the test, as of a query with one result.
  abbrev pub find : (A → Bool) → List A → Option A
  find p [] = none
  find p (x ∷ xs) = let rest = find p xs in if p x then some x else rest

  -- Every row that passes the test is rewritten.
  abbrev pub update_where : (A → Bool) → (A → A) → List A → List A
  update_where p f [] = []
  update_where p f (x ∷ xs) = (if p x then f x else x) ∷ update_where p f xs

  abbrev pub All {κ} : (A → Type κ) → List A → Type κ
  All P [] = Unit
  All P (x ∷ xs) = P x × All P xs

module _ {A : Type 0} where
  -- The element occurs in the list.
  abbrev pub In : A → List A → Type 0
  In a [] = ⊥
  In a (x ∷ xs) = (a ≡ x) ⊎ In a xs

  -- A row that passes the test goes before every row that follows it only if its key is no smaller.
  abbrev pub insert_desc : (A → ℕ) → A → List A → List A
  insert_desc key a [] = a ∷ []
  insert_desc key a (x ∷ xs) =
      let rest = insert_desc key a xs in if leb (key x) (key a) then a ∷ x ∷ xs else x ∷ rest

  -- `ORDER BY key DESC`; rows with equal keys keep their order.
  abbrev pub sort_desc : (A → ℕ) → List A → List A
  sort_desc key [] = []
  sort_desc key (x ∷ xs) = insert_desc key x (sort_desc key xs)

  abbrev pub IsDescending : (A → ℕ) → List A → Type 0
  IsDescending key [] = Unit
  IsDescending key (x ∷ xs) = All (λ y. key y ≤ key x) xs × IsDescending key xs

  All-insert_desc :
      (key : A → ℕ) (n : ℕ) (a : A) (xs : List A)
      → key a ≤ n
      → All (λ y. key y ≤ n) xs
      → All (λ y. key y ≤ n) (insert_desc key a xs)
  All-insert_desc key n a [] h k = (h, tt)
  All-insert_desc key n a (x ∷ xs) h k = ground (arith, All-insert_desc key n a xs h k.1)

  All-weaken :
      (key : A → ℕ) (m n : ℕ) (xs : List A)
      → m ≤ n
      → All (λ y. key y ≤ m) xs
      → All (λ y. key y ≤ n) xs
  All-weaken key m n [] h k = tt
  All-weaken key m n (x ∷ xs) h k = (omega arith, All-weaken key m n xs h k.1)

  insert_desc-IsDescending :
      (key : A → ℕ) (a : A) (xs : List A)
      → IsDescending key xs
      → IsDescending key (insert_desc key a xs)
  insert_desc-IsDescending key a [] h = (tt, tt)
  insert_desc-IsDescending key a (x ∷ xs) h = elim (Bool-cases (leb (key x) (key a))) [
    | inl le ↦ rw le ((leb→le _ _ le, All-weaken key (key x) (key a) xs (leb→le _ _ le) h.0), h)
    | inr gt ↦
        rw gt (
          All-insert_desc key (key x) a xs (ground arith) h.0,
          insert_desc-IsDescending key a xs h.1,
        )
  ]

  pub sort_desc-IsDescending : (key : A → ℕ) (xs : List A) → IsDescending key (sort_desc key xs)
  sort_desc-IsDescending key [] = tt
  sort_desc-IsDescending key (x ∷ xs) =
      insert_desc-IsDescending key x (sort_desc key xs) (sort_desc-IsDescending key xs)

  In-insert_desc :
      (key : A → ℕ) (b a : A) (xs : List A) → In b (insert_desc key a xs) ↔ ((b ≡ a) ⊎ In b xs)
  In-insert_desc key b a [] = (λ h. h, λ h. h)
  In-insert_desc key b a (x ∷ xs) = elim (Bool-cases (leb (key x) (key a))) [
    | inl le ↦ rw le (λ h. h, λ h. h)
    | inr gt ↦ rw gt (ground (arith, In-insert_desc key b a xs))
  ]

  pub In-sort_desc : (key : A → ℕ) (b : A) (xs : List A) → In b (sort_desc key xs) ↔ In b xs
  In-sort_desc key b [] = (λ h. h, λ h. h)
  In-sort_desc key b (x ∷ xs) =
      let step = In-insert_desc key b x (sort_desc key xs) in
      let ih = In-sort_desc key b xs in
      (
        λ h. elim (step.0 h) [ inl e ↦ inl e | inr m ↦ inr (ih.0 m) ],
        λ h. step.1 (elim h [ inl e ↦ inl e | inr m ↦ inr (ih.1 m) ]),
      )

  pub In-filter :
      (p : A → Bool) (b : A) (xs : List A) → In b (filter p xs) ↔ (In b xs × (p b ≡ true))
  In-filter p b [] = (λ h. absurd h, λ h. h.0)
  In-filter p b (x ∷ xs) = elim (Bool-cases (p x)) [
    | inl e ↦ rw e (ground (arith, In-filter p b xs))
    | inr e ↦ rw e (ground (arith, In-filter p b xs))
  ]

  pub All_at : (P : A → Type 0) (b : A) (xs : List A) → All P xs → In b xs → P b
  All_at P b (x ∷ xs) h (inl e) = rw e h.0
  All_at P b (x ∷ xs) h (inr m) = All_at P b xs h.1 m
  All_at P b [] h m = absurd m

  pub In-append : (b : A) (xs ys : List A) → In b xs → In b (xs ++ ys)
  In-append b [] ys m = absurd m
  In-append b (x ∷ xs) ys (inl e) = inl e
  In-append b (x ∷ xs) ys (inr m) = inr (In-append b xs ys m)

  passed_over : (p : A → Bool) (x : A) (xs : List A) → p x ≡ false → find p (x ∷ xs) ≡ find p xs
  passed_over p x xs h = rw h refl

  -- The first row that passes a test is a row, and it passes.
  pub In-find : (p : A → Bool) (b : A) (xs : List A) → find p xs ≡ some b → In b xs × (p b ≡ true)
  In-find p b [] e = absurd (none-ne-some b e)
  In-find p b (x ∷ xs) e = elim (Bool-cases (p x)) [
    | inl t ↦
        let found : find p (x ∷ xs) ≡ some x = rw t refl in
        let same = some-injective x b (sym found ∙ e) in (inl (sym same), rw (sym same) t)
    | inr f ↦ let (m, t) = In-find p b xs (sym (passed_over p x xs f) ∙ e) in (inr m, t)
  ]

  -- A row that passes a test is found, or one before it is.
  pub find-In : (p : A → Bool) (b : A) (xs : List A) → In b xs → p b ≡ true → find p xs ≢ none
  find-In p b [] m t e = absurd m
  find-In p b (x ∷ xs) m t e = elim (Bool-cases (p x)) [
    | inl on ↦ let found : find p (x ∷ xs) ≡ some x = rw on refl in none-ne-some x (sym e ∙ found)
    | inr off ↦
        let next = sym (passed_over p x xs off) ∙ e in
        elim m [ inl q ↦ ground arith | inr n ↦ find-In p b xs n t next ]
  ]

  -- A row that does not pass the test stays as it is.
  pub In-update_where :
      (p : A → Bool) (f : A → A) (b : A) (xs : List A)
      → p b ≡ false
      → In b xs
      → In b (update_where p f xs)
  In-update_where p f b [] h m = absurd m
  In-update_where p f b (x ∷ xs) h (inl e) = inl (rw (sym e) (rw h refl))
  In-update_where p f b (x ∷ xs) h (inr m) = inr (In-update_where p f b xs h m)

  pub In-middle : (b : A) (xs ys : List A) → In b (xs ++ b ∷ ys)
  In-middle b [] ys = inl refl
  In-middle b (x ∷ xs) ys = inr (In-middle b xs ys)

pub In-map : {A B : Type 0} (f : A → B) (b : A) (xs : List A) → In b xs → In (f b) (map f xs)
In-map f b [] m = absurd m
In-map f b (x ∷ xs) (inl e) = inl (ap f e)
In-map f b (x ∷ xs) (inr m) = inr (In-map f b xs m)

pub In-map_inv :
    {A B : Type 0} (f : A → B) (y : B) (xs : List A)
    → In y (map f xs)
    → (b : A) × In b xs × (y ≡ f b)
In-map_inv f y [] m = absurd m
In-map_inv f y (x ∷ xs) (inl e) = (x, inl refl, e)
In-map_inv f y (x ∷ xs) (inr m) = let (b, i, e) = In-map_inv f y xs m in (b, inr i, e)
