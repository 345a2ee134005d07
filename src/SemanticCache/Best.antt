-- ===== src/SemanticCache/Best.antt =====
-- What a lookup finds is the most similar of the entries that it may use.
use native.Mathlib.Nat.{le_trans}
use mathlib.Core.Option.{none-ne-some, some-injective}
use llm_dashboard.Base.{
  ℕ, ◌≡◌, ◌≤◌, ◌<◌, refl, sym, ap, ◌∙◌, true, ◌&&◌, Option, none, some, [], ◌∷◌, String, arith,
  Bool-cases, Option-cases, inl, inr, ◌⊎◌, All, In, ltb, leb,
}
use llm_dashboard.SemanticCache.{
  Cache, Index, IndexEntry, Encoder, Link, Hit, compatible, search_from, better, best_match,
  lookup_embedding, lookup, entries_at, answer_at,
}

module _ {E : Type 0} (m : Encoder E) where
  -- Every entry that may be used and is similar enough is at most so similar.
  abbrev pub NoneBetter : E → String → ℕ → ℕ → Index E → Type 0
  NoneBetter q model threshold top xs =
      All
        (λ p.
          compatible model p.1 ≡ true
          → threshold ≤ m.similarity q p.1.embedding
          → m.similarity q p.1.embedding ≤ top)
        xs

  -- The match is an entry that may be used, as similar as it says.
  abbrev pub Found : E → String → ℕ → String → ℕ → Index E → Type 0
  Found q model threshold i top xs =
      (e : IndexEntry E) × In (i, e) xs
      × (compatible model e ≡ true)
      × (threshold ≤ top)
      × (m.similarity q e.embedding ≡ top)

  abbrev search : E → String → ℕ → Option String × ℕ → Index E → Option String × ℕ
  search q model threshold best xs = search_from m q model threshold best xs

  better-cases :
      (q : E) (model : String) (threshold : ℕ) (best : Option String × ℕ) (i : String)
      (e : IndexEntry E)
      → ((better m q model threshold best (i, e) ≡ best)
          × (compatible model e ≡ true
              → threshold ≤ m.similarity q e.embedding
              → m.similarity q e.embedding ≤ best.1))
        ⊎ ((better m q model threshold best (i, e) ≡ (some i, m.similarity q e.embedding))
            × (compatible model e ≡ true)
            × (best.1 < m.similarity q e.embedding)
            × (threshold ≤ m.similarity q e.embedding))
  unfolding better
  better-cases q model threshold best i e =
      let s = m.similarity q e.embedding in
      elim (Bool-cases (compatible model e && (ltb best.1 s && leb threshold s))) [
        | inl t ↦ inr (rw t refl, ground arith, ground arith, ground arith)
        | inr f ↦ inl (rw f refl, λ c h. ground arith)
      ]

  better-le :
      (q : E) (model : String) (threshold : ℕ) (best : Option String × ℕ) (i : String)
      (e : IndexEntry E)
      → best.1 ≤ (better m q model threshold best (i, e)).1
  unfolding better
  better-le q model threshold best i e = ground arith

  top-le :
      (q : E) (model : String) (threshold : ℕ) (best : Option String × ℕ) (xs : Index E)
      → best.1 ≤ (search q model threshold best xs).1
  unfolding search_from
  top-le q model threshold best [] = omega arith
  top-le q model threshold best ((i, e) ∷ xs) =
      le_trans (better-le q model threshold best i e)
        (top-le q model threshold (better m q model threshold best (i, e)) xs)

  none_better :
      (q : E) (model : String) (threshold : ℕ) (best : Option String × ℕ) (xs : Index E)
      → NoneBetter q model threshold (search q model threshold best xs).1 xs
  unfolding search_from
  none_better q model threshold best [] = tt
  none_better q model threshold best ((i, e) ∷ xs) =
      let next = better m q model threshold best (i, e) in
      let later = top-le q model threshold next xs in
      (
        λ c h. elim (better-cases q model threshold best i e) [
          | inl (same, low) ↦
              le_trans (le_trans (low c h) (better-le q model threshold best i e)) later
          | inr (taken, ok, lt, le) ↦
              le_trans (omega (arith, ap (λ (b : Option String × ℕ). b.1) taken)) later
        ],
        none_better q model threshold next xs,
      )

  Found-later :
      (q : E) (model : String) (threshold : ℕ) (i : String) (top : ℕ) (p : String × IndexEntry E)
      (xs : Index E)
      → Found q model threshold i top xs
      → Found q model threshold i top (p ∷ xs)
  Found-later q model threshold i top p xs (e, here, c, le, same) = (e, inr here, c, le, same)

  search_from-cases :
      (q : E) (model : String) (threshold : ℕ) (best : Option String × ℕ) (xs : Index E)
      → (search q model threshold best xs ≡ best)
        ⊎ ((i : String) × ((search q model threshold best xs).0 ≡ some i)
            × Found q model threshold i (search q model threshold best xs).1 xs)
  unfolding search_from
  search_from-cases q model threshold best [] = inl refl
  search_from-cases q model threshold best ((i, e) ∷ xs) =
      elim (search_from-cases q model threshold (better m q model threshold best (i, e)) xs) [
        | inr (j, f, g) ↦ inr (j, f, Found-later q model threshold j _ (i, e) xs g)
        | inl same ↦ elim (better-cases q model threshold best i e) [
          | inl (kept, low) ↦ inl (same ∙ kept)
          | inr (taken, c, lt, le) ↦
              let total = same ∙ taken in
              let sim = ap (λ (b : Option String × ℕ). b.1) total in
              inr (
                i,
                ap (λ (b : Option String × ℕ). b.0) total,
                (e, inl refl, c, omega (arith, sim), sym sim),
              )
        ]
      ]

  search_result :
      (q : E) (model : String) (threshold : ℕ) (xs : Index E) (i : String) (top : ℕ)
      → best_match m q model threshold xs ≡ (some i, top)
      → Found q model threshold i top xs × NoneBetter q model threshold top xs
  unfolding best_match
  search_result q model threshold xs i top e =
      let sim = ap (λ (b : Option String × ℕ). b.1) e in
      let name = ap (λ (b : Option String × ℕ). b.0) e in
      elim (search_from-cases q model threshold (none, 0) xs) [
        | inl kept ↦ absurd (none-ne-some i (sym (ap (λ (b : Option String × ℕ). b.0) kept) ∙ name))
        | inr (j, f, g) ↦
            let same = some-injective j i (sym f ∙ name) in
            (rw (← same) (rw (← sim) g), rw (← sim) (none_better q model threshold (none, 0) xs))
      ]

  embedding_hit :
      (l : Link) (q : E) (tenant model : String) (threshold : ℕ) (c : Cache E) (hit : Hit)
      → (lookup_embedding m l q tenant model threshold c).1 ≡ some hit
      → (best_match m q model threshold (entries_at l.now (c.index tenant))
          ≡ (some hit.entry_id, hit.similarity))
        × (answer_at l.now (c.answers tenant hit.entry_id) ≡ some hit.answer)
  unfolding lookup_embedding
  embedding_hit l q tenant model threshold c hit e = (ground arith, ground arith)

  -- A hit is the most similar entry of the tenant's own index among those of the same model (or
  -- where one of the two models is not given), it reaches the threshold, and its answer is the one
  -- that is stored for the tenant under the entry, not expired.
  pub lookup-hit :
      (l : Link) (prompt tenant model : String) (threshold : ℕ) (c : Cache E) (hit : Hit)
      → (lookup m l prompt tenant model threshold c).1 ≡ some hit
      → (q : E) × (m.compute_embedding prompt ≡ some q)
        × Found q model threshold hit.entry_id hit.similarity (entries_at l.now (c.index tenant))
        × NoneBetter q model threshold hit.similarity (entries_at l.now (c.index tenant))
        × (answer_at l.now (c.answers tenant hit.entry_id) ≡ some hit.answer)
  unfolding lookup
  lookup-hit l prompt tenant model threshold c hit e =
      elim (Option-cases (m.compute_embedding prompt)) [
        | inl n ↦ absurd (ground arith)
        | inr (q, f) ↦
            let (best, a) = embedding_hit l q tenant model threshold c hit (ground arith) in
            let (found, none_more) =
              search_result q model threshold (entries_at l.now (c.index tenant)) hit.entry_id
                hit.similarity best in
            (q, f, found, none_more, a)
      ]
