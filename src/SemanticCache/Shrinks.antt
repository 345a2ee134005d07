-- ===== src/SemanticCache/Shrinks.antt =====
-- Lookups and invalidations only take entries and answers away.
use mathlib.Core.Option.{none-ne-some}
use llm_dashboard.Base.{
  ℕ, ◌≡◌, refl, Bool, true, false, not, ◌&&◌, Option, none, some, [], ◌∷◌, String, str_eq, eq_iff,
  arith, Bool-cases, Option-cases, inl, inr, ◌⊎◌, In, In-filter, if◌then◌else◌, ltb,
}
use llm_dashboard.SemanticCache.{
  has_time, best_match, Cache, Index, IndexEntry, Encoder, Link, Answer, Timed, lookup,
  lookup_embedding, invalidate_tenant, drop_answers, set_index, set_answer, hdel, entries_at,
  answer_at,
}

module _ {E : Type 0} (m : Encoder E) where
  -- A cache with no more answers and entries.
  pub record Within (c d : Cache E) : Type 0 where
    pub answers :
        (t i : String) (a : Timed Answer) → d.answers t i ≡ some a → c.answers t i ≡ some a
    pub entries :
        (t i : String) (e : IndexEntry E)
        → In (i, e) (d.index t).value
        → In (i, e) (c.index t).value

  pub entries-In :
      (now : ℕ) (t : Timed (Index E)) (p : String × IndexEntry E)
      → In p (entries_at now t)
      → In p t.value
  unfolding entries_at
  entries-In now t p =
      elim (has_time now t.expires_at) as (λ b. In p (if b then t.value else []) → In p t.value) [
        | true ↦ λ h. h
        | false ↦ λ h. absurd h
      ]

  picked :
      (p : String × IndexEntry E) (b : Bool) (x y : Timed (Index E))
      → In p (if b then x else y).value
      → ((b ≡ true) × In p x.value) ⊎ ((b ≡ false) × In p y.value)
  picked p true x y h = inl (refl, h)
  picked p false x y h = inr (refl, h)

  pub In-set_index :
      (tenant t : String) (x : Timed (Index E)) (c : Cache E) (p : String × IndexEntry E)
      → In p ((set_index tenant x c).index t).value
      → ((tenant ≡ t) × In p x.value) ⊎ ((str_eq tenant t ≡ false) × In p (c.index t).value)
  unfolding set_index
  In-set_index tenant t x c p h = elim (picked p (str_eq tenant t) x (c.index t) h) [
    | inl (e, k) ↦ inl ((eq_iff tenant t).0 e, k)
    | inr (e, k) ↦ inr (e, k)
  ]

  pub answers-set_answer :
      (tenant t i j : String) (x : Option (Timed Answer)) (c : Cache E) (a : Timed Answer)
      → (set_answer tenant i x c).answers t j ≡ some a
      → ((tenant ≡ t) × (i ≡ j) × (x ≡ some a))
        ⊎ (((str_eq tenant t && str_eq i j) ≡ false) × (c.answers t j ≡ some a))
  unfolding set_answer
  answers-set_answer tenant t i j x c a e = elim (Bool-cases (str_eq tenant t && str_eq i j)) [
    | inl s ↦ inl (ground (arith, eq_iff tenant t), ground (arith, eq_iff i j), ground arith)
    | inr d ↦ inr (d, ground arith)
  ]

  shrunk-Within :
      (tenant : String) (x : Timed (Index E)) (c : Cache E)
      → ((p : String × IndexEntry E) → In p x.value → In p (c.index tenant).value)
      → Within c (set_index tenant x c)
  unfolding set_index
  shrunk-Within tenant x c fewer = record {
    answers = λ t i a e. e;
    entries = λ t i e h. elim (In-set_index tenant t x c (i, e) h) [
      | inl (same, k) ↦ rw (← same) (fewer (i, e) k)
      | inr (d, k) ↦ k
    ];
  }

  pub Within-refl : (c : Cache E) → Within c c
  Within-refl c = record { answers = λ t i a e. e; entries = λ t i e h. h }

  hdel-In : (i : String) (xs : Index E) (p : String × IndexEntry E) → In p (hdel i xs) → In p xs
  unfolding hdel
  hdel-In i xs p h = ((In-filter (λ q. not (str_eq q.0 i)) p xs).0 h).0

  -- The cache after a lookup: as it was, or with one entry less.
  Looked : Link → String → Cache E → Cache E → Type 0
  Looked l tenant c d =
      (d ≡ c)
      ⊎ ((i : String) × (d
            ≡ set_index tenant
                (record (c.index tenant) { value = hdel i (entries_at l.now (c.index tenant)) }) c))

  embedding-Looked :
      (l : Link) (q : E) (tenant model : String) (threshold : ℕ) (c : Cache E)
      → Looked l tenant c (lookup_embedding m l q tenant model threshold c).0
  unfolding lookup_embedding Looked
  embedding-Looked l q tenant model threshold c =
      elim (Option-cases (best_match m q model threshold (entries_at l.now (c.index tenant))).0) [
        | inl n ↦ inl (rw (n, lookup_embedding) refl)
        | inr (i, f) ↦ elim (Bool-cases (ltb l.reaches 2)) [
          | inl t ↦ inl (rw (f, lookup_embedding) (rw t refl))
          | inr r ↦ elim (Option-cases (answer_at l.now (c.answers tenant i))) [
            | inr (a, g) ↦ inl (rw (f, lookup_embedding) (rw r (rw g refl)))
            | inl g ↦ elim (Bool-cases (ltb l.reaches 3)) [
              | inl t ↦ inl (rw (f, lookup_embedding) (rw r (rw g (rw t refl))))
              | inr u ↦ inr (i, rw (f, lookup_embedding) (rw r (rw g (rw u refl))))
            ]
          ]
        ]
      ]

  lookup-Looked :
      (l : Link) (prompt tenant model : String) (threshold : ℕ) (c : Cache E)
      → Looked l tenant c (lookup m l prompt tenant model threshold c).0
  unfolding lookup Looked
  lookup-Looked l prompt tenant model threshold c =
      elim (Option-cases (m.compute_embedding prompt)) [
        | inl n ↦ inl (rw (n, lookup) refl)
        | inr (q, f) ↦ elim (Bool-cases (ltb l.reaches 1)) [
          | inl t ↦ inl (rw (f, lookup) (rw t refl))
          | inr r ↦ rw (f, lookup) (rw r (embedding-Looked l q tenant model threshold c))
        ]
      ]

  pub lookup-Within :
      (l : Link) (prompt tenant model : String) (threshold : ℕ) (c : Cache E)
      → Within c (lookup m l prompt tenant model threshold c).0
  unfolding Looked
  lookup-Within l prompt tenant model threshold c =
      elim (lookup-Looked l prompt tenant model threshold c) [
        | inl e ↦ rw e (Within-refl c)
        | inr (i, e) ↦ rw e (
            shrunk-Within tenant _ c (λ p h.
              entries-In l.now (c.index tenant) p
                (hdel-In i (entries_at l.now (c.index tenant)) p h)))
      ]

  Within-trans : (c d e : Cache E) → Within c d → Within d e → Within c e
  Within-trans c d e v w = record {
    answers = λ t i a f. v.answers t i a (w.answers t i a f);
    entries = λ t i x h. v.entries t i x (w.entries t i x h);
  }

  dropped-Within : (tenant i : String) (c : Cache E) → Within c (set_answer tenant i none c)
  unfolding set_answer
  dropped-Within tenant i c = record {
    answers = λ t j a e. elim (answers-set_answer tenant t i j none c a e) [
      | inl (et, ei, f) ↦ absurd (none-ne-some a f)
      | inr (d, f) ↦ f
    ];
    entries = λ t j e h. h;
  }

  drop_answers-Within :
      (tenant : String) (xs : Index E) (c : Cache E) → Within c (drop_answers tenant xs c)
  unfolding drop_answers
  drop_answers-Within tenant [] c = Within-refl c
  drop_answers-Within tenant ((j, x) ∷ xs) c =
      Within-trans c (set_answer tenant j none c) _ (dropped-Within tenant j c)
        (drop_answers-Within tenant xs (set_answer tenant j none c))

  pub invalidate-Within :
      (now : ℕ) (tenant : String) (c : Cache E) → Within c (invalidate_tenant now tenant c).0
  unfolding invalidate_tenant
  invalidate-Within now tenant c =
      let xs = entries_at now (c.index tenant) in
      Within-trans c (drop_answers tenant xs c) _ (drop_answers-Within tenant xs c) (
        shrunk-Within tenant (record { value = []; expires_at = none }) (drop_answers tenant xs c)
          (λ p h. absurd h))
