-- ===== src/SemanticCache/Isolation.antt =====
-- Whose answers a tenant can get.
use mathlib.Core.Path.{subst}
use mathlib.Core.Option.{none-ne-some, some-injective}
use llm_dashboard.Base.{
  ℕ, ◌+◌, ◌≡◌, ◌≤◌, refl, sym, ap, ◌∙◌, true, false, not, ◌&&◌, Option, none, some, List, [], ◌∷◌,
  String, str_eq, eq_iff, arith, Bool-cases, Option-cases, inl, inr, ◌⊎◌, All, In, In-filter,
}
use llm_dashboard.SemanticCache.{
  Cache, Index, IndexEntry, Encoder, Link, Hit, Answer, Timed, compatible, lookup, store, put_index,
  extend_index, put_answer, invalidate_tenant, set_index, set_answer, hset, hdel, entries_at,
  answer_at,
}
use llm_dashboard.SemanticCache.Shrinks.{
  Within, entries-In, In-set_index, answers-set_answer, lookup-Within, invalidate-Within,
  Within-refl,
}
use llm_dashboard.SemanticCache.Best.{lookup-hit}

pub data Call : Type 0 where
  stores : Link → String → String → String → String → ℕ → Call
  looks_up : Link → String → String → String → ℕ → Call
  invalidates : ℕ → String → Call

-- A store of the answer, with its model, for the tenant.
abbrev pub Stores : String → Answer → Call → Type 0
Stores tenant a (stores l prompt response t model ttl) =
    (t ≡ tenant) × (model ≡ a.model) × (response ≡ a.response)
Stores tenant a (looks_up l prompt t model threshold) = ⊥
Stores tenant a (invalidates now t) = ⊥

-- Some call has stored the answer for the tenant.
abbrev pub WasStored : String → Answer → List Call → Type 0
WasStored tenant a [] = ⊥
WasStored tenant a (c ∷ cs) = Stores tenant a c ⊎ WasStored tenant a cs

-- No command of a store fails half-way.
abbrev pub Completes : Call → Type 0
Completes (stores l prompt response t model ttl) = 3 ≤ l.reaches
Completes (looks_up l prompt t model threshold) = Unit
Completes (invalidates now t) = Unit

answer_kept :
    (now : ℕ) (o : Option (Timed Answer)) (a : Answer)
    → answer_at now o ≡ some a
    → (kept : Timed Answer) × (o ≡ some kept) × (kept.value ≡ a)
unfolding answer_at
answer_kept now none a e = absurd (none-ne-some a e)
answer_kept now (some t) a e = (t, refl, ground arith)

compatible-cases :
    {E : Type 0} (model : String) (x : IndexEntry E)
    → compatible model x ≡ true
    → (model ≡ "") ⊎ ((x.model ≡ "") ⊎ (x.model ≡ model))
unfolding compatible
compatible-cases model x h = elim (Bool-cases (str_eq model "")) [
  | inl t ↦ inl ((eq_iff model "").0 t)
  | inr f ↦ elim (Bool-cases (str_eq x.model "")) [
    | inl t ↦ inr (inl ((eq_iff x.model "").0 t))
    | inr g ↦ inr (inr ((eq_iff x.model model).0 (ground arith)))
  ]
]

module _ {E : Type 0} (m : Encoder E) where
  unfoldable pub step : Call → Cache E → Cache E
  step (stores l prompt response t model ttl) c = (store m l prompt response t model ttl c).0
  step (looks_up l prompt t model threshold) c = (lookup m l prompt t model threshold c).0
  step (invalidates now t) c = (invalidate_tenant now t c).0

  -- The last call stands first.
  unfoldable pub run : List Call → Cache E
  unfolding step
  run [] = record { index = λ _. record { value = []; expires_at = none }; answers = λ _ _. none }
  run (call ∷ earlier) = step call (run earlier)

  -- Every answer was stored for its tenant, and an entry of the index has the model of its answer.
  record IsSound (c : Cache E) (log : List Call) : Type 0 where
    stored : (t i : String) (a : Timed Answer) → c.answers t i ≡ some a → WasStored t a.value log
    agrees :
        (t i : String) (e : IndexEntry E) (a : Timed Answer)
        → In (i, e) (c.index t).value
        → c.answers t i ≡ some a
        → e.model ≡ a.value.model

  Within-IsSound :
      (c d : Cache E) (call : Call) (log : List Call)
      → Within m c d
      → IsSound c log
      → IsSound d (call ∷ log)
  Within-IsSound c d call log w s = record {
    stored = λ t i a e. inr (s.stored t i a (w.answers t i a e));
    agrees = λ t i e a m f. s.agrees t i e a (w.entries t i e m) (w.answers t i a f);
  }

  abbrev new_entry : Link → E → String → IndexEntry E
  new_entry l q model = record { embedding = q; model = model; cached_at = l.now }

  abbrev extended : Link → E → String → String → ℕ → Cache E → Cache E
  extended l q tenant model ttl c = extend_index m l tenant ttl (put_index m l q tenant model c)

  hset-In :
      (i j : String) (e x : IndexEntry E) (xs : Index E)
      → In (j, x) (hset i e xs)
      → ((j ≡ i) × (x ≡ e)) ⊎ ((str_eq i j ≡ false) × In (j, x) xs)
  unfolding hset hdel
  hset-In i j e x xs (inl q) =
      inl (ap (λ (p : String × IndexEntry E). p.0) q, ap (λ (p : String × IndexEntry E). p.1) q)
  hset-In i j e x xs (inr h) =
      let (here, other) = (In-filter (λ p. not (str_eq p.0 i)) (j, x) xs).0 h in
      inr (ground (arith, eq_iff i j, eq_iff j i), here)

  put_index-In :
      (l : Link) (q : E) (tenant model : String) (c : Cache E) (t i : String) (x : IndexEntry E)
      → In (i, x) ((put_index m l q tenant model c).index t).value
      → ((tenant ≡ t) × (i ≡ m.embedding_hash q) × (x ≡ new_entry l q model))
        ⊎ (((str_eq tenant t && str_eq (m.embedding_hash q) i) ≡ false)
            × In (i, x) (c.index t).value)
  unfolding put_index
  put_index-In l q tenant model c t i x h = elim (In-set_index m tenant t _ c (i, x) h) [
    | inr (d, k) ↦ inr (rw d refl, k)
    | inl (et, k) ↦
        elim (hset-In (m.embedding_hash q) i (new_entry l q model) x
          (entries_at l.now (c.index tenant)) k) [
            | inl (ei, ex) ↦ inl (et, ei, ex)
            | inr (d, k') ↦
                inr (ground (arith), rw (← et) (entries-In m l.now (c.index tenant) (i, x) k'))
          ]
  ]

  -- The entries of the index after the first two commands of a store.
  extended-In :
      (l : Link) (q : E) (tenant model : String) (ttl : ℕ) (c : Cache E) (t i : String)
      (x : IndexEntry E)
      → In (i, x) ((extended l q tenant model ttl c).index t).value
      → ((tenant ≡ t) × (i ≡ m.embedding_hash q) × (x ≡ new_entry l q model))
        ⊎ (((str_eq tenant t && str_eq (m.embedding_hash q) i) ≡ false)
            × In (i, x) (c.index t).value)
  unfolding extend_index
  extended-In l q tenant model ttl c t i x h =
      let indexed = put_index m l q tenant model c in
      elim (In-set_index m tenant t _ indexed (i, x) h) [
        | inl (et, k) ↦
            put_index-In l q tenant model c t i x
              (subst (λ (z : String). In (i, x) (indexed.index z).value) et k)
        | inr (d, k) ↦ put_index-In l q tenant model c t i x k
      ]

  completed :
      (l : Link) (q : E) (prompt response tenant model : String) (ttl : ℕ) (c : Cache E)
      → 3 ≤ l.reaches
      → m.compute_embedding prompt ≡ some q
      → (store m l prompt response tenant model ttl c).0
        ≡ put_answer m l q response tenant model ttl (extended l q tenant model ttl c)
  unfolding store
  completed l q prompt response tenant model ttl c h e = rw (e, store) (ground arith)

  new_answer : Link → String → String → ℕ → Timed Answer
  new_answer l response model ttl = record {
    value = record { response = response; model = model; cached_at = l.now };
    expires_at = some (l.now + ttl);
  }

  extended-answers :
      (l : Link) (q : E) (tenant model : String) (ttl : ℕ) (c : Cache E) (t i : String)
      → (extended l q tenant model ttl c).answers t i ≡ c.answers t i
  unfolding extend_index put_index set_index
  extended-answers l q tenant model ttl c t i = refl

  answers-put :
      (l : Link) (q : E) (response tenant model : String) (ttl : ℕ) (c : Cache E) (t i : String)
      (a : Timed Answer)
      → (put_answer m l q response tenant model ttl (extended l q tenant model ttl c)).answers t i
        ≡ some a
      → ((tenant ≡ t) × (m.embedding_hash q ≡ i) × (new_answer l response model ttl ≡ a))
        ⊎ (((str_eq tenant t && str_eq (m.embedding_hash q) i) ≡ false) × (c.answers t i ≡ some a))
  unfolding put_answer new_answer
  answers-put l q response tenant model ttl c t i a e =
      let before = extended l q tenant model ttl c in
      elim (answers-set_answer m tenant t (m.embedding_hash q) i
        (some (new_answer l response model ttl)) before a e) [
          | inl (et, ei, f) ↦ inl (et, ei, some-injective _ _ f)
          | inr (d, f) ↦ inr (d, sym (extended-answers l q tenant model ttl c t i) ∙ f)
        ]

  put-IsSound :
      (l : Link) (q : E) (prompt response tenant model : String) (ttl : ℕ) (c : Cache E)
      (log : List Call)
      → IsSound c log
      → IsSound
          (put_answer m l q response tenant model ttl (extended l q tenant model ttl c))
          (stores l prompt response tenant model ttl ∷ log)
  unfolding put_answer set_answer new_answer
  put-IsSound l q prompt response tenant model ttl c log s = record {
    stored = λ t i a e. elim (answers-put l q response tenant model ttl c t i a e) [
      | inl (et, ei, f) ↦ inl (
        et,
        ap (λ (z : Timed Answer). z.value.model) f,
        ap (λ (z : Timed Answer). z.value.response) f,
      )
      | inr (d, f) ↦ inr (s.stored t i a f)
    ];
    agrees = λ t i x a k e. elim (answers-put l q response tenant model ttl c t i a e) [
      | inl (et, ei, f) ↦ elim (extended-In l q tenant model ttl c t i x k) [
        | inl (et', ei', ex) ↦
            ap (λ (z : IndexEntry E). z.model) ex ∙ ap (λ (z : Timed Answer). z.value.model) f
        | inr (d, k') ↦ absurd (ground (arith, eq_iff tenant t, eq_iff (m.embedding_hash q) i))
      ]
      | inr (d, f) ↦ elim (extended-In l q tenant model ttl c t i x k) [
        | inl (et', ei', ex) ↦
            absurd (ground (arith, eq_iff tenant t, eq_iff (m.embedding_hash q) i))
        | inr (d', k') ↦ s.agrees t i x a k' f
      ]
    ];
  }

  store-IsSound :
      (l : Link) (prompt response tenant model : String) (ttl : ℕ) (c : Cache E) (log : List Call)
      → 3 ≤ l.reaches
      → IsSound c log
      → IsSound
          (store m l prompt response tenant model ttl c).0
          (stores l prompt response tenant model ttl ∷ log)
  unfolding store
  store-IsSound l prompt response tenant model ttl c log h s =
      elim (Option-cases (m.compute_embedding prompt)) [
        | inl n ↦
            rw (n, store)
              (Within-IsSound c c (stores l prompt response tenant model ttl) log (Within-refl m c)
                s)
        | inr (q, e) ↦
            rw (completed l q prompt response tenant model ttl c h e)
              (put-IsSound l q prompt response tenant model ttl c log s)
      ]

  run-IsSound : (calls : List Call) → All Completes calls → IsSound (run calls) calls
  unfolding run
  run-IsSound [] h = record {
    stored = λ t i a e. absurd (none-ne-some a e);
    agrees = λ t i e a k f. absurd k;
  }
  run-IsSound (stores l prompt response t model ttl ∷ log) h =
      store-IsSound l prompt response t model ttl (run log) log h.0 (run-IsSound log h.1)
  run-IsSound (looks_up l prompt t model threshold ∷ log) h =
      Within-IsSound (run log) _ (looks_up l prompt t model threshold) log
        (lookup-Within m l prompt t model threshold (run log)) (run-IsSound log h.1)
  run-IsSound (invalidates now t ∷ log) h =
      Within-IsSound (run log) _ (invalidates now t) log (invalidate-Within m now t (run log))
        (run-IsSound log h.1)

  -- A tenant gets only its own answers: after any sequence of calls that begins with the empty
  -- cache and in which no store fails half-way, a hit of a lookup has an answer that a call stored
  -- for the same tenant, and the model that was stored with it is the one asked for, if both are
  -- given.
  pub lookup-WasStored :
      (calls : List Call) (l : Link) (prompt tenant model : String) (threshold : ℕ) (hit : Hit)
      → All Completes calls
      → (lookup m l prompt tenant model threshold (run calls)).1 ≡ some hit
      → WasStored tenant hit.answer calls
        × ((model ≡ "") ⊎ ((hit.answer.model ≡ "") ⊎ (hit.answer.model ≡ model)))
  lookup-WasStored calls l prompt tenant model threshold hit h e =
      let sound = run-IsSound calls h in
      let (q, f, (x, here, fits, reached, sim), none_more, a) =
        lookup-hit m l prompt tenant model threshold (run calls) hit e in
      let (kept, g, same) =
        answer_kept l.now ((run calls).answers tenant hit.entry_id) hit.answer a in
      let own = entries-In m l.now ((run calls).index tenant) (hit.entry_id, x) here in
      let agrees = sound.agrees tenant hit.entry_id x kept own g in
      let model_of = agrees ∙ ap (λ (z : Answer). z.model) same in
      (
        subst (λ (z : Answer). WasStored tenant z calls) same
            (sound.stored tenant hit.entry_id kept g),
        subst (λ (z : String). (model ≡ "") ⊎ ((z ≡ "") ⊎ (z ≡ model))) model_of
            (compatible-cases model x fits),
      )
