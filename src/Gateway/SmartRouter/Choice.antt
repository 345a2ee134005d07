-- ===== src/Gateway/SmartRouter/Choice.antt =====
-- Which model the router chooses: always a cheaper known one that the classifier trusts, and of
-- these the one that costs most.
use llm_dashboard.Base.{
  ℕ, ◌≤◌, ◌<◌, ◌≡◌, refl, ap, ◌∙◌, Bool, true, false, Option, none, some, List, [], ◌∷◌, String,
  ltb, arith, ◌⊎◌, ◌≢◌, inl, inr, In, All, filter, Bool-cases, Option-cases, ltb→lt, length,
}
use llm_dashboard.Gateway.SmartRouter.{
  SmartRouter, Classifier, Sample, model_cost_tiers, model_cost, names, cheaper_models, is_viable,
  best_route, route, is_ready, has_label, train, min_training_samples, trained,
}

-- Costs never fall along the table.
abbrev IsAscending : List (String × ℕ) → Type 0
IsAscending [] = Unit
IsAscending (t ∷ tiers) = All (λ u. t.1 ≤ u.1) tiers × IsAscending tiers

All-In :
    (k : ℕ) (tiers : List (String × ℕ)) (u : String × ℕ)
    → All (λ t. k ≤ t.1) tiers
    → In u tiers
    → k ≤ u.1
All-In k [] u h m = absurd m
All-In k (t ∷ tiers) u h (inl e) = rw e h.0
All-In k (t ∷ tiers) u h (inr m) = All-In k tiers u h.1 m

-- A candidate of the table that is cheaper than `limit`, is viable, and that no viable cheaper
-- candidate of the table exceeds in cost.
pub record IsDearest (tiers : List (String × ℕ)) (limit : ℕ) (viable : String → Bool) (c : String)
    : Type 0 where
  pub cost : ℕ
  pub listed : In (c, cost) tiers
  pub cheaper : cost < limit
  pub trusted : viable c ≡ true
  pub dearest : (n : String) (j : ℕ) → In (n, j) tiers → j < limit → viable n ≡ true → j ≤ cost

NoneViable : List (String × ℕ) → ℕ → (String → Bool) → Type 0
NoneViable tiers limit viable =
    (n : String) (j : ℕ) → In (n, j) tiers → j < limit → viable n ≡ false

module _ (limit : ℕ) (viable : String → Bool) where
  abbrev options : List (String × ℕ) → List String
  options tiers = names (filter (λ t. ltb t.1 limit) tiers)

  Result : List (String × ℕ) → Option String → String → Type 0
  Result tiers best c =
      ((best ≡ some c) × NoneViable tiers limit viable) ⊎ IsDearest tiers limit viable c

  -- An entry that is not a viable cheaper candidate changes nothing.
  skip-Result :
      (t : String × ℕ) (tiers : List (String × ℕ)) (best : Option String) (c : String)
      → (t.1 < limit → viable t.0 ≡ false)
      → Result tiers best c
      → Result (t ∷ tiers) best c
  unfolding Result NoneViable
  skip-Result t tiers best c off (inl (e, quiet)) = inl (
    e,
    λ n j m lt. elim m [
      | inl p ↦
          ap (λ (u : String × ℕ). viable u.0) p ∙ off (rw (← ap (λ (u : String × ℕ). u.1) p) lt)
      | inr r ↦ quiet n j r lt
    ],
  )
  skip-Result t tiers best c off (inr d) = inr (record {
    cost = d.cost;
    listed = inr d.listed;
    cheaper = d.cheaper;
    trusted = d.trusted;
    dearest = λ n j m lt v. elim m [
      | inl p ↦ absurd (
          let w = off (rw (← ap (λ (u : String × ℕ). u.1) p) lt) in
          let q : n ≡ t.0 = ap (λ (u : String × ℕ). u.0) p in ground (arith, ap viable q))
      | inr r ↦ d.dearest n j r lt v
    ];
  })

  -- A viable cheaper entry replaces the best so far.
  take-Result :
      (t : String × ℕ) (tiers : List (String × ℕ)) (best : Option String) (c : String)
      → All (λ u. t.1 ≤ u.1) tiers
      → t.1 < limit
      → viable t.0 ≡ true
      → Result tiers (some t.0) c
      → Result (t ∷ tiers) best c
  unfolding Result NoneViable
  take-Result t tiers best c asc lt good (inl (e, quiet)) =
      let q : t.0 ≡ c = ground arith in
      inr (record {
        cost = t.1;
        listed = inl (rw (← q) refl);
        cheaper = lt;
        trusted = rw (← q) good;
        dearest = λ n j m jl v. elim m [
          | inl p ↦ omega (arith, ap (λ (u : String × ℕ). u.1) p)
          | inr r ↦ absurd (let w = quiet n j r jl in ground arith)
        ];
      })
  take-Result t tiers best c asc lt good (inr d) = inr (record {
    cost = d.cost;
    listed = inr d.listed;
    cheaper = d.cheaper;
    trusted = d.trusted;
    dearest = λ n j m jl v. elim m [
      | inl p ↦
          omega (arith, ap (λ (u : String × ℕ). u.1) p, All-In t.1 tiers (c, d.cost) asc d.listed)
      | inr r ↦ d.dearest n j r jl v
    ];
  })

  best_route-Result :
      (tiers : List (String × ℕ)) (best : Option String) (c : String)
      → IsAscending tiers
      → best_route viable best (options tiers) ≡ some c
      → Result tiers best c
  unfolding best_route names Result NoneViable
  best_route-Result [] best c asc h = inl (h, λ n j m. absurd m)
  best_route-Result (t ∷ tiers) best c asc h = elim (Bool-cases (ltb t.1 limit)) [
    | inr dear ↦
        skip-Result t tiers best c (λ lt. ground arith)
          (best_route-Result tiers best c asc.1 (rw (dear) at h))
    | inl cheap ↦ elim (Bool-cases (viable t.0)) [
      | inl good ↦
          take-Result t tiers best c asc.0 (ltb→lt _ _ cheap) good
            (best_route-Result tiers (some t.0) c asc.1 (ground arith))
      | inr bad ↦
          skip-Result t tiers best c (λ lt. bad)
            (best_route-Result tiers best c asc.1 (ground arith))
    ]
  ]

tiers-IsAscending : IsAscending model_cost_tiers
tiers-IsAscending = omega arith

-- If the router names a model, then it is trained on at least 50 samples, the requested model is
-- in the table, and the named model is cheaper than it, known and trusted by the classifier; among
-- all such candidates of the table the named one has the highest cost, not the lowest.
pub route-IsDearest :
    (s : SmartRouter) (m : String) (i o conf : ℕ) (c : String)
    → route s m i o conf ≡ some c
    → (clf : Classifier) × (s.model ≡ some clf)
      × (50 ≤ s.sample_count)
      × (cost : ℕ) × (model_cost model_cost_tiers m ≡ some cost)
      × IsDearest model_cost_tiers cost (is_viable s clf i o conf) c
unfolding route cheaper_models Result NoneViable min_training_samples
route-IsDearest s m i o conf c h = elim (Option-cases s.model) [
  | inl e ↦ absurd (ground arith)
  | inr (clf, e) ↦ elim (Option-cases (model_cost model_cost_tiers m)) [
    | inl f ↦ absurd (ground arith)
    | inr (cost, f) ↦
        let r =
          best_route-Result cost (is_viable s clf i o conf) model_cost_tiers none c
            tiers-IsAscending (ground arith) in
        (clf, e, ground arith, cost, f, elim r [ inl (p, _) ↦ absurd (ground arith) | inr d ↦ d ])
  ]
]

-- Training reports success only on at least 50 samples with both a good and a bad one; then the
-- router is ready and holds the fitted classifier. In every other case nothing of it changes.
pub train-is_ready :
    (fit : List Sample → Classifier) (now : ℕ) (s : SmartRouter) (samples : List Sample)
    → let (s', status) = train fit now s samples in
      ((status ≡ trained)
        × (is_ready s' ≡ true)
        × (s'.model ≡ some (fit samples))
        × (50 ≤ length samples)
        × (has_label true 7000 samples ≡ true)
        × (has_label false 7000 samples ≡ true))
      ⊎ ((status ≢ trained) × (s' ≡ s))
unfolding train is_ready min_training_samples
train-is_ready fit now s samples = ground arith
