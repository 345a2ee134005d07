-- ===== src/Tests/Cached.antt =====
-- The semantic cache at concrete inputs.
use llm_dashboard.Base.{
  ℕ, ◌≡◌, refl, some, List, [], ◌∷◌, String, arith, All, ◌⊎◌, str_eq, if◌then◌else◌,
}
use llm_dashboard.SemanticCache.{
  Encoder, Link, Hit, lookup, store, entries_at, answer_at, best_match,
}
use llm_dashboard.SemanticCache.Best.{Found, NoneBetter, lookup-hit}
use llm_dashboard.SemanticCache.Isolation.{
  Call, stores, WasStored, Completes, run, lookup-WasStored,
}

-- A prompt is its own embedding, and similar to itself only.
abbrev exact : Encoder String
exact = record {
  compute_embedding = λ s. some s;
  similarity = λ a b. if str_eq a b then 100 else 10;
  embedding_hash = λ s. s;
}

abbrev sound_link : ℕ → Link
sound_link now = record { now = now; reaches = 5 }

abbrev calls : List Call
calls =
    stores (sound_link 20) "hello" "hi" "acme" "gpt-4o" 3600
    ∷ stores (sound_link 10) "hello" "salut" "globex" "gpt-4o" 3600
    ∷ []

calls-Completes : All Completes calls
calls-Completes = omega arith

abbrev found : Hit
found = record {
  answer = record { response = "hi"; model = "gpt-4o"; cached_at = 20 };
  similarity = 100;
  entry_id = "hello";
}

hits : (lookup exact (sound_link 30) "hello" "acme" "gpt-4o" 95 (run exact calls)).1 ≡ some found
unfolding lookup run best_match entries_at answer_at store
hits = refl

lookup-WasStored_example :
    WasStored "acme" found.answer calls
    × ((found.answer.model ≡ "")
        ⊎ ((found.answer.model ≡ "") ⊎ (found.answer.model ≡ found.answer.model)))
unfolding lookup run best_match entries_at answer_at store
lookup-WasStored_example =
    lookup-WasStored exact calls (sound_link 30) "hello" "acme" "gpt-4o" 95 found calls-Completes
      refl

lookup-hit_example :
    (q : String) × (some "hello" ≡ some q)
    × Found exact q "gpt-4o" 95 "hello" 100 (entries_at 30 ((run exact calls).index "acme"))
    × NoneBetter exact q "gpt-4o" 95 100 (entries_at 30 ((run exact calls).index "acme"))
    × (answer_at 30 ((run exact calls).answers "acme" "hello") ≡ some found.answer)
unfolding lookup run best_match entries_at answer_at store
lookup-hit_example =
    lookup-hit exact (sound_link 30) "hello" "acme" "gpt-4o" 95 (run exact calls) found refl

-- A store that fails before its last command leaves the entry of the new model with the answer of
-- the old one.
torn_store :
    (lookup exact
      (sound_link 30)
      "hello"
      "acme"
      "gpt-4o-mini"
      95
      (store exact
        (record { now = 25; reaches = 2 })
        "hello"
        "hey"
        "acme"
        "gpt-4o-mini"
        3600
        (run exact calls)).0).1
    ≡ some found
unfolding lookup run best_match entries_at answer_at store
torn_store = refl
