-- ===== src/RateLimit/Window.antt =====
-- The window's guarantee over any sequence of requests.
use llm_dashboard.Base.{
  ℕ, ◌+◌, ◌-◌, ◌≤◌, ◌<◌, ◌≡◌, refl, sym, ap, ◌∙◌, Bool, true, false, ◌&&◌, List, [], ◌∷◌, ◌++◌,
  String, str_eq, eq_iff, eq_refl, arith, ltb, leb, if◌then◌else◌, length, filter, All, Bool-cases,
  inl, inr,
}
use llm_dashboard.RateLimit.{
  Request, Limiter, Response, passed, window, is_recent, cleanup_old_entries, rate_key,
  get_rate_limit, check_limit, set_requests, dispatch, is_exempt,
}
use llm_dashboard.RateLimit.Filters.{filter-filter, filter-append, length-append, length-filter}

pub record Attempt : Type 0 where
  pub now : ℕ
  pub request : Request

unfoldable pub is_passed : Response → Bool
is_passed (passed _ _) = true
is_passed _ = false

-- The times at which requests of each key have passed, the oldest first.
abbrev pub History : Type 0
History = String → List ℕ

unfoldable pub note : String → ℕ → Bool → History → History
note key now b h j = if b && str_eq key j then h j ++ now ∷ [] else h j

-- The requests, one after another.
unfoldable pub serve : (String → String) → List Attempt → Limiter × History → Limiter × History
unfolding is_passed note
serve first_hop [] s = s
serve first_hop (a ∷ attempts) (l, h) =
    let (l', answer) = dispatch first_hop a.now a.request l in
    serve first_hop attempts (l', note (rate_key first_hop a.request) a.now (is_passed answer) h)

-- The time falls in the minute that ends at `s`.
unfoldable pub in_window : ℕ → ℕ → Bool
in_window s t = leb t s && ltb s (t + window)

-- The clock does not run backwards from `start`.
abbrev pub IsMonotone : ℕ → List Attempt → Type 0
IsMonotone start [] = Unit
IsMonotone start (a ∷ attempts) = (start ≤ a.now) × IsMonotone a.now attempts

-- What is known of one key after some requests.
record Holds (key : String) (limit now : ℕ) (l : Limiter) (h : History) : Type 0 where
  agrees : (t : ℕ) → now ≤ t → filter (is_recent t) (l.requests key) ≡ filter (is_recent t) (h key)
  bounded : (s : ℕ) → length (filter (in_window s) (h key)) ≤ limit

later_recent : (now t x : ℕ) → now ≤ t → is_recent t x ≡ true → is_recent now x ≡ true
unfolding is_recent
later_recent now t x le h = ground arith

in_window_recent : (now s x : ℕ) → now ≤ s → in_window s x ≡ true → is_recent now x ≡ true
unfolding in_window is_recent
in_window_recent now s x le h = ground arith

in_window_early : (now s : ℕ) → s < now → in_window s now ≡ false
unfolding in_window
in_window_early now s lt = ground arith

cleanup-agrees :
    (now t : ℕ) (key : String) (l : Limiter)
    → now ≤ t
    → filter (is_recent t) ((cleanup_old_entries now l).requests key)
      ≡ filter (is_recent t) (l.requests key)
unfolding cleanup_old_entries
cleanup-agrees now t key l le = elim (Bool-cases (ltb (now - l.last_cleanup) 60000)) [
  | inl young ↦ rw young refl
  | inr old ↦ rw old (
      filter-filter (is_recent t) (is_recent now) (l.requests key)
        (λ x r. later_recent now t x le r))
]

-- One more passed request fits every minute if it fits the one that ends now.
bounded_step :
    (limit now s : ℕ) (xs : List ℕ)
    → ((t : ℕ) → length (filter (in_window t) xs) ≤ limit)
    → length (filter (is_recent now) xs) < limit
    → length (filter (in_window s) (xs ++ now ∷ [])) ≤ limit
bounded_step limit now s xs old fits =
    let parts = filter-append (in_window s) xs (now ∷ []) in
    let both = length-append (filter (in_window s) xs) (filter (in_window s) (now ∷ [])) in
    rw parts (elim (Bool-cases (leb now s)) [
      | inl late ↦
          let fewer =
            length-filter (in_window s) (is_recent now) xs
              (λ x w. in_window_recent now s x (ground arith) w) in
          let one = length-filter (in_window s) (λ _. true) (now ∷ []) (λ _ _. refl) in
          omega (arith, both, fewer, one, fits)
      | inr early ↦
          let none_new = in_window_early now s (ground arith) in
          let here = old s in ground (arith, both)
    ])

module _ (key : String) (limit now : ℕ) where
  -- A request with another key leaves what is known of this one.
  other-Holds :
      (other : String) (rate : ℕ) (recent : List ℕ) (l : Limiter) (h : History)
      → str_eq other key ≡ false
      → Holds key limit now l h
      → let r = check_limit now rate other recent l in
        Holds key limit now r.0 (note other now (is_passed r.1) h)
  unfolding check_limit set_requests note is_passed
  other-Holds other rate recent l h off k = elim (Bool-cases (leb rate (length recent))) [
    | inl full ↦
        rw full (record { agrees = λ t le. rw off (k.agrees t le); bounded = λ s. k.bounded s })
    | inr free ↦
        rw free
          (record { agrees = λ t le. rw off (k.agrees t le); bounded = λ s. rw off (k.bounded s) })
  ]

  own-Holds :
      (rate : ℕ) (recent : List ℕ) (l : Limiter) (h : History)
      → rate ≤ limit
      → recent ≡ filter (is_recent now) (l.requests key)
      → Holds key limit now l h
      → let r = check_limit now rate key recent l in
        Holds key limit now r.0 (note key now (is_passed r.1) h)
  unfolding check_limit set_requests note is_passed
  own-Holds rate recent l h le same k =
      let seen : (t : ℕ) → now ≤ t → filter (is_recent t) recent ≡ filter (is_recent t) (h key) =
        λ t n.
          ap (filter (is_recent t)) same
          ∙ (filter-filter (is_recent t) (is_recent now) (l.requests key)
                (λ x r. later_recent now t x n r)
              ∙ k.agrees t n) in
      elim (Bool-cases (leb rate (length recent))) [
        | inl full ↦
            rw full
              (record { agrees = λ t n. rw (eq_refl key) (seen t n); bounded = λ s. k.bounded s })
        | inr free ↦
            let fits : length (filter (is_recent now) (h key)) < limit =
              rw (← (same ∙ k.agrees now (omega arith))) (ground arith) in
            rw free (record {
              agrees = λ t n. rw (eq_refl key) (
                  filter-append (is_recent t) recent (now ∷ [])
                  ∙ (ap (λ z. z ++ filter (is_recent t) (now ∷ [])) (seen t n)
                      ∙ sym (filter-append (is_recent t) (h key) (now ∷ []))));
              bounded = λ s. rw (eq_refl key) (bounded_step limit now s (h key) k.bounded fits);
            })
      ]

-- Time passes and old timestamps are dropped.
cleanup-Holds :
    (key : String) (limit start now : ℕ) (l : Limiter) (h : History)
    → start ≤ now
    → Holds key limit start l h
    → Holds key limit now (cleanup_old_entries now l) h
cleanup-Holds key limit start now l h le k = record {
  agrees = λ t n. cleanup-agrees now t key l n ∙ k.agrees t (omega arith);
  bounded = k.bounded;
}

-- A request with the key has at most this limit.
abbrev pub Obeys : (String → String) → String → ℕ → Attempt → Type 0
Obeys first_hop key limit a =
    rate_key first_hop a.request ≡ key → get_rate_limit a.request.path a.request.method ≤ limit

module _ (first_hop : String → String) (key : String) (limit : ℕ) where
  dispatch-Holds :
      (start : ℕ) (a : Attempt) (l : Limiter) (h : History)
      → start ≤ a.now
      → (rate_key first_hop a.request ≡ key
          → get_rate_limit a.request.path a.request.method ≤ limit)
      → Holds key limit start l h
      → let r = dispatch first_hop a.now a.request l in
        Holds key limit a.now r.0 (note (rate_key first_hop a.request) a.now (is_passed r.1) h)
  unfolding dispatch is_passed note
  dispatch-Holds start a l h le obey k =
      let mine = rate_key first_hop a.request in
      let rate = get_rate_limit a.request.path a.request.method in
      let cleaned = cleanup_old_entries a.now l in
      let now_known = cleanup-Holds key limit start a.now l h le k in
      elim (Bool-cases (is_exempt a.request.path)) [
        | inl e ↦ rw e (record { agrees = λ t n. k.agrees t (omega arith); bounded = k.bounded })
        | inr e ↦ rw e (elim (Bool-cases (str_eq mine key)) [
          | inr off ↦ other-Holds key limit a.now mine rate _ cleaned h off now_known
          | inl on ↦
              let same = (eq_iff mine key).0 on in
              rw same (own-Holds key limit a.now rate _ cleaned h (obey same) refl now_known)
        ])
      ]

  serve-Holds :
      (start : ℕ) (attempts : List Attempt) (l : Limiter) (h : History)
      → IsMonotone start attempts
      → All (Obeys first_hop key limit) attempts
      → Holds key limit start l h
      → (s : ℕ) → length (filter (in_window s) ((serve first_hop attempts (l, h)).1 key)) ≤ limit
  unfolding serve
  serve-Holds start [] l h m o k s = k.bounded s
  serve-Holds start (a ∷ attempts) l h m o k s =
      let r = dispatch first_hop a.now a.request l in
      serve-Holds a.now attempts r.0 (note (rate_key first_hop a.request) a.now (is_passed r.1) h)
        m.1 o.1 (dispatch-Holds start a l h m.0 o.0 k) s

  -- Start with a fresh limiter, take any sequence of requests on a clock that does not run backwards, and a key
  -- none of whose requests has more than the given limit. Then in every minute, wherever it ends, at most that
  -- many requests of the key pass.
  pub serve_bounded :
      (created : ℕ) (attempts : List Attempt)
      → IsMonotone 0 attempts
      → All (Obeys first_hop key limit) attempts
      → (s : ℕ)
      → length (
          filter (in_window s) (
            (serve first_hop attempts
                (record { requests = λ _. []; last_cleanup = created }, λ _. [])).1
              key))
        ≤ limit
  serve_bounded created attempts m o s =
      serve-Holds 0 attempts (record { requests = λ _. []; last_cleanup = created }) (λ _. []) m o
        (record { agrees = λ t n. refl; bounded = λ t. omega arith }) s
