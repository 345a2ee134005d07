-- ===== src/Auth/Tokens/SingleUse.antt =====
-- A refresh token buys one new pair.
use llm_dashboard.Base.{
  ℕ, ◌≡◌, ◌≢◌, ◌≤◌, refl, true, false, Option, none, some, List, [], ◌∷◌, String, str_eq, eq_iff,
  arith, Bool-cases, Option-cases, inl, inr, All, length, filter,
}
use llm_dashboard.Auth.Accounts.{Users}
use llm_dashboard.Auth.Tokens.{
  Payload, Jwt, IsJwt, Moment, Blacklist, rotate_refresh_token, blacklist_token, is_blacklisted,
  remaining,
}

abbrev lasting : Option ℕ → ℕ
lasting none = 0
lasting (some x) = x

-- The jti stays revoked until the time `exp`.
abbrev Blocks : String → ℕ → Blacklist → Type 0
Blocks jti exp bl = exp ≤ lasting (bl jti)

blacklist_token-Blocks :
    (m : Moment) (i jti : String) (e exp : ℕ) (bl : Blacklist)
    → (i ≡ jti → e ≡ exp)
    → Blocks jti exp bl
    → Blocks jti exp (blacklist_token m i e bl)
unfolding blacklist_token remaining
blacklist_token-Blocks m i jti e exp bl same le = ground (arith, eq_iff i jti)

newly-Blocks :
    (m : Moment) (jti : String) (exp : ℕ) (bl : Blacklist)
    → m.setex_reaches ≡ true
    → Blocks jti exp (blacklist_token m jti exp bl)
unfolding blacklist_token remaining
newly-Blocks m jti exp bl up = ground (arith, eq_iff jti jti)

module _ {Token : Type 0} (j : Jwt Token) where
  -- A request to exchange a token, with the users at that time.
  pub record Attempt : Type 0 where
    pub moment : Moment
    pub token : Token
    pub users : Users

  abbrev attempted : Attempt → Blacklist → Blacklist × Option (Token × Token)
  attempted a bl = rotate_refresh_token j a.moment a.token a.users bl

  abbrev pub jti_of : Attempt → String
  jti_of a = elim (j.decode a.moment.now a.token) [ none ↦ "" | some p ↦ p.jti ]

  -- The jtis of the tokens that bought a pair, in order.
  unfoldable pub exchanged : List Attempt → Blacklist → List String
  exchanged [] bl = []
  exchanged (a ∷ xs) bl =
      let (bl', pair) = rotate_refresh_token j a.moment a.token a.users bl in
      let rest = exchanged xs bl' in elim pair [ none ↦ rest | some _ ↦ jti_of a ∷ rest ]

  -- Redis is reached; and if the token is one of the jti, its time is `exp`, and it is not tried
  -- in the very last second.
  abbrev pub Obeys : String → ℕ → Attempt → Type 0
  Obeys jti exp a =
      (a.moment.exists_reaches ≡ true)
      × (a.moment.setex_reaches ≡ true)
      × ((p : Payload)
          → j.decode a.moment.now a.token ≡ some p
          → p.jti ≡ jti
          → (p.exp ≡ exp) × (a.moment.now ≢ exp))

  attempted-Blocks :
      (jti : String) (exp : ℕ) (a : Attempt) (bl : Blacklist)
      → Obeys jti exp a
      → Blocks jti exp bl
      → Blocks jti exp (attempted a bl).0
  unfolding rotate_refresh_token
  attempted-Blocks jti exp a bl h b = elim (Option-cases (j.decode a.moment.now a.token)) [
    | inl e ↦ rw (e, rotate_refresh_token) b
    | inr (p, e) ↦
        rw (e, rotate_refresh_token)
          (ground
            (arith, blacklist_token-Blocks a.moment p.jti jti p.exp exp bl (λ q. (h.2 p e q).0) b))
  ]

  refused :
      (jti : String) (exp : ℕ) (a : Attempt) (bl : Blacklist) (pair : Token × Token)
      → IsJwt j
      → Obeys jti exp a
      → Blocks jti exp bl
      → (attempted a bl).1 ≡ some pair
      → str_eq jti (jti_of a) ≡ false
  unfolding rotate_refresh_token is_blacklisted
  refused jti exp a bl pair lib h b e = elim (Option-cases (j.decode a.moment.now a.token)) [
    | inl n ↦ absurd (ground arith)
    | inr (p, d) ↦
        let live = lib.expires a.moment.now a.token p d in
        let own = h.2 p d in ground (arith, eq_iff jti p.jti)
  ]

  consumed :
      (jti : String) (exp : ℕ) (a : Attempt) (bl : Blacklist) (pair : Token × Token)
      → Obeys jti exp a
      → (attempted a bl).1 ≡ some pair
      → str_eq jti (jti_of a) ≡ true
      → Blocks jti exp (attempted a bl).0
  unfolding rotate_refresh_token
  consumed jti exp a bl pair h e q = elim (Option-cases (j.decode a.moment.now a.token)) [
    | inl n ↦ absurd (ground arith)
    | inr (p, d) ↦
        let own = h.2 p d in
        ground (arith, eq_iff jti p.jti, newly-Blocks a.moment p.jti p.exp bl h.1)
  ]

  abbrev counted : String → List Attempt → Blacklist → ℕ
  counted jti xs bl = length (filter (str_eq jti) (exchanged xs bl))

  blocked_count :
      (jti : String) (exp : ℕ) (xs : List Attempt) (bl : Blacklist)
      → IsJwt j
      → All (Obeys jti exp) xs
      → Blocks jti exp bl
      → counted jti xs bl ≡ 0
  unfolding exchanged
  blocked_count jti exp [] bl lib h b = refl
  blocked_count jti exp (a ∷ xs) bl lib h b =
      let ih =
        blocked_count jti exp xs (attempted a bl).0 lib h.1 (attempted-Blocks jti exp a bl h.0 b) in
      elim (Option-cases (attempted a bl).1) [
        | inl e ↦ rw (e, exchanged) ih
        | inr (pair, e) ↦ rw (e, exchanged) (rw (refused jti exp a bl pair lib h.0 b e) ih)
      ]

  -- A refresh token is used once: of any sequence of requests to exchange tokens, at most one
  -- exchange succeeds for the tokens of a given jti, whatever the users are at each time. The
  -- conditions: Redis is reached, the tokens that carry the jti have one expiry time, and none of
  -- them is tried in the very second of it, when the entry in Redis is gone and the token still
  -- reads.
  pub exchanged_single_use :
      (jti : String) (exp : ℕ) (xs : List Attempt) (bl : Blacklist)
      → IsJwt j
      → All (Obeys jti exp) xs
      → length (filter (str_eq jti) (exchanged xs bl)) ≤ 1
  unfolding exchanged
  exchanged_single_use jti exp [] bl lib h = omega arith
  exchanged_single_use jti exp (a ∷ xs) bl lib h =
      let after = (attempted a bl).0 in
      let ih = exchanged_single_use jti exp xs after lib h.1 in
      elim (Option-cases (attempted a bl).1) [
        | inl e ↦ rw (e, exchanged) ih
        | inr (pair, e) ↦ elim (Bool-cases (str_eq jti (jti_of a))) [
          | inl t ↦
              let none_left =
                blocked_count jti exp xs after lib h.1 (consumed jti exp a bl pair h.0 e t) in
              rw (e, exchanged) (rw t (omega arith))
          | inr f ↦ rw (e, exchanged) (rw f ih)
        ]
      ]
