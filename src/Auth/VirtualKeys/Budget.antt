-- ===== src/Auth/VirtualKeys/Budget.antt =====
-- The budget of a virtual key.
use native.Mathlib.Nat.{add-zero, add_assoc}
use llm_dashboard.Base.{
  ℕ, ◌+◌, ◌++◌, ap, ◌≡◌, ◌≤◌, ◌<◌, All_at, true, none, some, List, [], ◌∷◌, String, str_eq, eq_iff,
  arith, Bool-cases, Option-cases, inl, inr, find, update_where, In-find, All,
}
use llm_dashboard.Auth.VirtualKeys.{
  VirtualKey, VirtualKeys, verify_virtual_key, is_usable_virtual, is_budget_exceeded,
  update_virtual_key_budget, get_virtual_key, has_virtual_id, virtual_used_at,
}

-- The calls that are charged to a key, one after another.
unfoldable pub charge : String → List ℕ → VirtualKeys → VirtualKeys
unfolding update_virtual_key_budget
charge i [] ks = ks
charge i (cost ∷ costs) ks = charge i costs (update_virtual_key_budget i cost ks)

abbrev pub total : List ℕ → ℕ
total [] = 0
total (c ∷ cs) = c + total cs

-- What was charged to every key of the id.
abbrev Spent : String → ℕ → VirtualKey → Type 0
Spent i n k = str_eq k.id i ≡ true → n ≤ k.budget_used_usd

none_found :
    (i : String) (n : ℕ) (ks : VirtualKeys) → find (has_virtual_id i) ks ≡ none → All (Spent i n) ks
unfolding has_virtual_id
none_found i n [] e = tt
none_found i n (k ∷ ks) e = elim (Bool-cases (str_eq k.id i)) [
  | inl t ↦ absurd (ground arith)
  | inr f ↦ (λ t. absurd (cc), none_found i n ks (ground arith))
]

row_charged :
    (i : String) (n cost : ℕ) (ks : VirtualKeys)
    → All (Spent i n) ks
    → All (Spent i (n + cost)) (
        update_where
          (has_virtual_id i)
          (λ x. record x { budget_used_usd = x.budget_used_usd + cost })
          ks)
unfolding has_virtual_id
row_charged i n cost [] h = tt
row_charged i n cost (k ∷ ks) h = (ground arith, row_charged i n cost ks h.1)

charged :
    (i : String) (n cost : ℕ) (ks : VirtualKeys)
    → All (Spent i n) ks
    → All (Spent i (n + cost)) (update_virtual_key_budget i cost ks)
unfolding update_virtual_key_budget get_virtual_key
charged i n cost ks h = elim (Option-cases (find (has_virtual_id i) ks)) [
  | inl e ↦ rw (e, update_virtual_key_budget) (none_found i (n + cost) ks e)
  | inr (k, e) ↦ rw (e, update_virtual_key_budget) (row_charged i n cost ks h)
]

charge-Spent :
    (i : String) (n : ℕ) (cs : List ℕ) (ks : VirtualKeys)
    → All (Spent i n) ks
    → All (Spent i (n + total cs)) (charge i cs ks)
unfolding charge
charge-Spent i n [] ks h = rw (add-zero) h
charge-Spent i n (c ∷ cs) ks h =
    rw (← add_assoc n c (total cs))
      (charge-Spent i (n + c) cs (update_virtual_key_budget i c ks) (charged i n c ks h))

none-Spent : (i : String) (ks : VirtualKeys) → All (Spent i 0) ks
none-Spent i [] = tt
none-Spent i (k ∷ ks) = (λ t. omega arith, none-Spent i ks)

-- The costs charged so far are together below the budget of a key that passes.
total_charged :
    (hash : String → String) (i : String) (cs : List ℕ) (ks : VirtualKeys) (now : ℕ) (raw : String)
    (k : VirtualKey) (b : ℕ)
    → (verify_virtual_key hash now raw (charge i cs ks)).1 ≡ some k
    → k.id ≡ i
    → k.budget_usd ≡ some b
    → total cs < b
unfolding verify_virtual_key is_budget_exceeded virtual_used_at
total_charged hash i cs ks now raw k b e q budget =
    elim (Option-cases (find (is_usable_virtual (hash raw)) (charge i cs ks))) [
      | inl n ↦ absurd (ground arith)
      | inr (k', f) ↦
          let here = (In-find (is_usable_virtual (hash raw)) k' (charge i cs ks) f).0 in
          let spent =
            All_at (Spent i (0 + total cs)) k' (charge i cs ks)
              (charge-Spent i 0 cs ks (none-Spent i ks)) here in
          ground (arith, eq_iff k'.id i, spent)
    ]

total-append : (xs ys : List ℕ) → total (xs ++ ys) ≡ total xs + total ys
total-append [] ys = omega arith
total-append (x ∷ xs) ys = omega (arith, total-append xs ys)

-- A virtual key that passes the check has a budget that the calls charged to it do not reach: the
-- costs charged to it in its whole life (nothing resets them with the month), as whole numbers of a
-- smallest unit, are together below its budget, whatever text was shown; so are those of its latest
-- calls, as the calls of a month, by themselves.
pub verify_virtual_key-charge :
    (hash : String → String) (i : String) (cs : List ℕ) (ks : VirtualKeys) (now : ℕ) (raw : String)
    (k : VirtualKey) (b : ℕ)
    → (verify_virtual_key hash now raw (charge i cs ks)).1 ≡ some k
    → k.id ≡ i
    → k.budget_usd ≡ some b
    → (total cs < b) × ((earlier latest : List ℕ) → cs ≡ earlier ++ latest → total latest < b)
verify_virtual_key-charge hash i cs ks now raw k b e q budget =
    let all = total_charged hash i cs ks now raw k b e q budget in
    (
      all,
      λ earlier latest split.
          let sum = ap total split in let parts = total-append earlier latest in omega arith,
    )
