-- ===== src/Tracing/Totals.antt =====
-- What the row of a session says after any sequence of operations.
use mathlib.Core.Path.{subst}
use native.Mathlib.Nat.{zero-add}
use mathlib.Core.List.{append-nil, append_assoc}
use llm_dashboard.Base.{
  ℕ, ◌+◌, ◌≡◌, refl, sym, ap, ◌∙◌, true, false, if◌then◌else◌, Option, none, some, List, [], ◌∷◌,
  ◌++◌, String, str_eq, eq_iff, eq_refl, arith, find, map, length, head, Bool-cases, Option-cases,
  inl, inr, find-update_where, find-update_where_apart, update_where, map_option,
}
use llm_dashboard.Tracing.{
  Session, SessionCall, SessionRequest, SessionStatus, is_session, get_by_session_id, duration_of,
  first_row, aggregate, upsert_and_aggregate, new_session, get_or_create_session, end_session,
  complete_session,
}

pub data SessionOp : Type 0 where
  calls : ℕ → String → SessionCall → SessionOp
  opens : ℕ → String → SessionRequest → SessionOp
  ends : ℕ → String → SessionStatus → SessionOp

unfoldable pub step : SessionOp → List Session → List Session
step (calls now uid c) rows = upsert_and_aggregate now uid c rows
step (opens now uid q) rows = (get_or_create_session now uid q rows).0
step (ends now s status) rows = (complete_session now s status rows).0

unfoldable pub run : List SessionOp → List Session → List Session
unfolding step
run [] rows = rows
run (o ∷ os) rows = run os (step o rows)

-- What the row of a session shows, nothing where there is none.
pub record Totals : Type 0 where
  pub owner : Option String
  pub number : ℕ
  pub tokens : ℕ
  pub cost : ℕ
  pub duration : ℕ
  pub chain : List ℕ

unfoldable pub totals_of : Option Session → Totals
totals_of none = record { owner = none; number = 0; tokens = 0; cost = 0; duration = 0; chain = [] }
totals_of (some r) = record {
  owner = some r.tenant_id;
  number = r.total_calls;
  tokens = r.total_tokens;
  cost = r.total_cost_usd;
  duration = r.total_duration_ms;
  chain = r.call_chain;
}

unfoldable pub owner_or : Option String → String → Option String
owner_or none t = some t
owner_or (some u) t = some u

unfoldable pub counted : SessionCall → Totals → Totals
unfolding owner_or duration_of
counted c t = record {
  owner = owner_or t.owner c.tenant_id;
  number = t.number + 1;
  tokens = t.tokens + c.tokens;
  cost = t.cost + c.cost;
  duration = t.duration + duration_of c.duration;
  chain = t.chain ++ c.log_id ∷ [];
}

unfoldable pub claimed : String → Totals → Totals
unfolding owner_or
claimed tenant t = record t { owner = owner_or t.owner tenant }

-- What an operation does to what the session shows.
unfoldable pub add : String → SessionOp → Totals → Totals
unfolding counted claimed
add s (calls now uid c) t = if str_eq c.session_id s then counted c t else t
add s (opens now uid q) t = if str_eq q.session_id s then claimed q.tenant_id t else t
add s (ends now s' status) t = t

is_session-apart :
    (s s' : String)
    → str_eq s' s ≡ false
    → (r : Session) → is_session s' r ≡ true
    → is_session s r ≡ false
unfolding is_session
is_session-apart s s' n r t = let e = (eq_iff r.session_id s').0 t in rw e n

apart-totals :
    (s s' : String) (f : Session → Session)
    → str_eq s' s ≡ false
    → ((r : Session) → (f r).session_id ≡ r.session_id)
    → (rows : List Session)
    → find (is_session s) (update_where (is_session s') f rows) ≡ find (is_session s) rows
unfolding is_session
apart-totals s s' f n keeps rows =
    find-update_where_apart (is_session s') (is_session s) f (is_session-apart s s' n)
      (λ r t. rw (keeps r) (is_session-apart s s' n r t)) rows

same-totals :
    (s : String) (f : Session → Session)
    → ((r : Session) → (f r).session_id ≡ r.session_id)
    → (rows : List Session)
    → find (is_session s) (update_where (is_session s) f rows)
      ≡ map_option f (find (is_session s) rows)
unfolding is_session
same-totals s f keeps rows = find-update_where (is_session s) f (λ r. rw (keeps r) refl) rows

upsert-counted :
    (now : ℕ) (uid : String) (c : SessionCall) (rows : List Session)
    → totals_of (get_by_session_id c.session_id (upsert_and_aggregate now uid c rows))
      ≡ counted c (totals_of (get_by_session_id c.session_id rows))
unfolding upsert_and_aggregate get_by_session_id totals_of counted first_row aggregate owner_or
    is_session
upsert-counted now uid c rows = elim (Option-cases (find (is_session c.session_id) rows)) [
  | inl e ↦
      let on = eq_refl c.session_id in
      rw
        (
          get_by_session_id,
          upsert_and_aggregate,
          e,
          on,
          zero-add c.tokens,
          zero-add c.cost,
          zero-add (duration_of c.duration),
        )
        refl
  | inr (r, e) ↦
      rw
        (
          get_by_session_id,
          upsert_and_aggregate,
          e,
          same-totals c.session_id (aggregate c) (λ x. refl) rows,
          e,
        )
        refl
]

upsert-apart :
    (s : String) (now : ℕ) (uid : String) (c : SessionCall) (rows : List Session)
    → str_eq c.session_id s ≡ false
    → get_by_session_id s (upsert_and_aggregate now uid c rows) ≡ get_by_session_id s rows
unfolding upsert_and_aggregate get_by_session_id is_session first_row aggregate
upsert-apart s now uid c rows n = elim (Option-cases (find (is_session c.session_id) rows)) [
  | inl e ↦ rw (get_by_session_id, upsert_and_aggregate, e, n) refl
  | inr (r, e) ↦
      rw (get_by_session_id, upsert_and_aggregate, e)
        (apart-totals s c.session_id (aggregate c) n (λ x. refl) rows)
]

opens-apart :
    (now : ℕ) (uid : String) (q : SessionRequest) (s : String) (rows : List Session)
    → str_eq q.session_id s ≡ false
    → get_by_session_id s (get_or_create_session now uid q rows).0 ≡ get_by_session_id s rows
unfolding get_or_create_session get_by_session_id is_session new_session
opens-apart now uid q s rows n = elim (Option-cases (find (is_session q.session_id) rows)) [
  | inl e ↦ rw (get_by_session_id, get_or_create_session, e, n) refl
  | inr (r, e) ↦ rw (get_by_session_id, get_or_create_session, e) refl
]

opens-same :
    (now : ℕ) (uid : String) (q : SessionRequest) (rows : List Session)
    → totals_of (get_by_session_id q.session_id (get_or_create_session now uid q rows).0)
      ≡ claimed q.tenant_id (totals_of (get_by_session_id q.session_id rows))
unfolding get_or_create_session get_by_session_id is_session new_session totals_of claimed owner_or
opens-same now uid q rows = elim (Option-cases (find (is_session q.session_id) rows)) [
  | inl e ↦
      let on = eq_refl q.session_id in rw (get_by_session_id, get_or_create_session, e, on) refl
  | inr (r, e) ↦ rw (get_by_session_id, get_or_create_session, totals_of, e, e) refl
]

end-kept :
    (now : ℕ) (status : SessionStatus) (o : Option Session)
    → totals_of (map_option (end_session now status) o) ≡ totals_of o
unfolding end_session totals_of
end-kept now status none = refl
end-kept now status (some r) = refl

ends-kept :
    (now : ℕ) (s' : String) (status : SessionStatus) (s : String) (rows : List Session)
    → totals_of (get_by_session_id s (complete_session now s' status rows).0)
      ≡ totals_of (get_by_session_id s rows)
unfolding complete_session get_by_session_id is_session end_session
ends-kept now s' status s rows = elim (Option-cases (find (is_session s') rows)) [
  | inl e ↦ rw (get_by_session_id, complete_session, e) refl
  | inr (r, e) ↦
      rw (get_by_session_id, complete_session, e)
        (elim (Bool-cases (str_eq s' s)) [
          | inr n ↦ ap totals_of (apart-totals s s' (end_session now status) n (λ x. refl) rows)
          | inl t ↦
              subst
                (λ x.
                  totals_of (
                    find (is_session x)
                      (update_where (is_session s') (end_session now status) rows))
                  ≡ totals_of (find (is_session x) rows))
                ((eq_iff s' s).0 t)
                (ap totals_of (same-totals s' (end_session now status) (λ x. refl) rows)
                  ∙ end-kept now status (find (is_session s') rows))
        ])
]

step-add :
    (s : String) (o : SessionOp) (rows : List Session)
    → totals_of (get_by_session_id s (step o rows)) ≡ add s o (totals_of (get_by_session_id s rows))
unfolding step add
step-add s (calls now uid c) rows = elim (Bool-cases (str_eq c.session_id s)) [
  | inl t ↦
      let e = (eq_iff c.session_id s).0 t in
      rw t (
        subst
          (λ x.
            totals_of (get_by_session_id x (upsert_and_aggregate now uid c rows))
            ≡ counted c (totals_of (get_by_session_id x rows)))
          e (upsert-counted now uid c rows))
  | inr n ↦ rw (n, upsert-apart s now uid c rows n) refl
]
step-add s (opens now uid q) rows = elim (Bool-cases (str_eq q.session_id s)) [
  | inl t ↦ rw t (
      subst
        (λ x.
          totals_of (get_by_session_id x (get_or_create_session now uid q rows).0)
          ≡ claimed q.tenant_id (totals_of (get_by_session_id x rows)))
        ((eq_iff q.session_id s).0 t) (opens-same now uid q rows))
  | inr n ↦ rw (n, opens-apart now uid q s rows n) refl
]
step-add s (ends now s' status) rows = ends-kept now s' status s rows

-- The calls of the session.
unfoldable pub calls_to : String → List SessionOp → List SessionCall
calls_to s [] = []
calls_to s (calls now uid c ∷ os) =
    let rest = calls_to s os in if str_eq c.session_id s then c ∷ rest else rest
calls_to s (opens now uid q ∷ os) = calls_to s os
calls_to s (ends now s' status ∷ os) = calls_to s os

-- The tenants that have called or opened the session, in order.
unfoldable pub tenants_of : String → List SessionOp → List String
tenants_of s [] = []
tenants_of s (calls now uid c ∷ os) =
    let rest = tenants_of s os in if str_eq c.session_id s then c.tenant_id ∷ rest else rest
tenants_of s (opens now uid q ∷ os) =
    let rest = tenants_of s os in if str_eq q.session_id s then q.tenant_id ∷ rest else rest
tenants_of s (ends now s' status ∷ os) = tenants_of s os

unfoldable pub total : (SessionCall → ℕ) → List SessionCall → ℕ
total f [] = 0
total f (c ∷ cs) = f c + total f cs

played : String → List SessionOp → Totals → Totals
played s [] t = t
played s (o ∷ os) t = played s os (add s o t)

run-played :
    (s : String) (os : List SessionOp) (rows : List Session)
    → totals_of (get_by_session_id s (run os rows))
      ≡ played s os (totals_of (get_by_session_id s rows))
unfolding run played
run-played s [] rows = refl
run-played s (o ∷ os) rows = run-played s os (step o rows) ∙ ap (played s os) (step-add s o rows)

-- The first of the tenants, after the one that owns the session already.
unfoldable or_first : Option String → List String → Option String
or_first none ts = head ts
or_first (some t) ts = some t

or_first-owner_or :
    (o : Option String) (t : String) (ts : List String)
    → or_first (owner_or o t) ts ≡ or_first o (t ∷ ts)
unfolding or_first owner_or
or_first-owner_or none t ts = refl
or_first-owner_or (some u) t ts = refl

Accounts : String → List SessionOp → Totals → Totals → Type 0
Accounts s os t u =
    (u.owner ≡ or_first t.owner (tenants_of s os))
    × (u.number ≡ t.number + length (calls_to s os))
    × (u.tokens ≡ t.tokens + total (λ c. c.tokens) (calls_to s os))
    × (u.cost ≡ t.cost + total (λ c. c.cost) (calls_to s os))
    × (u.duration ≡ t.duration + total (λ c. duration_of c.duration) (calls_to s os))
    × (u.chain ≡ t.chain ++ map (λ c. c.log_id) (calls_to s os))

or_first-nil : (o : Option String) → o ≡ or_first o []
unfolding or_first
or_first-nil none = refl
or_first-nil (some t) = refl

played-Accounts : (s : String) (os : List SessionOp) (t : Totals) → Accounts s os t (played s os t)
unfolding played Accounts calls_to tenants_of total add counted claimed
played-Accounts s [] t = (
  or_first-nil t.owner,
  omega arith,
  omega arith,
  omega arith,
  omega arith,
  sym (append-nil t.chain),
)
played-Accounts s (calls now uid c ∷ os) t = elim (Bool-cases (str_eq c.session_id s)) [
  | inr n ↦ rw (played, n) (played-Accounts s os t)
  | inl e ↦
      let (owner, number, tokens, cost, duration, chain) = played-Accounts s os (counted c t) in
      rw (played, e)
        (
          owner ∙ or_first-owner_or t.owner c.tenant_id (tenants_of s os),
          omega arith,
          omega arith,
          omega arith,
          omega arith,
          chain ∙ append_assoc t.chain (c.log_id ∷ []) (map (λ c. c.log_id) (calls_to s os)),
        )
]
played-Accounts s (opens now uid q ∷ os) t = elim (Bool-cases (str_eq q.session_id s)) [
  | inr n ↦ rw (played, n) (played-Accounts s os t)
  | inl e ↦
      let (owner, number, tokens, cost, duration, chain) =
        played-Accounts s os (claimed q.tenant_id t) in
      rw (played, e)
        (
          owner ∙ or_first-owner_or t.owner q.tenant_id (tenants_of s os),
          number,
          tokens,
          cost,
          duration,
          chain,
        )
]
played-Accounts s (ends now s' status ∷ os) t = played-Accounts s os t

-- After any sequence of operations on an empty table, the row of a session_id belongs to the tenant
-- that called or opened it first, and shows the number, the tokens, the cost and the duration of
-- exactly the calls with this session_id, by whatever tenant, and their log ids in order; completing
-- a session or opening it again changes none of this.
pub run-totals :
    (s : String) (os : List SessionOp)
    → let t = totals_of (get_by_session_id s (run os [])) in
      let cs = calls_to s os in
      (t.owner ≡ head (tenants_of s os))
      × (t.number ≡ length cs)
      × (t.tokens ≡ total (λ c. c.tokens) cs)
      × (t.cost ≡ total (λ c. c.cost) cs)
      × (t.duration ≡ total (λ c. duration_of c.duration) cs)
      × (t.chain ≡ map (λ c. c.log_id) cs)
unfolding Accounts or_first get_by_session_id tenants_of totals_of
run-totals s os =
    let same = run-played s os [] in
    let (owner, number, tokens, cost, duration, chain) = played-Accounts s os (totals_of none) in
    rw same (
      owner,
      number ∙ zero-add _,
      tokens ∙ zero-add _,
      cost ∙ zero-add _,
      duration ∙ zero-add _,
      chain,
    )
