-- ===== src/Prompts/Refines.antt =====
-- Every operation on prompts is a change of the history of one prompt.
use llm_dashboard.Base.{
  ℕ, ◌+◌, ◌≡◌, ◌≤◌, refl, sym, ap, ◌∙◌, true, Option, none, some, List, [], ◌∷◌, ◌++◌, String,
  eq_iff, arith, Bool-cases, Option-cases, inl, inr, filter, find, length, if◌then◌else◌, ◌==◌, In,
  In-find,
}
use mathlib.Core.List.{append_assoc}
use llm_dashboard.Prompts.{
  Template, Templates, Server, PromptRequest, is_of, publish_row, update_published_status,
  has_template_id, create_prompt, update_prompt, publish, rollback, get_template, new_template,
  next_template, get_latest_version_number,
}
use llm_dashboard.Prompts.View.{
  History, Change, adds, publishes, change, history, view, version_of, max_version-length,
}
use llm_dashboard.Prompts.Publishing.{
  AreNumbered, same_key, same_key-eq, view-published_rows, published_rows-AreNumbered,
  update_published_status-rows,
}

-- A call of the service: who calls, and with what.
pub data Call : Type 0 where
  creates : Server → PromptRequest → String → String → String → Call
  updates : Server → String → PromptRequest → String → Call
  publishes_id : ℕ → String → String → Call
  rolls_back : ℕ → String → String → ℕ → String → Call

unfoldable pub step : Call → Templates → Templates
step (creates s r name tenant user) xs = (create_prompt s r name tenant user xs).0
step (updates s i r user) xs = (update_prompt s i r user xs).0
step (publishes_id now i user) xs = (publish now i user xs).0
step (rolls_back now tenant name v user) xs = (rollback now tenant name v user xs).0

-- The prompt that a call concerns, and its change; none where the id is unknown.
unfoldable pub effect : Call → Templates → Option (String × String × Change)
effect (creates s r name tenant user) xs = some (tenant, name, adds r.content)
effect (updates s i r user) xs = elim (get_template i xs) [
  | none ↦ none
  | some x ↦ some (x.tenant_id, x.name, adds r.content)
]
effect (publishes_id now i user) xs = elim (get_template i xs) [
  | none ↦ none
  | some x ↦ some (x.tenant_id, x.name, publishes x.version)
]
effect (rolls_back now tenant name v user) xs = some (tenant, name, publishes v)

-- What an effect does to the history of a prompt.
unfoldable pub affect : Option (String × String × Change) → String → String → History → History
unfolding same_key
affect none t n h = h
affect (some (t', n', c)) t n h = if same_key t' n' t n then change c h else h

history-add :
    (x : Template) (ys : Templates)
    → x.version ≡ length ys + 1
    → x.is_published ≡ (x.version == 1)
    → history (x ∷ ys) ≡ change (adds x.content) (history ys)
unfolding history change version_of
history-add x [] v p = ground arith
history-add x (y ∷ ys) v p = ground arith

next_in :
    (x : Template) (xs : Templates) (t n : String)
    → x.version ≡ length (filter (is_of x.tenant_id x.name) xs) + 1
    → is_of t n x ≡ true
    → x.version ≡ length (filter (is_of t n) xs) + 1
unfolding is_of same_key
next_in x xs t n v s =
    let (et, en) = same_key-eq x.tenant_id x.name t n s in
    v
    ∙ ap (λ (k : String). length (filter (is_of k x.name) xs) + 1) et
    ∙ ap (λ (k : String). length (filter (is_of t k) xs) + 1) en

-- A new row of a prompt: its text is added to the history of that prompt, and to no other.
row_added :
    (x : Template) (xs : Templates) (t n : String)
    → x.version ≡ length (filter (is_of x.tenant_id x.name) xs) + 1
    → x.is_published ≡ (x.version == 1)
    → view t n (x ∷ xs) ≡ affect (some (x.tenant_id, x.name, adds x.content)) t n (view t n xs)
unfolding view affect is_of
row_added x xs t n v p = elim (Bool-cases (is_of t n x)) [
  | inl s ↦ rw s (history-add x (filter (is_of t n) xs) (next_in x xs t n v s) p)
  | inr d ↦ rw d refl
]

row-AreNumbered :
    (x : Template) (xs : Templates)
    → AreNumbered xs
    → x.version ≡ length (filter (is_of x.tenant_id x.name) xs) + 1
    → AreNumbered (x ∷ xs)
row-AreNumbered x xs h v t n = elim (Bool-cases (is_of t n x)) [
  | inl s ↦ rw s (next_in x xs t n v s, h t n)
  | inr d ↦ rw d (h t n)
]

-- A row that is in the table gives its prompt a version.
counted :
    (x : Template) (xs : Templates) → In x xs → 1 ≤ length (filter (is_of x.tenant_id x.name) xs)
unfolding is_of
counted x [] m = absurd m
counted x (y ∷ xs) (inl e) = ground (
  arith,
  ap (λ (k : Template). k.tenant_id) e,
  ap (λ (k : Template). k.name) e,
  eq_iff y.tenant_id x.tenant_id,
  eq_iff y.name x.name,
)
counted x (y ∷ xs) (inr m) = ground (arith, counted x xs m)

-- The table and the histories after a call.
abbrev pub Refines : Call → Templates → Templates → Type 0
Refines c xs ys =
    AreNumbered ys × ((t n : String) → view t n ys ≡ affect (effect c xs) t n (view t n xs))

added :
    (x : Template) (xs : Templates) (tenant name content : String)
    → AreNumbered xs
    → x.tenant_id ≡ tenant
    → x.name ≡ name
    → x.content ≡ content
    → x.version ≡ length (filter (is_of tenant name) xs) + 1
    → x.is_published ≡ (x.version == 1)
    → AreNumbered (x ∷ xs)
      × ((t n : String)
          → view t n (x ∷ xs) ≡ affect (some (tenant, name, adds content)) t n (view t n xs))
added x xs tenant name content h et en ec v p =
    let own : (x.version ≡ length (filter (is_of x.tenant_id x.name) xs) + 1) = rw (et, en) v in
    (row-AreNumbered x xs h own, λ t n. rw (← et, ← en, ← ec) (row_added x xs t n own p))

creates-Refines :
    (s : Server) (r : PromptRequest) (name tenant user : String) (xs : Templates)
    → AreNumbered xs
    → Refines (creates s r name tenant user) xs (create_prompt s r name tenant user xs).0
unfolding create_prompt get_latest_version_number new_template publish_row effect
creates-Refines s r name tenant user xs h =
    let latest = max_version-length (filter (is_of tenant name) xs) (h tenant name) in
    added (create_prompt s r name tenant user xs).1 xs tenant name r.content h (ground arith)
      (ground arith) (ground arith) (ground arith) (ground arith)

updates-Refines :
    (s : Server) (i : String) (r : PromptRequest) (user : String) (xs : Templates)
    → AreNumbered xs
    → Refines (updates s i r user) xs (update_prompt s i r user xs).0
unfolding update_prompt get_template get_latest_version_number next_template effect affect
updates-Refines s i r user xs h = elim (Option-cases (find (has_template_id i) xs)) [
  | inl e ↦ rw (e, update_prompt, effect) (h, λ t n. refl)
  | inr (x, e) ↦
      let latest =
        max_version-length (filter (is_of x.tenant_id x.name) xs) (h x.tenant_id x.name) in
      let known = counted x xs (In-find (has_template_id i) x xs e).0 in
      rw (e, update_prompt, effect)
        (added (next_template s r x user (get_latest_version_number x.tenant_id x.name xs + 1)) xs
          x.tenant_id x.name r.content h refl refl refl (ground arith) (ground arith))
]

tried-Refines :
    (now : ℕ) (t n : String) (v : ℕ) (user : String) (xs : Templates) (t' n' : String)
    → AreNumbered xs
    → view t' n' (update_published_status now t n v user xs).0
      ≡ affect (some (t, n, publishes v)) t' n' (view t' n' xs)
unfolding affect
tried-Refines now t n v user xs t' n' h =
    rw (update_published_status-rows now t n v user xs)
      (view-published_rows now t n v user xs t' n' h)

tried-AreNumbered :
    (now : ℕ) (t n : String) (v : ℕ) (user : String) (xs : Templates)
    → AreNumbered xs
    → AreNumbered (update_published_status now t n v user xs).0
tried-AreNumbered now t n v user xs h =
    rw (update_published_status-rows now t n v user xs)
      (published_rows-AreNumbered now t n v user xs h)

publishes-Refines :
    (now : ℕ) (i user : String) (xs : Templates)
    → AreNumbered xs
    → Refines (publishes_id now i user) xs (publish now i user xs).0
unfolding publish effect affect get_template
publishes-Refines now i user xs h = elim (Option-cases (find (has_template_id i) xs)) [
  | inl e ↦ rw (e, publish, effect) (h, λ t n. refl)
  | inr (x, e) ↦
      rw (e, publish, effect)
        (
          tried-AreNumbered now x.tenant_id x.name x.version user xs h,
          λ t n. tried-Refines now x.tenant_id x.name x.version user xs t n h,
        )
]

pub step-Refines : (c : Call) (xs : Templates) → AreNumbered xs → Refines c xs (step c xs)
unfolding step publish rollback effect affect get_template
step-Refines (creates s r name tenant user) xs h = creates-Refines s r name tenant user xs h
step-Refines (updates s i r user) xs h = updates-Refines s i r user xs h
step-Refines (rolls_back now tenant name v user) xs h = (
  tried-AreNumbered now tenant name v user xs h,
  λ t n. tried-Refines now tenant name v user xs t n h,
)
step-Refines (publishes_id now i user) xs h = publishes-Refines now i user xs h

unfoldable pub run : List Call → Templates → Templates
unfolding step
run [] xs = xs
run (c ∷ cs) xs = run cs (step c xs)

grown :
    (e : Option (String × String × Change)) (t n : String) (h : History)
    → (news : List String) × ((affect e t n h).contents ≡ news ++ h.contents)
unfolding affect change
grown none t n h = ([], refl)
grown (some (t', n', adds c)) t n h = elim (Bool-cases (same_key t' n' t n)) [
  | inl s ↦ (c ∷ [], rw s refl)
  | inr d ↦ ([], rw d refl)
]
grown (some (t', n', publishes v)) t n h = elim (Bool-cases (same_key t' n' t n)) [
  | inl s ↦ ([], rw s refl)
  | inr d ↦ ([], rw d refl)
]

-- Versions are immutable: after any sequence of calls, the texts of a prompt's versions are those
-- that were there before, in their order, with new ones in front. The versions of every prompt
-- count down to 1 before the calls.
pub run-keeps_versions :
    (cs : List Call) (xs : Templates) (t n : String)
    → AreNumbered xs
    → (news : List String) × ((view t n (run cs xs)).contents ≡ news ++ (view t n xs).contents)
unfolding run
run-keeps_versions [] xs t n h = ([], refl)
run-keeps_versions (c ∷ cs) xs t n h =
    let (numbered, views) = step-Refines c xs h in
    let (later, e) = run-keeps_versions cs (step c xs) t n numbered in
    let (first, f) = grown (effect c xs) t n (view t n xs) in
    (
      later ++ first,
      e
          ∙ ap (λ (z : History). later ++ z.contents) (views t n)
          ∙ ap (◌++◌ later) f
          ∙ sym (append_assoc later first (view t n xs).contents),
    )
