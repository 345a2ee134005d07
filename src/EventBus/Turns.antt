-- ===== src/EventBus/Turns.antt =====
-- What the turns of the event loop do to the tasks of a publication and to the tally.
use mathlib.Core.List.{append-nil, append_assoc}
use llm_dashboard.Base.{
  ℕ, zero, suc, ◌+◌, ◌≡◌, refl, sym, ◌∙◌, ap, List, [], ◌∷◌, ◌++◌, String, arith, length, str_eq,
  if◌then◌else◌,
}
use llm_dashboard.EventBus.{
  Envelope, Bus, Handlers, Progress, awaits, ends, HandlerOutcome, success, raises, Tally,
  HandlerFailure, note_outcome, pick, Gather, after_turn, turn, run_tasks, tasks_of,
}

-- A measure, summed over a list.
unfoldable pub sum_of {ℓ} : {A : Type ℓ} → (A → ℕ) → List A → ℕ
sum_of f [] = 0
sum_of f (x ∷ xs) = f x + sum_of f xs

pub sum_of-pick :
    {A : Type 0} (f : A → ℕ) (n : ℕ) (x : A) (xs : List A)
    → f (pick n x xs).0 + sum_of f (pick n x xs).1 ≡ f x + sum_of f xs
unfolding sum_of pick
sum_of-pick f n x [] = refl
sum_of-pick f zero x (y ∷ ys) = refl
sum_of-pick f (suc n) x (y ∷ ys) = omega (arith, sum_of-pick f n y ys)

-- A handler that has ended, and how.
abbrev pub Ending : Type 0
Ending = String × HandlerOutcome

-- The failures among the endings, in order.
unfoldable pub failures_of : List Ending → List HandlerFailure
failures_of [] = []
failures_of ((h, success) ∷ es) = failures_of es
failures_of ((h, raises class message) ∷ es) =
    record { handler = h; error = message; error_type = class } ∷ failures_of es

unfoldable pub ended_by : {T : Type 0} → String → Progress T → List Ending
ended_by h (awaits t) = []
ended_by h (ends o) = (h, o) ∷ []

failures_of-append :
    (es fs : List Ending) → failures_of (es ++ fs) ≡ failures_of es ++ failures_of fs
unfolding failures_of
failures_of-append [] fs = refl
failures_of-append ((h, success) ∷ es) fs = failures_of-append es fs
failures_of-append ((h, raises class message) ∷ es) fs =
    ap (λ xs. record { handler = h; error = message; error_type = class } ∷ xs)
      (failures_of-append es fs)

-- How often the handler occurs.
abbrev pub is_named : String → String → ℕ
is_named h k = if str_eq k h then 1 else 0

module _ {W D T : Type 0} (handlers : Handlers W D T) where
  -- The task that ends in a turn, if it does.
  unfoldable pub ended : ℕ → Gather W T → List Ending
  unfolding ended_by
  ended n g = elim (g.tasks) [
    | [] ↦ []
    | x ∷ xs ↦ ended_by (pick n x xs).0.0 (handlers.resume (pick n x xs).0.1 g.bus).1
  ]

  -- The handlers that end in these turns, in the order in which they do.
  unfoldable pub endings : List ℕ → Gather W T → List Ending
  endings [] g = []
  endings (n ∷ turns) g = ended n g ++ endings turns (turn handlers n g)

  -- The step from one state of the tasks to another, in which these handlers end.
  pub record Passes (g g' : Gather W T) (es : List Ending) : Type 0 where
    pub errors : g'.tally.errors ≡ g.tally.errors ++ failures_of es
    pub failed : g'.tally.failed ≡ g.tally.failed + length (failures_of es)
    pub total :
        g'.tally.succeeded + g'.tally.failed ≡ g.tally.succeeded + g.tally.failed + length es
    pub by_name :
        (f : String → ℕ)
        → sum_of (λ x. f x.0) g'.tasks + sum_of (λ x. f x.0) es ≡ sum_of (λ x. f x.0) g.tasks

  after_turn-Passes :
      (h : String) (others : List (String × T)) (b : Bus W) (t : Tally) (r : Bus W × Progress T)
      (tasks : List (String × T))
      → ((f : String → ℕ) → f h + sum_of (λ x. f x.0) others ≡ sum_of (λ x. f x.0) tasks)
      → Passes
          (record { bus = b; tally = t; tasks = tasks })
          (after_turn handlers h others t r)
          (ended_by h r.1)
  unfolding after_turn ended_by note_outcome failures_of sum_of
  after_turn-Passes h others b t (b', awaits task) tasks same = record {
    errors = sym (append-nil t.errors);
    failed = omega arith;
    total = omega arith;
    by_name = λ f. let s = same f in omega arith;
  }
  after_turn-Passes h others b t (b', ends success) tasks same = record {
    errors = sym (append-nil t.errors);
    failed = omega arith;
    total = omega arith;
    by_name = λ f. let s = same f in omega arith;
  }
  after_turn-Passes h others b t (b', ends (raises class message)) tasks same = record {
    errors = refl;
    failed = omega arith;
    total = omega arith;
    by_name = λ f. let s = same f in omega arith;
  }

  tasks-Passes :
      (n : ℕ) (b : Bus W) (t : Tally) (tasks : List (String × T))
      → let g : Gather W T = record { bus = b; tally = t; tasks = tasks } in
        Passes g (turn handlers n g) (ended n g)
  unfolding turn ended failures_of sum_of
  tasks-Passes n b t [] = record {
    errors = sym (append-nil t.errors);
    failed = omega arith;
    total = omega arith;
    by_name = λ f. refl;
  }
  tasks-Passes n b t (x ∷ xs) =
      after_turn-Passes (pick n x xs).0.0 (pick n x xs).1 b t (handlers.resume (pick n x xs).0.1 b)
        (x ∷ xs) (λ f. sum_of-pick (λ y. f y.0) n x xs)

  turn-Passes : (n : ℕ) (g : Gather W T) → Passes g (turn handlers n g) (ended n g)
  turn-Passes n g = tasks-Passes n g.bus g.tally g.tasks

  sum_of-append :
      {A : Type 0} (f : A → ℕ) (xs ys : List A) → sum_of f (xs ++ ys) ≡ sum_of f xs + sum_of f ys
  unfolding sum_of
  sum_of-append f [] ys = omega arith
  sum_of-append f (x ∷ xs) ys = omega (arith, sum_of-append f xs ys)

  length-append : {A : Type 0} (xs ys : List A) → length (xs ++ ys) ≡ length xs + length ys
  length-append [] ys = omega arith
  length-append (x ∷ xs) ys = omega (arith, length-append xs ys)

  Passes-trans :
      {g g' g'' : Gather W T} (es fs : List Ending)
      → Passes g g' es
      → Passes g' g'' fs
      → Passes g g'' (es ++ fs)
  Passes-trans {g} es fs p q = record {
    errors =
        q.errors
        ∙ ap (λ xs. xs ++ failures_of fs) p.errors
        ∙ append_assoc g.tally.errors (failures_of es) (failures_of fs)
        ∙ ap (λ xs. g.tally.errors ++ xs) (sym (failures_of-append es fs));
    failed =
        let l = ap length (failures_of-append es fs) in
        let k = length-append (failures_of es) (failures_of fs) in
        let a = p.failed in let b = q.failed in omega arith;
    total = let k = length-append es fs in let a = p.total in let b = q.total in omega arith;
    by_name = λ f.
        let a = p.by_name f in
        let b = q.by_name f in let c = sum_of-append (λ x. f x.0) es fs in omega arith;
  }

  pub run_tasks-Passes :
      (turns : List ℕ) (g : Gather W T) → Passes g (run_tasks handlers turns g) (endings turns g)
  unfolding run_tasks endings failures_of sum_of
  run_tasks-Passes [] g = record {
    errors = sym (append-nil g.tally.errors);
    failed = omega arith;
    total = omega arith;
    by_name = λ f. omega arith;
  }
  run_tasks-Passes (n ∷ turns) g =
      Passes-trans (ended n g) (endings turns (turn handlers n g)) (turn-Passes n g)
        (run_tasks-Passes turns (turn handlers n g))

  pub sum_of-tasks_of :
      (f : String → ℕ) (e : Envelope D) (hs : List String)
      → sum_of (λ x. f x.0) (tasks_of handlers e hs) ≡ sum_of f hs
  unfolding sum_of tasks_of
  sum_of-tasks_of f e [] = refl
  sum_of-tasks_of f e (h ∷ hs) = omega (arith, sum_of-tasks_of f e hs)

  pub length-sum_of : {A : Type 0} (xs : List A) → sum_of (λ x. 1) xs ≡ length xs
  unfolding sum_of
  length-sum_of [] = refl
  length-sum_of (x ∷ xs) = omega (arith, length-sum_of xs)
