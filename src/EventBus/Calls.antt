-- ===== src/EventBus/Calls.antt =====
-- Every handler of an event runs to its end, whatever the others do and in whatever order the event
-- loop gives them their turns, and what they raise is reported.
use llm_dashboard.Base.{
  ℕ, ◌+◌, ◌-◌, ◌≡◌, ◌≤◌, ◌<◌, refl, ap, some, List, [], ◌∷◌, String, arith, length,
}
use llm_dashboard.EventBus.{
  Envelope, Bus, Handlers, Progress, awaits, ends, Tally, PublishResult, pick, Gather, after_turn,
  turn, run_tasks, tasks_of, start_tasks, gathered, summary_of, empty_summary, publish, publish_to,
  read_handlers, handlers_of,
}
use llm_dashboard.EventBus.Turns.{
  sum_of, sum_of-pick, Ending, failures_of, is_named, ended, endings, run_tasks-Passes,
  sum_of-tasks_of, length-sum_of,
}

-- The summary of the handlers that have ended, and of those registered at the start.
pub record Reports {D : Type 0} (e : Envelope D) (hs : List String) (es : List Ending)
    (s : PublishResult) : Type 0 where
  pub event_id : s.event_id ≡ e.event_id
  pub event_type : s.event_type ≡ e.event_type
  pub errors : s.errors ≡ failures_of es
  pub failed : s.handlers_failed ≡ length (failures_of es)
  pub total : s.handlers_succeeded + s.handlers_failed ≡ length hs
  pub each_once : (h : String) → sum_of (λ x. is_named h x.0) es ≡ sum_of (is_named h) hs

module _ {W D T : Type 0} (handlers : Handlers W D T) where
  gathered_lem :
      (e : Envelope D) (g : Gather W T)
      → g.tasks ≡ []
      → gathered handlers e g ≡ some (g.bus, summary_of handlers e g.bus g.tally)
  unfolding gathered
  gathered_lem e g none_left = rw (gathered, none_left) refl

  without_tasks :
      (e : Envelope D) (turns : List ℕ) (b : Bus W)
      → (endings handlers turns (start_tasks handlers e [] b) ≡ [])
        × (run_tasks handlers turns (start_tasks handlers e [] b) ≡ start_tasks handlers e [] b)
  unfolding endings ended run_tasks turn start_tasks tasks_of
  without_tasks e [] b = (refl, refl)
  without_tasks e (n ∷ turns) b = without_tasks e turns b

  run_tasks-Reports :
      (e : Envelope D) (hs : List String) (turns : List ℕ) (b : Bus W)
      → let g = start_tasks handlers e hs b in
        let g' = run_tasks handlers turns g in
        g'.tasks ≡ []
        → Reports e hs (endings handlers turns g) (summary_of handlers e g'.bus g'.tally)
  unfolding summary_of start_tasks sum_of
  run_tasks-Reports e hs turns b none_left =
      let g = start_tasks handlers e hs b in
      let p = run_tasks-Passes handlers turns g in
      let es = endings handlers turns g in
      let all_ended : (f : String → ℕ) → sum_of (λ x. f x.0) es ≡ sum_of f hs = λ f.
        let by_name = p.by_name f in
        let none_of = ap (sum_of (λ (x : String × T). f x.0)) none_left in
        let hs_of = sum_of-tasks_of handlers f e hs in omega arith in
      record {
        event_id = refl;
        event_type = refl;
        errors = p.errors;
        failed = let a = p.failed in omega arith;
        total =
            let a = p.total in
            let b = all_ended (λ h. 1) in
            let c = length-sum_of handlers hs in let d = length-sum_of handlers es in omega arith;
        each_once = λ h. all_ended (is_named h);
      }

  module _ (rank : T → ℕ) where
    -- With every turn that it awaits in, the rank of a task gets smaller.
    abbrev pub GetsDone : Type 0
    GetsDone = (t t' : T) (b : Bus W) → (handlers.resume t b).1 ≡ awaits t' → rank t' < rank t

    -- So many turns are enough for all tasks.
    abbrev pub turns_needed : List (String × T) → ℕ
    turns_needed tasks = sum_of (λ x. rank x.1 + 1) tasks

    module _ (done : GetsDone) where
      after_turn-needed :
          (h : String) (others : List (String × T)) (t : Tally) (task : T) (b : Bus W)
          (r : Bus W × Progress T)
          → (handlers.resume task b).1 ≡ r.1
          → turns_needed (after_turn handlers h others t r).tasks ≤ rank task + turns_needed others
      unfolding after_turn sum_of
      after_turn-needed h others t task b (b', awaits task') e =
          let less = done task task' b e in omega arith
      after_turn-needed h others t task b (b', ends o) e = omega arith

      tasks-needed :
          (n : ℕ) (b : Bus W) (t : Tally) (tasks : List (String × T))
          → turns_needed (turn handlers n (record { bus = b; tally = t; tasks = tasks })).tasks
            ≤ turns_needed tasks - 1
      unfolding turn sum_of
      tasks-needed n b t [] = omega arith
      tasks-needed n b t (x ∷ xs) =
          let task = (pick n x xs).0 in
          let picked = sum_of-pick (λ (y : String × T). rank y.1 + 1) n x xs in
          let turned =
            after_turn-needed task.0 (pick n x xs).1 t task.1 b (handlers.resume task.1 b) refl in
          omega arith

      none_needed : (tasks : List (String × T)) → turns_needed tasks ≤ 0 → tasks ≡ []
      unfolding sum_of
      none_needed [] h = refl
      none_needed (x ∷ xs) h = absurd (omega arith)

      run_tasks_done :
          (turns : List ℕ) (g : Gather W T)
          → turns_needed g.tasks ≤ length turns
          → (run_tasks handlers turns g).tasks ≡ []
      unfolding run_tasks
      run_tasks_done [] g h = none_needed g.tasks h
      run_tasks_done (n ∷ turns) g h =
          let needed = tasks-needed n g.bus g.tally g.tasks in
          run_tasks_done turns (turn handlers n g) (omega arith)

      finished :
          (e : Envelope D) (hs : List String) (turns : List ℕ) (b : Bus W)
          → let g = start_tasks handlers e hs b in
            turns_needed g.tasks ≤ length turns
            → (s : PublishResult) × (publish_to handlers e hs turns b
                ≡ some ((run_tasks handlers turns g).bus, s))
              × Reports e hs (endings handlers turns g) s
      unfolding publish_to start_tasks empty_summary failures_of sum_of
      finished e [] turns b enough =
          let (no_endings, same) = without_tasks e turns b in
          (
            empty_summary handlers e,
            rw same refl,
            rw no_endings (record {
              event_id = refl;
              event_type = refl;
              errors = refl;
              failed = refl;
              total = refl;
              each_once = λ h. refl;
            }),
          )
      finished e (h ∷ hs) turns b enough =
          let g = start_tasks handlers e (h ∷ hs) b in
          let none_left = run_tasks_done turns g enough in
          let g' = run_tasks handlers turns g in
          (
            summary_of handlers e g'.bus g'.tally,
            gathered_lem e g' none_left,
            run_tasks-Reports e (h ∷ hs) turns b none_left,
          )

      -- Where the rank of every task gets smaller with each turn that it awaits in, and the event loop
      -- gives as many turns as the ranks of the tasks add up to, one more for each, in whatever order:
      -- publishing returns; every handler of the event's type that was registered at the start has
      -- ended, as often as it was registered, whatever the others raised; and the summary has the
      -- event's id and type, exactly the failures in the order in which they came as errors, their
      -- number as failed, and succeeded and failed add up to the number of these handlers.
      pub publish_lem :
          (e : Envelope D) (turns : List ℕ) (b : Bus W)
          → let hs = handlers_of e.event_type b.handlers in
            let g = start_tasks handlers e hs (read_handlers e.event_type b) in
            turns_needed g.tasks ≤ length turns
            → (s : PublishResult) × (publish handlers e turns b
                ≡ some ((run_tasks handlers turns g).bus, s))
              × Reports e hs (endings handlers turns g) s
      unfolding publish
      publish_lem e turns b enough =
          finished e (handlers_of e.event_type b.handlers) turns (read_handlers e.event_type b)
            enough
