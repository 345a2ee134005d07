-- ===== src/Tests/Bus.antt =====
-- The event bus at concrete inputs.
use llm_dashboard.Base.{
  ℕ, suc, zero, ◌≡◌, refl, none, some, List, [], ◌∷◌, String, if◌then◌else◌, str_eq, arith, Option,
}
use llm_dashboard.EventBus.{
  Envelope, Bus, Handlers, awaits, ends, success, raises, publish, publish_to, run_tasks, turn,
  after_turn, pick, start_tasks, tasks_of, gathered, note_outcome, summary_of, read_handlers,
  change_handlers, handlers_of, set_handlers, PublishResult, Gather,
}
use llm_dashboard.EventBus.Turns.{endings, sum_of}
use llm_dashboard.EventBus.Calls.{GetsDone, Reports, publish_lem}

-- A handler that awaits as often as its number says, leaving its name each time, and then ends; the
-- handler "detect" raises.
abbrev noted : Handlers (List String) Unit (String × ℕ)
noted = record {
  start = λ h e. (h, 1);
  resume = λ task b. elim (task.1) [
    | zero ↦ (b, ends (if str_eq task.0 "detect" then raises "ValueError" "no model" else success))
    | suc n ↦ (record b { world = task.0 ∷ b.world }, awaits (task.0, n))
  ];
}

abbrev rank : String × ℕ → ℕ
rank task = task.1

noted-GetsDone : GetsDone noted rank
noted-GetsDone (h, zero) t' b e = cc
noted-GetsDone (h, suc n) t' b e = ground arith

abbrev completed : Envelope Unit
completed = record {
  event_id = "e1";
  event_type = "llm.call.completed";
  published_at = 7;
  payload = tt;
}

abbrev bus : Bus (List String)
bus = record {
  handlers = ("alert", "page" ∷ []) ∷ ("llm.call.completed", "detect" ∷ "bill" ∷ []) ∷ [];
  world = [];
}

abbrev turns : List ℕ
turns = 0 ∷ 1 ∷ 0 ∷ 0 ∷ []

abbrev after_map : Option (Bus (List String) × PublishResult) → List String
after_map none = []
after_map (some r) = r.0.world

both_run : after_map (publish noted completed turns bus) ≡ "bill" ∷ "detect" ∷ []
unfolding publish publish_to run_tasks turn after_turn pick start_tasks tasks_of gathered
    note_outcome summary_of read_handlers change_handlers handlers_of set_handlers
both_run = refl

abbrev start : Gather (List String) (String × ℕ)
start =
    start_tasks noted completed ("detect" ∷ "bill" ∷ []) (read_handlers "llm.call.completed" bus)

publish_lem_example :
    (s : PublishResult) × (publish noted completed turns bus
      ≡ some ((run_tasks noted turns start).bus, s))
    × Reports completed ("detect" ∷ "bill" ∷ []) (endings noted turns start) s
unfolding handlers_of sum_of start_tasks tasks_of
publish_lem_example = publish_lem noted rank noted-GetsDone completed turns bus (omega arith)
