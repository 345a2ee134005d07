-- ===== src/EventBus.antt =====
-- The event bus (core/event_bus.py). A handler is a name; what it does with an event is a
-- parameter: from one `await` to the next it changes the bus (it may register others) and what lies
-- behind it, and in the end it succeeds or raises. The order in which the tasks of `gather` get their
-- turns, a list of positions, is arbitrary.
pub mod Turns
pub mod Calls
use llm_dashboard.Base.{
  ℕ, zero, suc, ◌+◌, ◌==◌, Bool, true, false, not, Option, none, some, List, [], ◌∷◌, ◌++◌, String,
  str_eq, if◌then◌else◌, length, filter, map,
}

-- `_build_event`
pub record Envelope (D : Type 0) : Type 0 where
  pub event_id : String
  pub event_type : String
  pub published_at : ℕ
  pub payload : D

pub record Bus (W : Type 0) : Type 0 where
  pub handlers : List (String × List String)
  pub world : W

pub data HandlerOutcome : Type 0 where
  success : HandlerOutcome
  -- the class of the exception and its text
  raises : String → String → HandlerOutcome

-- What a handler does up to its next `await`, or to its end.
pub data Progress (T : Type 0) : Type 0 where
  awaits : T → Progress T
  ends : HandlerOutcome → Progress T

-- The handlers, with T for a handler that has begun: `start` is the call of the function with the
-- event, `resume` runs it on the bus as it then is.
pub record Handlers (W D T : Type 0) : Type 0 where
  pub start : String → Envelope D → T
  pub resume : T → Bus W → Bus W × Progress T

-- `_handlers[event_type]`: a key that is missing reads as an empty list.
unfoldable pub handlers_of : String → List (String × List String) → List String
handlers_of t [] = []
handlers_of t ((k, hs) ∷ rest) = if str_eq k t then hs else handlers_of t rest

unfoldable pub set_handlers :
    String → List String → List (String × List String) → List (String × List String)
set_handlers t hs [] = (t, hs) ∷ []
set_handlers t hs ((k, old) ∷ rest) =
    if str_eq k t then (k, hs) ∷ rest else (k, old) ∷ set_handlers t hs rest

unfoldable pub has_key : String → List (String × List String) → Bool
has_key t [] = false
has_key t ((k, hs) ∷ rest) = if str_eq k t then true else has_key t rest

-- `list.remove`: the first occurrence.
unfoldable pub remove_first : String → List String → List String
remove_first h [] = []
remove_first h (x ∷ xs) = if str_eq x h then xs else x ∷ remove_first h xs

module _ {W : Type 0} where
  unfoldable pub change_handlers : String → (List String → List String) → Bus W → Bus W
  unfolding handlers_of set_handlers
  change_handlers t f b = record b {
    handlers = set_handlers t (f (handlers_of t b.handlers)) b.handlers;
  }

  -- `subscribe` and `register_handler`; `none` is the TypeError for a function that is not async.
  unfoldable pub register_handler : Bool → String → String → Bus W → Option (Bus W)
  unfolding change_handlers
  register_handler is_async t h b =
      if not is_async then none else some (change_handlers t (λ hs. hs ++ h ∷ []) b)

  -- Reading `_handlers[event_type]` makes the key, with an empty list.
  unfoldable pub read_handlers : String → Bus W → Bus W
  unfolding change_handlers
  read_handlers t b = change_handlers t (λ hs. hs) b

  unfoldable pub unregister_handler : String → String → Bus W → Bus W
  unfolding change_handlers remove_first has_key
  unregister_handler t h b =
      if has_key t b.handlers then change_handlers t (remove_first h) b else b

  unfoldable pub clear_handlers : Option String → Bus W → Bus W
  unfolding change_handlers
  clear_handlers none b = record b { handlers = [] }
  clear_handlers (some t) b = change_handlers t (λ _. []) b

  unfoldable pub get_handler_count : String → Bus W → Bus W × ℕ
  unfolding handlers_of read_handlers
  get_handler_count t b = (read_handlers t b, length (handlers_of t b.handlers))

unfoldable pub has_handlers : String × List String → Bool
has_handlers (t, []) = false
has_handlers (t, h ∷ hs) = true

unfoldable pub get_registered_events : List (String × List String) → List String
unfolding has_handlers
get_registered_events hs = map (λ p. p.0) (filter has_handlers hs)

pub record HandlerFailure : Type 0 where
  pub handler : String
  pub error : String
  pub error_type : String

pub record PublishResult : Type 0 where
  pub event_id : String
  pub event_type : String
  pub handlers_called : ℕ
  pub handlers_succeeded : ℕ
  pub handlers_failed : ℕ
  pub errors : List HandlerFailure

-- The variables that the tasks share.
pub record Tally : Type 0 where
  pub succeeded : ℕ
  pub failed : ℕ
  pub errors : List HandlerFailure

-- What `run_handler` does after the handler has ended.
unfoldable pub note_outcome : String → HandlerOutcome → Tally → Tally
note_outcome h success t = record t { succeeded = t.succeeded + 1 }
note_outcome h (raises class message) t = record t {
  failed = t.failed + 1;
  errors = t.errors ++ record { handler = h; error = message; error_type = class } ∷ [];
}

-- The task at a position, and the others.
unfoldable pub pick {ℓ} : {A : Type ℓ} → ℕ → A → List A → A × List A
pick n x [] = (x, [])
pick zero x (y ∷ ys) = (x, y ∷ ys)
pick (suc n) x (y ∷ ys) = let (a, rest) = pick n y ys in (a, x ∷ rest)

-- The tasks that have not ended, each with the name of its handler.
pub record Gather (W T : Type 0) : Type 0 where
  pub bus : Bus W
  pub tally : Tally
  pub tasks : List (String × T)

module _ {W D T : Type 0} (handlers : Handlers W D T) where
  -- What follows a turn of a task, beside the others.
  unfoldable pub after_turn : String → List (String × T) → Tally → Bus W × Progress T → Gather W T
  unfolding note_outcome
  after_turn h others t (b, awaits task) = record { bus = b; tally = t; tasks = (h, task) ∷ others }
  after_turn h others t (b, ends o) = record { bus = b; tally = note_outcome h o t; tasks = others }

  -- The event loop gives a task its turn: the one at this position, or the last.
  unfoldable pub turn : ℕ → Gather W T → Gather W T
  unfolding pick after_turn
  turn n g = elim (g.tasks) [
    | [] ↦ g
    | x ∷ xs ↦
        let (task, others) = pick n x xs in
        after_turn task.0 others g.tally (handlers.resume task.1 g.bus)
  ]

  -- `asyncio.gather`, with the turns that the event loop gives.
  unfoldable pub run_tasks : List ℕ → Gather W T → Gather W T
  unfolding turn
  run_tasks [] g = g
  run_tasks (n ∷ turns) g = run_tasks turns (turn n g)

  unfoldable pub tasks_of : Envelope D → List String → List (String × T)
  tasks_of e [] = []
  tasks_of e (h ∷ hs) = (h, handlers.start h e) ∷ tasks_of e hs

  unfoldable pub start_tasks : Envelope D → List String → Bus W → Gather W T
  unfolding tasks_of
  start_tasks e hs b = record {
    bus = b;
    tally = record { succeeded = 0; failed = 0; errors = [] };
    tasks = tasks_of e hs;
  }

  unfoldable pub empty_summary : Envelope D → PublishResult
  empty_summary e = record {
    event_id = e.event_id;
    event_type = e.event_type;
    handlers_called = 0;
    handlers_succeeded = 0;
    handlers_failed = 0;
    errors = [];
  }

  -- `handlers_called` is the length of the registered list after the handlers have run.
  unfoldable pub summary_of : Envelope D → Bus W → Tally → PublishResult
  unfolding handlers_of
  summary_of e b t = record {
    event_id = e.event_id;
    event_type = e.event_type;
    handlers_called = length (handlers_of e.event_type b.handlers);
    handlers_succeeded = t.succeeded;
    handlers_failed = t.failed;
    errors = t.errors;
  }

  -- `gather` returns once every task has ended; `none` while one has not.
  unfoldable pub gathered : Envelope D → Gather W T → Option (Bus W × PublishResult)
  unfolding summary_of
  gathered e g = elim (g.tasks) [ [] ↦ some (g.bus, summary_of e g.bus g.tally) | x ∷ xs ↦ none ]

  unfoldable pub publish_to :
      Envelope D → List String → List ℕ → Bus W → Option (Bus W × PublishResult)
  unfolding run_tasks start_tasks empty_summary gathered
  publish_to e [] turns b = some (b, empty_summary e)
  publish_to e (h ∷ hs) turns b = gathered e (run_tasks turns (start_tasks e (h ∷ hs) b))

  unfoldable pub publish : Envelope D → List ℕ → Bus W → Option (Bus W × PublishResult)
  unfolding publish_to handlers_of read_handlers
  publish e turns b =
      publish_to e (handlers_of e.event_type b.handlers) turns (read_handlers e.event_type b)
