-- ===== src/Queue/Rows.antt =====
-- The rows of quality_api/queue.py and the constants it names. An instant is a number of
-- microseconds: every timestamp is a UTC ISO text with one offset, and those sort as the instants.
use diff_graph.Base.{
  Bool, List, Option, String, [], any, false, is_text, none, some, str_eq, true, ℕ, ◌&&◌, ◌*◌, ◌==◌,
  ◌∷◌,
}

-- A task's `state`, and the `status` that ends it.
pub data TaskState : Type 0 where
  queued leased running finished error cancelled blocked : TaskState

pub data TaskKind : Type 0 where
  agent judge : TaskKind

-- The keys of a task's payload that the code reads or writes; `rest` is the JSON of the others.
pub record Payload : Type 0 where
  pub plan_name : Option String
  pub bench_cmd : Option String
  pub resources : List String
  pub rest : String

pub record TaskSpec : Type 0 where
  pub queue : String
  pub attempt_n : ℕ
  pub plan_id : Option ℕ
  pub priority : ℕ
  pub payload : Payload
  pub resources : List String
  pub not_before : Option ℕ
  pub kind : TaskKind
  pub parent_task_id : Option ℕ
  pub initial_state : TaskState

-- A row of qa_tasks; `result_json` is the JSON text.
pub record Task : Type 0 where
  pub id : ℕ
  pub state : TaskState
  pub kind : TaskKind
  pub parent_task_id : Option ℕ
  pub queue : String
  pub attempt_n : ℕ
  pub plan_id : Option ℕ
  pub priority : ℕ
  pub payload : Payload
  pub resources : List String
  pub not_before : Option ℕ
  pub lease_owner : Option String
  pub lease_expires_at : Option ℕ
  pub enqueued_at : ℕ
  pub started_at : Option ℕ
  pub finished_at : Option ℕ
  pub trace_run_id : Option String
  pub result_json : Option String
  pub error_class : Option String
  pub retry_count : ℕ
  pub max_retries : ℕ

pub data WorkerState : Type 0 where
  running stopped dead : WorkerState

-- A row of qa_workers.
pub record Worker : Type 0 where
  pub id : String
  pub pid : Option ℕ
  pub queue : String
  pub capacity : ℕ
  pub started_at : ℕ
  pub last_heartbeat : ℕ
  pub state : WorkerState

pub data PlanState : Type 0 where
  running done cancelled : PlanState

pub record PlanSpec : Type 0 where
  pub name : String
  pub created_by : String
  pub lineages : List String
  pub providers : List String
  pub scenarios : List String
  pub attempts_min : ℕ
  pub priority : ℕ
  pub notes : String

-- A row of qa_plans.
pub record Plan : Type 0 where
  pub id : ℕ
  pub name : String
  pub created_at : ℕ
  pub created_by : String
  pub lineages : List String
  pub providers : List String
  pub scenarios : List String
  pub attempts_min : ℕ
  pub state : PlanState
  pub notes : String

-- What the queue reads of the trace tables `runs` and `events`.
pub record Run : Type 0 where
  pub id : String
  pub scenario_id : Option String
  pub mutation : Option String

pub record Event : Type 0 where
  pub run_id : String
  pub timestamp : ℕ

pub record Traces : Type 0 where
  pub runs : List Run
  pub events : List Event

-- The database: the tables, and SQLite's next AUTOINCREMENT ids. Another module creates the trace
-- tables; `none` stands for a database that lacks them, where a statement that reads them raises.
pub record Db : Type 0 where
  pub tasks : List Task
  pub next_task : ℕ
  pub workers : List Worker
  pub plans : List Plan
  pub next_plan : ℕ
  pub traces : Option Traces

abbrev pub empty_db : Db
empty_db = record {
  tasks = [];
  next_task = 1;
  workers = [];
  plans = [];
  next_plan = 1;
  traces = none;
}

-- `timedelta(seconds=n)`.
abbrev pub seconds : ℕ → ℕ
seconds n = n * 1_000_000

abbrev pub default_lease_seconds : ℕ
default_lease_seconds = 60

abbrev pub default_heartbeat_grace_seconds : ℕ
default_heartbeat_grace_seconds = 180

abbrev pub default_max_retries : ℕ
default_max_retries = 3

abbrev pub retryable_error_classes : List String
retryable_error_classes = "non_zero_exit" ∷ "timeout" ∷ "lease_expired" ∷ "worker_died" ∷ []

-- `error_class in RETRYABLE_ERROR_CLASSES`; `None` is not.
abbrev pub is_retryable : Option String → Bool
is_retryable none = false
is_retryable (some c) = any (str_eq c) retryable_error_classes

-- The state sets of the statements' `IN (…)` clauses.
abbrev pub is_queued : TaskState → Bool
is_queued queued = true
is_queued _ = false

abbrev pub is_held : TaskState → Bool
is_held leased = true
is_held TaskState.running = true
is_held _ = false

abbrev pub is_open : TaskState → Bool
is_open queued = true
is_open leased = true
is_open TaskState.running = true
is_open _ = false

abbrev pub is_waiting : TaskState → Bool
is_waiting blocked = true
is_waiting queued = true
is_waiting _ = false

abbrev pub is_unfinished : TaskState → Bool
is_unfinished finished = false
is_unfinished error = false
is_unfinished TaskState.cancelled = false
is_unfinished _ = true

abbrev pub is_terminal : TaskState → Bool
is_terminal finished = true
is_terminal error = true
is_terminal TaskState.cancelled = true
is_terminal _ = false

abbrev pub is_agent : TaskKind → Bool
is_agent agent = true
is_agent judge = false

abbrev pub is_gone : WorkerState → Bool
is_gone WorkerState.running = false
is_gone stopped = true
is_gone dead = true

abbrev pub is_error : TaskState → Bool
is_error error = true
is_error _ = false

abbrev pub is_running : PlanState → Bool
is_running PlanState.running = true
is_running _ = false

abbrev pub has_id : ℕ → Task → Bool
has_id id t = t.id == id

-- WHERE id=? AND lease_owner=?
abbrev pub is_owned : ℕ → String → Task → Bool
is_owned id worker t = t.id == id && is_text t.lease_owner worker

-- What a task keeps of its lease when it goes back to the queue: nothing.
abbrev pub release : Task → Task
release t = record t {
  state = queued;
  lease_owner = none;
  lease_expires_at = none;
  started_at = none;
}
