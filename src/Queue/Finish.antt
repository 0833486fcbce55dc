-- ===== src/Queue/Finish.antt =====
-- `finish` and `_maybe_finish_plan` of `TaskQueue`: retries, terminal states, the companion judge
-- tasks, and the end of a plan. A method takes the instant that it reads from the clock, and
-- returns its result with the new database.
use diff_graph.Base.{
  Bool, Option, String, false, if◌then◌else◌, is_number, ltb, none, not, some, true, ℕ, ◌&&◌, ◌+◌,
  ◌<>◌, ◌==◌, ◌||◌,
}
use diff_graph.Queue.Rows.{
  Db, Plan, PlanState, Task, TaskState, cancelled, finished, has_id, is_agent, is_error, is_open,
  is_owned, is_retryable, is_running, is_terminal, is_waiting, queued,
}
use diff_graph.Table.{any_row, find?, update}

-- What a worker reports when it is done with a task.
pub record Report : Type 0 where
  pub state : TaskState
  pub trace_run_id : Option String
  pub result : Option String
  pub error_class : Option String

-- COALESCE(?, column).
abbrev pub coalesce : Option String → Option String → Option String
coalesce none old = old
coalesce (some new) old = some new

abbrev pub retry_class : Option String → Option String
retry_class none = none
retry_class (some c) = some ("retry:" <> c)

abbrev pub requeue : Report → Task → Task
requeue report t = record t {
  state = queued;
  retry_count = t.retry_count + 1;
  lease_owner = none;
  lease_expires_at = none;
  started_at = none;
  finished_at = none;
  error_class = retry_class report.error_class;
  result_json = report.result;
}

abbrev pub conclude : Report → ℕ → Task → Task
conclude report now t = record t {
  state = report.state;
  finished_at = some now;
  trace_run_id = coalesce report.trace_run_id t.trace_run_id;
  result_json = report.result;
  error_class = report.error_class;
}

-- `judge_state`.
abbrev pub judge_state : TaskState → TaskState
judge_state finished = finished
judge_state _ = cancelled

-- The companions of an agent task that still wait.
abbrev pub is_companion : ℕ → Task → Bool
is_companion id t = is_number t.parent_task_id id && not (is_agent t.kind) && is_waiting t.state

abbrev pub follow : Report → ℕ → Task → Task
follow report now t = record t {
  state = judge_state report.state;
  finished_at = some now;
  trace_run_id = coalesce report.trace_run_id t.trace_run_id;
  error_class = report.error_class;
}

-- `state == "error" and error_class in RETRYABLE_ERROR_CLASSES`.
abbrev pub is_transient : Report → Bool
is_transient report = is_error report.state && is_retryable report.error_class

abbrev pub has_retries : Option Task → Bool
has_retries none = false
has_retries (some t) = ltb t.retry_count t.max_retries

-- The retry branch of `finish` is taken.
abbrev pub will_retry : ℕ → String → Report → Db → Bool
will_retry id worker report db =
    is_transient report && has_retries (find? (is_owned id worker) db.tasks)

abbrev pub is_of_plan : ℕ → Task → Bool
is_of_plan plan t = is_number t.plan_id plan && is_open t.state

abbrev pub is_running_plan : ℕ → Plan → Bool
is_running_plan plan p = p.id == plan && is_running p.state

-- `row["state"] == "running"` of the plan with the id is the test of the statement itself.
unfoldable pub maybe_finish_plan : ℕ → Db → Bool × Db
maybe_finish_plan plan db =
    if not (any_row (is_running_plan plan) db.plans) || any_row (is_of_plan plan) db.tasks
    then (false, db)
    else (
      true,
      record db {
        plans = update (is_running_plan plan) (λ p. record p { state = PlanState.done }) db.plans;
      },
    )

abbrev pub plan_of : Option Task → Option ℕ
plan_of none = none
plan_of (some t) = t.plan_id

unfoldable pub conclude_plan : Option ℕ → Db → Db
unfolding maybe_finish_plan
conclude_plan none db = db
conclude_plan (some plan) db = (maybe_finish_plan plan db).1

-- The terminal branch of `finish`: the row, its companions, the plan.
unfoldable pub conclude_task : ℕ → String → Report → ℕ → Db → Db
unfolding conclude_plan
conclude_task id worker report now db =
    let rows = update (is_owned id worker) (conclude report now) db.tasks in
    let after = record db { tasks = update (is_companion id) (follow report now) rows } in
    conclude_plan (plan_of (find? (has_id id) after.tasks)) after

-- `none` is the ValueError for a state that is not terminal.
unfoldable pub finish : ℕ → String → Report → ℕ → Db → Option (Bool × Db)
unfolding conclude_task
finish id worker report now db =
    if not (is_terminal report.state)
    then none
    else if will_retry id worker report db
    then some (true, record db { tasks = update (is_owned id worker) (requeue report) db.tasks })
    else if any_row (is_owned id worker) db.tasks
    then some (true, conclude_task id worker report now db)
    else some (false, db)
