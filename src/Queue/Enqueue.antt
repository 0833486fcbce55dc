-- ===== src/Queue/Enqueue.antt =====
-- `enqueue` and `get` of `TaskQueue`. A method takes the instant that it reads from the clock, and
-- returns its result with the new database.
use diff_graph.Base.{
  List, Option, String, [], any, decimal, if◌then◌else◌, none, not, some, str_eq, ℕ, ◌&&◌, ◌++◌,
  ◌+◌, ◌<>◌, ◌==◌, ◌∷◌,
}
use diff_graph.Queue.Rows.{Db, Task, TaskSpec, default_max_retries, has_id}
use diff_graph.Table.{find?}

-- `_add` of `enqueue`.
unfoldable pub add_uri : List String → String → List String
add_uri uris u = if not (str_eq u "") && not (any (str_eq u) uris) then uris ++ u ∷ [] else uris

unfoldable pub add_uris : List String → List String → List String
unfolding add_uri
add_uris uris [] = uris
add_uris uris (u ∷ us) = add_uris (add_uri uris u) us

-- `if spec.plan_id: _add(f"plan://{spec.plan_id}")`; zero is false.
unfoldable pub plan_uri : Option ℕ → List String
plan_uri none = []
plan_uri (some p) = if p == 0 then [] else ("plan://" <> decimal p) ∷ []

unfoldable pub queue_uri : String → List String
queue_uri q = if str_eq q "" then [] else ("provider://" <> q) ∷ []

unfoldable pub resource_uris : TaskSpec → List String
unfolding add_uris plan_uri queue_uri
resource_uris spec =
    add_uris
      (add_uris (add_uris (add_uris [] spec.resources) spec.payload.resources)
        (queue_uri spec.queue))
      (plan_uri spec.plan_id)

abbrev pub new_task : ℕ → TaskSpec → ℕ → Task
new_task id spec now = record {
  id = id;
  state = spec.initial_state;
  kind = spec.kind;
  parent_task_id = spec.parent_task_id;
  queue = spec.queue;
  attempt_n = spec.attempt_n;
  plan_id = spec.plan_id;
  priority = spec.priority;
  payload = spec.payload;
  resources = resource_uris spec;
  not_before = spec.not_before;
  lease_owner = none;
  lease_expires_at = none;
  enqueued_at = now;
  started_at = none;
  finished_at = none;
  trace_run_id = none;
  result_json = none;
  error_class = none;
  retry_count = 0;
  max_retries = default_max_retries;
}

unfoldable pub enqueue : TaskSpec → ℕ → Db → ℕ × Db
enqueue spec now db = (
  db.next_task,
  record db {
    tasks = db.tasks ++ new_task db.next_task spec now ∷ [];
    next_task = db.next_task + 1;
  },
)

unfoldable pub get : ℕ → Db → Option Task
get id db = find? (has_id id) db.tasks
