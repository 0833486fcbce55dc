-- ===== src/Queue/Workers.antt =====
-- The methods of `TaskQueue` on workers.
use diff_graph.Base.{
  Bool, List, Option, String, [], any, false, if◌then◌else◌, is_text, ltb, none, not, some, str_eq,
  ℕ, ◌&&◌, ◌++◌, ◌-◌, ◌<>◌, ◌∷◌,
}
use diff_graph.Queue.Rows.{
  Db, Event, Task, Traces, Worker, WorkerState, dead, is_gone, is_held, release, seconds,
}
use diff_graph.Table.{any_row, delete, update}

abbrev pub is_worker : String → Worker → Bool
is_worker id w = str_eq w.id id

-- `worker_id or str(uuid.uuid4())[:12]`: `fresh` is what the uuid module draws.
unfoldable pub worker_name : Option String → String → String
worker_name none fresh = fresh
worker_name (some id) fresh = if str_eq id "" then fresh else id

-- INSERT OR REPLACE.
unfoldable pub register_worker :
    Option String → String → String → ℕ → Option ℕ → ℕ → Db → String × Db
register_worker worker_id fresh queue capacity pid now db =
    let id = worker_name worker_id fresh in
    let row : Worker = record {
      id = id;
      pid = pid;
      queue = queue;
      capacity = capacity;
      started_at = now;
      last_heartbeat = now;
      state = WorkerState.running;
    } in
    (id, record db { workers = delete (is_worker id) db.workers ++ row ∷ [] })

unfoldable pub worker_heartbeat : String → ℕ → Db → Bool × Db
worker_heartbeat id now db = (
  any_row (is_worker id) db.workers,
  record db {
    workers =
        update (is_worker id) (λ w. record w { last_heartbeat = now; state = WorkerState.running })
          db.workers;
  },
)

unfoldable pub worker_set_state : String → WorkerState → ℕ → Db → Bool × Db
worker_set_state id state now db = (
  any_row (is_worker id) db.workers,
  record db {
    workers =
        update (is_worker id) (λ w. record w { state = state; last_heartbeat = now }) db.workers;
  },
)

-- ORDER BY started_at DESC.
insert_newest : Worker → List Worker → List Worker
insert_newest w [] = w ∷ []
insert_newest w (v ∷ vs) =
    if ltb w.started_at v.started_at then v ∷ insert_newest w vs else w ∷ v ∷ vs

newest_first : List Worker → List Worker
newest_first [] = []
newest_first (w ∷ ws) = insert_newest w (newest_first ws)

abbrev pub is_working : Worker → Bool
is_working w = not (is_gone w.state)

abbrev pub is_silent : ℕ → Worker → Bool
is_silent cutoff w = is_working w && ltb w.last_heartbeat cutoff

-- Owned by a worker that is dead or stopped.
abbrev pub is_orphan : List Worker → Task → Bool
is_orphan workers t =
    is_held t.state && any (λ w. is_gone w.state && is_text t.lease_owner w.id) workers

abbrev pub is_expired_row : ℕ → Worker → Bool
is_expired_row cutoff w = is_gone w.state && ltb w.last_heartbeat cutoff

-- `like` is SQLite's LIKE, the text first and the pattern second.
module _ (like : String → String → Bool) where
  -- `EXISTS (SELECT 1 FROM json_each(t.resources) …)`; NULL in the concatenation matches nothing.
  abbrev pub has_scenario : List String → Option String → Bool
  has_scenario resources none = false
  has_scenario resources (some s) = any (str_eq ("scenario://" <> s)) resources

  abbrev pub has_mutation : List String → Option String → Bool
  has_mutation resources none = false
  has_mutation resources (some m) = any (λ r. like r (("mutation://" <> m) <> "%")) resources

  abbrev pub has_event : String → ℕ → List Event → Bool
  has_event run cutoff events = any (λ e. str_eq e.run_id run && ltb cutoff e.timestamp) events

  -- The worker is the owner of a held task of which some run emitted an event after the cutoff.
  abbrev pub is_traced : Db → Traces → ℕ → Worker → Bool
  is_traced db traces cutoff w =
      any
        (λ t.
          is_held t.state
          && is_text t.lease_owner w.id
          && any
              (λ r.
                has_scenario t.resources r.scenario_id
                && has_mutation t.resources r.mutation
                && has_event r.id cutoff traces.events)
              traces.runs)
        db.tasks

  -- The fleet after the first two statements: traced workers live on, silent ones are dead.
  abbrev pub judged : ℕ → ℕ → Db → Traces → List Worker
  judged stale now db traces =
      update (is_silent stale) (λ w. record w { state = dead })
        (update (λ w. is_silent stale w && is_traced db traces stale w)
          (λ w. record w { last_heartbeat = now }) db.workers)

  -- The statements of the `try` block.
  unfoldable pub heal : ℕ → ℕ → ℕ → Db → Traces → Db
  heal stale_after gc_after now db traces =
      let fleet = judged (now - seconds stale_after) now db traces in
      let gc = now - seconds gc_after in
      record db {
        workers = if ltb 0 gc_after then delete (is_expired_row gc) fleet else fleet;
        tasks = update (is_orphan fleet) release db.tasks;
      }

  -- Without the trace tables the first statement raises, and `except: pass` skips them all.
  unfoldable pub list_workers : ℕ → ℕ → ℕ → Db → List Worker × Db
  unfolding newest_first insert_newest
  list_workers stale_after gc_after now db =
      let db' : Db = elim db.traces [ none ↦ db | some t ↦ heal stale_after gc_after now db t ] in
      (newest_first db'.workers, db')
