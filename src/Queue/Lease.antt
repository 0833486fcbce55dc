-- ===== src/Queue/Lease.antt =====
-- How `TaskQueue` hands a task to a worker and takes it back: `lease`, `heartbeat`, `cancel`, the
-- reaper and the forced release. A method takes the instant that it reads from the clock, and
-- returns its result with the new database.
use diff_graph.Base.{
  Bool, Option, String, count_if, false, leb, ltb, none, some, str_eq, true, ℕ, ◌&&◌, ◌+◌, ◌-◌,
  ◌==◌, ◌||◌,
}
use diff_graph.Queue.Rows.{
  Db, Task, TaskState, cancelled, has_id, is_agent, is_held, is_open, is_owned, is_queued, leased,
  release, seconds,
}
use diff_graph.Table.{any_row, find?, first_by, update}

-- `not_before IS NULL OR not_before <= ?`.
abbrev pub is_due : Option ℕ → ℕ → Bool
is_due none now = true
is_due (some t) now = leb t now

-- The WHERE clause of `lease`.
abbrev pub is_eligible : String → ℕ → Task → Bool
is_eligible queue now t =
    is_queued t.state && str_eq t.queue queue && is_agent t.kind && is_due t.not_before now

-- ORDER BY priority ASC, enqueued_at ASC.
abbrev pub precedes : Task → Task → Bool
precedes a b =
    ltb a.priority b.priority || (a.priority == b.priority && ltb a.enqueued_at b.enqueued_at)

abbrev pub claim : String → ℕ → ℕ → Task → Task
claim worker expires now t = record t {
  state = leased;
  lease_owner = some worker;
  lease_expires_at = some expires;
  started_at = some now;
}

unfoldable pub lease : String → String → ℕ → ℕ → Db → Option Task × Db
lease queue worker lease_seconds now db =
    elim (first_by precedes (is_eligible queue now) db.tasks) [
      | none ↦ (none, db)
      | some row ↦
          let tasks =
            update (has_id row.id) (claim worker (now + seconds lease_seconds) now) db.tasks in
          (find? (has_id row.id) tasks, record db { tasks = tasks })
    ]

-- The same AND state IN ('leased', 'running').
abbrev pub is_beating : ℕ → String → Task → Bool
is_beating id worker t = is_owned id worker t && is_held t.state

abbrev pub beat : ℕ → Task → Task
beat expires t = record t { lease_expires_at = some expires; state = TaskState.running }

unfoldable pub heartbeat : ℕ → String → ℕ → ℕ → Db → Bool × Db
heartbeat id worker lease_seconds now db = (
  any_row (is_beating id worker) db.tasks,
  record db { tasks = update (is_beating id worker) (beat (now + seconds lease_seconds)) db.tasks },
)

unfoldable pub set_task_trace_run_id : ℕ → String → Db → Bool × Db
set_task_trace_run_id id run db = (
  any_row (has_id id) db.tasks,
  record db { tasks = update (has_id id) (λ t. record t { trace_run_id = some run }) db.tasks },
)

abbrev pub is_cancellable : ℕ → Task → Bool
is_cancellable id t = t.id == id && is_open t.state

abbrev pub cancel_row : ℕ → Task → Task
cancel_row now t = record t { state = cancelled; finished_at = some now }

unfoldable pub cancel : ℕ → ℕ → Db → Bool × Db
cancel id now db = (
  any_row (is_cancellable id) db.tasks,
  record db { tasks = update (is_cancellable id) (cancel_row now) db.tasks },
)

unfoldable pub force_release_all_leases : String → Db → ℕ × Db
force_release_all_leases reason db = (
  count_if (λ t. is_held t.state) db.tasks,
  record db {
    tasks =
        update (λ t. is_held t.state) (λ t. record (release t) { error_class = some reason })
          db.tasks;
  },
)

-- `lease_expires_at IS NOT NULL AND lease_expires_at < ?`.
abbrev pub has_expired : ℕ → Option ℕ → Bool
has_expired cutoff none = false
has_expired cutoff (some t) = ltb t cutoff

abbrev pub is_stale : ℕ → Task → Bool
is_stale cutoff t = is_held t.state && has_expired cutoff t.lease_expires_at

unfoldable pub reap_stale_leases : ℕ → ℕ → Db → ℕ × Db
reap_stale_leases grace_seconds now db =
    let cutoff = now - seconds grace_seconds in
    (
      count_if (is_stale cutoff) db.tasks,
      record db { tasks = update (is_stale cutoff) release db.tasks },
    )
