-- ===== src/Queue/Steps.antt =====
-- Runs of the task queue: any number of workers, supervisors and clients call its methods in any
-- order, each call as one step, and the clock reads what it reads.
use diff_graph.Base.{Bool, List, Option, String, some, true, ℕ, ◌≡◌}
use diff_graph.Queue.Anonymous.{AnonymousSpec, create_anonymous}
use diff_graph.Queue.Enqueue.{enqueue}
use diff_graph.Queue.Finish.{Report, finish}
use diff_graph.Queue.Invariant.{IsValid, IsValid-empty_db}
use diff_graph.Queue.Keeps.Finishes.{finish-IsValid}
use diff_graph.Queue.Keeps.Leases.{
  cancel-IsValid, enqueue-IsValid, force_release_all_leases-IsValid, heartbeat-IsValid,
  lease-IsValid, reap_stale_leases-IsValid, set_task_trace_run_id-IsValid,
}
use diff_graph.Queue.Keeps.Plans.{cancel_plan-IsValid, create-IsValid, list_workers-IsValid}
use diff_graph.Queue.Lease.{
  force_release_all_leases, heartbeat, lease, reap_stale_leases, set_task_trace_run_id,
}
use diff_graph.Queue.Plans.{create}
use diff_graph.Queue.Rounds.{create_anonymous-IsValid}
use diff_graph.Queue.Rows.{Db, PlanSpec, TaskSpec, WorkerState, empty_db, is_waiting}
use diff_graph.Queue.Workers.{list_workers, register_worker, worker_heartbeat, worker_set_state}
use diff_graph.Queue.Lease
use diff_graph.Queue.Plans

-- One method call on the database. A new task starts queued or blocked, as `TaskSpec` says.
pub data Step (db : Db) : Db → Type 0 where
  enqueues :
      (spec : TaskSpec) (now : ℕ)
      → is_waiting spec.initial_state ≡ true
      → Step db (enqueue spec now db).1
  leases : (queue worker : String) (n now : ℕ) → Step db (lease queue worker n now db).1
  beats : (id : ℕ) (worker : String) (n now : ℕ) → Step db (heartbeat id worker n now db).1
  finishes :
      {db' : Db} (id : ℕ) (worker : String) (report : Report) (now : ℕ) (done : Bool)
      → finish id worker report now db ≡ some (done, db')
      → Step db db'
  stamps : (id : ℕ) (run : String) → Step db (set_task_trace_run_id id run db).1
  cancels : (id now : ℕ) → Step db (Lease.cancel id now db).1
  forces : (reason : String) → Step db (force_release_all_leases reason db).1
  reaps : (grace now : ℕ) → Step db (reap_stale_leases grace now db).1
  registers :
      (worker : Option String) (fresh queue : String) (capacity : ℕ) (pid : Option ℕ) (now : ℕ)
      → Step db (register_worker worker fresh queue capacity pid now db).1
  lives : (worker : String) (now : ℕ) → Step db (worker_heartbeat worker now db).1
  sets :
      (worker : String) (state : WorkerState) (now : ℕ)
      → Step db (worker_set_state worker state now db).1
  lists :
      (like : String → String → Bool) (stale_after gc_after now : ℕ)
      → Step db (list_workers like stale_after gc_after now db).1
  plans :
      {db' : Db} (bench_cmd : String → String) (spec : PlanSpec) (now : ℕ) (made : ℕ × List ℕ)
      → create bench_cmd spec now db ≡ some (made, db')
      → Step db db'
  fires :
      {db' : Db} (strip : String → String) (spec : AnonymousSpec) (now : ℕ) (made : ℕ × List ℕ)
      → create_anonymous strip spec now db ≡ some (made, db')
      → Step db db'
  drops : (plan now : ℕ) → Step db (Plans.cancel plan now db).1

pub data Reach (db : Db) : Db → Type 0 where
  here : Reach db db
  next : {x y : Db} → Reach db x → Step x y → Reach db y

pub Step-IsValid : {x y : Db} → Step x y → IsValid x → IsValid y
unfolding register_worker worker_heartbeat worker_set_state
Step-IsValid {x} (enqueues spec now w) v = enqueue-IsValid spec now x w v
Step-IsValid {x} (leases q w n now) v = lease-IsValid q w n now x v
Step-IsValid {x} (beats id w n now) v = heartbeat-IsValid id w n now x v
Step-IsValid {x} {y} (finishes id w report now done e) v =
    finish-IsValid id w report now x done y e v
Step-IsValid {x} (stamps id run) v = set_task_trace_run_id-IsValid id run x v
Step-IsValid {x} (cancels id now) v = cancel-IsValid id now x v
Step-IsValid {x} (forces reason) v = force_release_all_leases-IsValid reason x v
Step-IsValid {x} (reaps grace now) v = reap_stale_leases-IsValid grace now x v
Step-IsValid {x} (registers w fresh q c pid now) v = record {
  ascending = v.ascending;
  rows = v.rows;
}
Step-IsValid {x} (lives w now) v = record { ascending = v.ascending; rows = v.rows }
Step-IsValid {x} (sets w s now) v = record { ascending = v.ascending; rows = v.rows }
Step-IsValid {x} (lists like s g now) v = list_workers-IsValid like s g now x v
Step-IsValid {x} {y} (plans b spec now made e) v = create-IsValid b spec now x made y e v
Step-IsValid {x} {y} (fires strip spec now made e) v =
    create_anonymous-IsValid strip spec now x made y e v
Step-IsValid {x} (drops plan now) v = cancel_plan-IsValid plan now x v

-- In every database that the methods reach from an empty one, the task ids ascend below the next
-- id, a leased or running task has an owner and an expiry, a queued or blocked task has no owner, a
-- judge task is never leased, and no task has been retried more often than its `max_retries`.
pub Reach-IsValid : {db : Db} → Reach empty_db db → IsValid db
Reach-IsValid here = IsValid-empty_db
Reach-IsValid (next r s) = Step-IsValid s (Reach-IsValid r)
