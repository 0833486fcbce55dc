-- ===== src/Queue/Tests.antt =====
-- The theorems on the task queue at small databases.
use diff_graph.Base.{
  All, Bool, List, Memᴰ, Option, String, [], arith, count_if, false, length, none, refl, some, true,
  ℕ, ◌-◌, ◌↔◌, ◌∷◌, ◌≡◌, ◌≢◌, ◌≤◌,
}
use diff_graph.Queue.Cells.{IsRound}
use diff_graph.Queue.Ending.{finish_companions, finish_revives_cancelled}
use diff_graph.Queue.Enqueue.{enqueue, new_task}
use diff_graph.Queue.Exclusion.{lease_exclusive}
use diff_graph.Queue.Fanout.{AreFor, IsPaired, create_fan_out}
use diff_graph.Queue.Finish.{Report, finish, is_companion, requeue}
use diff_graph.Queue.Healing.{list_workers_heals}
use diff_graph.Queue.Ids.{ids}
use diff_graph.Queue.Invariant.{IsValid}
use diff_graph.Queue.Lease.{cancel_row, claim, is_eligible, is_stale, lease, reap_stale_leases}
use diff_graph.Queue.Leasing.{Claimed, lease_claims}
use diff_graph.Queue.LifeCycle.{Evolves, Step-Evolves}
use diff_graph.Queue.Plans.{Cell, create, lineages_or_blank}
use diff_graph.Queue.Progress.{poll, poll_drains}
use diff_graph.Queue.Rows.{
  Db, Payload, PlanSpec, PlanState, Task, TaskSpec, agent, blocked, empty_db, error, finished,
  judge, queued, seconds, stopped,
}
use diff_graph.Queue.Steps.{Reach, Reach-IsValid, Step}
use diff_graph.Queue.Workers.{is_orphan, is_silent, list_workers}
use diff_graph.Table.{any_row, find?, first_by, update}
use diff_graph.Queue.Enqueue
use diff_graph.Queue.Lease

abbrev bench : Payload
bench = record { plan_name = none; bench_cmd = some "bench run"; resources = []; rest = "{}" }

abbrev spec : TaskSpec
spec = record {
  queue = "qwen";
  attempt_n = 1;
  plan_id = some 1;
  priority = 5;
  payload = bench;
  resources = [];
  not_before = none;
  kind = agent;
  parent_task_id = none;
  initial_state = queued;
}

abbrev judge_of_first : TaskSpec
judge_of_first = record spec { kind = judge; parent_task_id = some 1; initial_state = blocked }

-- One agent task with its judge; then the agent task leased; then cancelled.
abbrev first_db : Db
first_db = (enqueue judge_of_first 0 (enqueue spec 0 empty_db).1).1

abbrev leased_db : Db
leased_db = (lease "qwen" "w1" 60 1000 first_db).1

abbrev cancelled_db : Db
cancelled_db = (Lease.cancel 1 2000 leased_db).1

abbrev failing : Report
failing = record { state = error; trace_run_id = none; result = none; error_class = some "timeout" }

abbrev succeeding : Report
succeeding = record { state = finished; trace_run_id = some "r"; result = none; error_class = none }

first_reach : Reach empty_db first_db
first_reach =
    Reach.next (Reach.next Reach.here (Step.enqueues spec 0 refl))
      (Step.enqueues judge_of_first 0 refl)

leased_reach : Reach empty_db leased_db
leased_reach = Reach.next first_reach (Step.leases "qwen" "w1" 60 1000)

abbrev silent_like : String → String → Bool
silent_like text pattern = false

abbrev plan_spec : PlanSpec
plan_spec = record {
  name = "p";
  created_by = "me";
  lineages = [];
  providers = "qwen" ∷ [];
  scenarios = "s1" ∷ "s2" ∷ [];
  attempts_min = 2;
  priority = 100;
  notes = "";
}

abbrev traced_db : Db
traced_db = record leased_db {
  workers =
      record {
        id = "w1";
        pid = none;
        queue = "qwen";
        capacity = 1;
        started_at = 0;
        last_heartbeat = 0;
        state = stopped;
      }
      ∷ [];
  traces = some (record { runs = []; events = [] });
}

abbrev first_task : Task
first_task = new_task 1 spec 0

abbrev leased_task : Task
leased_task = claim "w1" 60_001_000 1000 first_task

Reach-IsValid_example : IsValid leased_db
Reach-IsValid_example = Reach-IsValid leased_reach

abbrev two_tasks : Db
two_tasks = (enqueue spec 500 leased_db).1

lease_exclusive_example : ◌≢◌ {A = ℕ} 3 1
unfolding enqueue lease any_row first_by update find?
lease_exclusive_example =
    lease_exclusive 1 "w1" "qwen" "w2" 60 2000 two_tasks
      (claim "w2" 60_002_000 2000 (new_task 3 spec 500))
      (Reach-IsValid (Reach.next leased_reach (Step.enqueues spec 500 refl))) refl refl

lease_claims_example : (row : Task) × Claimed "qwen" "w1" 60 1000 first_db leased_db leased_task row
unfolding enqueue lease any_row first_by update find?
lease_claims_example =
    lease_claims "qwen" "w1" 60 1000 first_db leased_db leased_task (Reach-IsValid first_reach) refl

abbrev planned_db : Db
planned_db = record leased_db {
  plans =
      record {
        id = 1;
        name = "p";
        created_at = 0;
        created_by = "me";
        lineages = [];
        providers = "qwen" ∷ [];
        scenarios = "s1" ∷ [];
        attempts_min = 1;
        state = PlanState.running;
        notes = "";
      }
      ∷ [];
}

abbrev outcome : Option (Bool × Db) → Db
outcome none = empty_db
outcome (some result) = result.1

abbrev finished_db : Db
finished_db = outcome (finish 1 "w1" succeeding 2000 leased_db)

finish_companions_example : All (λ t. is_companion 1 t ≡ false) finished_db.tasks
unfolding enqueue lease any_row first_by update find? finish
finish_companions_example = finish_companions 1 "w1" succeeding 2000 leased_db finished_db refl refl

finish_revives_cancelled_example :
    (db' : Db) × (finish 1 "w1" failing 3000 cancelled_db ≡ some (true, db'))
    × (Enqueue.get 1 db' ≡ some (requeue failing (cancel_row 2000 leased_task)))
unfolding enqueue lease any_row first_by update find? Lease.cancel
finish_revives_cancelled_example =
    finish_revives_cancelled 1 "w1" failing 3000 cancelled_db (cancel_row 2000 leased_task)
      (Reach-IsValid (Reach.next leased_reach (Step.cancels 1 2000))) (Memᴰ.head refl) refl refl
      refl (omega arith) refl

create_fan_out_example :
    (db' : Db) × (rows : List Task) × (create (λ scenario. "run") plan_spec 0 empty_db
      ≡ some ((1, ids rows), db'))
    × (db'.tasks ≡ rows)
    × IsPaired 1 rows
    × (length rows ≡ 8)
    × (rounds : List Cell) × AreFor rounds rows
    × ((c : Cell) → Memᴰ c rounds ↔ IsRound plan_spec c)
unfolding lineages_or_blank
create_fan_out_example = create_fan_out (λ scenario. "run") plan_spec 0 empty_db refl refl

list_workers_heals_example :
    let db' = (list_workers silent_like 90 3600 600_000_000 traced_db).1 in
    All (λ t. is_orphan db'.workers t ≡ false) db'.tasks
    × All (λ w. is_silent (600_000_000 - seconds 90) w ≡ false) db'.workers
list_workers_heals_example =
    list_workers_heals silent_like 90 3600 600_000_000 traced_db (record { runs = []; events = [] })
      refl

Step-Evolves_example : Evolves first_db.tasks leased_db.tasks
Step-Evolves_example = Step-Evolves (Step.leases "qwen" "w1" 60 1000) (Reach-IsValid first_reach)

one_ready : count_if (is_eligible "qwen" 1000) first_db.tasks ≤ 2
unfolding enqueue
one_ready = omega arith

poll_drains_example :
    (length (poll "qwen" "w1" 60 1000 2 first_db).0
      ≡ count_if (is_eligible "qwen" 1000) first_db.tasks)
    × (count_if (is_eligible "qwen" 1000) (poll "qwen" "w1" 60 1000 2 first_db).1.tasks ≡ 0)
poll_drains_example =
    poll_drains "qwen" "w1" 60 1000 2 first_db (Reach-IsValid first_reach) one_ready
