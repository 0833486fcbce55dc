-- ===== src/Pools/Tests.antt =====
-- The theorems on the pools at a small host.
use diff_graph.Base.{Bool, String, [], false, none, refl, some, true, ◌∷◌}
use diff_graph.Pools.{Host, PoolConfig, PoolFields}
use diff_graph.Queue.Enqueue.{enqueue}
use diff_graph.Queue.Invariant.{IsValid}
use diff_graph.Queue.Lease.{lease}
use diff_graph.Queue.Rows.{Db, TaskSpec, agent, empty_db, queued}
use diff_graph.Queue.Steps.{Reach, Reach-IsValid, Step}

abbrev never : String → String → Bool
never text pattern = false

abbrev plain : String → String
plain text = text

abbrev pool : PoolConfig
pool = record {
  id = 1;
  name = "fleet";
  queue = "qwen";
  target_workers = 2;
  trigger = "live_queue";
  max_idle_seconds = 120;
  task_timeout_seconds = 900;
  bench_cmd = "";
  enabled = true;
  created_at = 0;
  last_check_at = none;
}

abbrev spec : TaskSpec
spec = record {
  queue = "qwen";
  attempt_n = 1;
  plan_id = none;
  priority = 5;
  payload = record { plan_name = none; bench_cmd = none; resources = []; rest = "{}" };
  resources = [];
  not_before = none;
  kind = agent;
  parent_task_id = none;
  initial_state = queued;
}

abbrev leased_db : Db
leased_db = (lease "qwen" "w1" 60 1000 (enqueue spec 0 empty_db).1).1

abbrev host : Host
host = record {
  db = leased_db;
  pools = pool ∷ [];
  next_pool = 2;
  mono_anchor = some 1_000_000;
  wall_anchor = some 1_000_000;
  spawned = [];
}

leased_IsValid : IsValid leased_db
leased_IsValid = Reach-IsValid (
    Reach.next (Reach.next Reach.here (Step.enqueues spec 0 refl))
      (Step.leases "qwen" "w1" 60 1000))

abbrev to_zero : PoolFields
to_zero = record {
  name = none;
  queue = none;
  target_workers = some 0;
  trigger = none;
  max_idle_seconds = none;
  task_timeout_seconds = none;
  bench_cmd = none;
  enabled = none;
}
