-- ===== src/Planner/Cells.antt =====
-- `AutoPlanStore._create_plan`: a plan for one commit of a lineage, with a pair of tasks for each provider, scenario
-- and attempt, staggered if the pacing is `spread`.
use diff_graph.Base.{
  Bool, List, Option, String, [], decimal, if◌then◌else◌, length, ltb, map, max, none, some, str_eq,
  ℕ, ◌&&◌, ◌*◌, ◌+◌, ◌<>◌, ◌∷◌,
}
use diff_graph.Messages.{take_chars}
use diff_graph.Planner.{AutoPlanConfig, Host, or_text}
use diff_graph.Queue.Enqueue.{enqueue}
use diff_graph.Queue.Plans.{Cell, attempts, insert_plan, loop, or_none}
use diff_graph.Queue.Rows.{Db, PlanSpec, TaskSpec, agent, blocked, judge, queued}

-- The commit that a plan is for.
pub record Target : Type 0 where
  pub lineage : String
  pub sha : String

abbrev pub plan_name : AutoPlanConfig → Target → String
plan_name c target =
    "auto:"
    <> or_text c.name (decimal c.id)
    <> ":"
    <> target.lineage
    <> "@"
    <> take_chars 7 target.sha

abbrev pub plan_spec : AutoPlanConfig → Target → List String → PlanSpec
plan_spec c target scenarios = record {
  name = plan_name c target;
  created_by = "auto-plan/config-" <> decimal c.id;
  lineages = target.lineage ∷ [];
  providers = c.providers;
  scenarios = scenarios;
  attempts_min = c.attempts_min;
  priority = 100;
  notes = "repo=" <> c.repo_path;
}

-- The rounds, in the order of the three loops.
unfoldable pub planned_cells : AutoPlanConfig → Target → List String → List Cell
planned_cells c target scenarios =
    loop
      (λ queue.
        loop
          (λ scenario.
            map
              (λ n. record {
                lineage = target.lineage;
                queue = queue;
                scenario = scenario;
                attempt_n = n;
              })
              (attempts 1 (max 1 c.attempts_min)))
          scenarios)
      c.providers

abbrev pub total_cells : AutoPlanConfig → List String → ℕ
total_cells c scenarios = length c.providers * length scenarios * max 1 c.attempts_min

module _ (host : Host) (c : AutoPlanConfig) (target : Target) (total plan now : ℕ) where
  open host use {bench_cmd, payload_json, delay}

  abbrev pub is_spread : Bool
  is_spread = str_eq c.pacing "spread" && ltb 0 c.pacing_window_seconds

  abbrev pub not_before_of : ℕ → Option ℕ
  not_before_of slot =
      if is_spread then some (now + delay c.pacing_window_seconds (max 1 total) slot) else none

  unfoldable pub planned_agent : ℕ → Cell → TaskSpec
  planned_agent slot cell = record {
    queue = cell.queue;
    attempt_n = cell.attempt_n;
    plan_id = some plan;
    priority = 100;
    payload = record {
      plan_name = some (plan_name c target);
      bench_cmd = or_none (bench_cmd cell.scenario);
      resources = [];
      rest = payload_json c.id c.name;
    };
    resources =
        ("scenario://" <> cell.scenario)
        ∷ ("lineage://" <> target.lineage)
        ∷ ("mutation://" <> target.sha)
        ∷ [];
    not_before = not_before_of slot;
    kind = agent;
    parent_task_id = none;
    initial_state = queued;
  }

  unfoldable pub planned_judge : ℕ → Cell → ℕ → TaskSpec
  unfolding planned_agent
  planned_judge slot cell parent = record (planned_agent slot cell) {
    not_before = none;
    kind = judge;
    parent_task_id = some parent;
    initial_state = blocked;
  }

  unfoldable pub enqueue_cells : ℕ → List Cell → Db → List ℕ × Db
  enqueue_cells slot [] db = ([], db)
  enqueue_cells slot (cell ∷ cells) db =
      let (agent_id, db') = enqueue (planned_agent slot cell) now db in
      let (judge_id, db'') = enqueue (planned_judge slot cell agent_id) now db' in
      let (more, after) = enqueue_cells (slot + 1) cells db'' in (agent_id ∷ judge_id ∷ more, after)

unfoldable pub create_plan :
    Host → AutoPlanConfig → Target → List String → ℕ → Db → (ℕ × List ℕ) × Db
create_plan host c target scenarios now db =
    let (plan, planned) = insert_plan (plan_spec c target scenarios) now db in
    let (ids, after) =
      enqueue_cells host c target (total_cells c scenarios) plan now 0
        (planned_cells c target scenarios) planned in
    ((plan, ids), after)
