-- ===== src/Queue/Anonymous.antt =====
-- `PlanStore.create_anonymous`: a plan over a list of scenarios, each with its own command, for every queue.
-- The queues are given as a list of names, which a text is by its commas; `strip` is Python's `str.strip`.
use diff_graph.Base.{
  Bool, List, Option, String, [], false, if◌then◌else◌, keep_if, map, max, none, not, some, str_eq,
  true, ℕ, ◌++◌, ◌∷◌,
}
use diff_graph.Queue.Enqueue.{enqueue}
use diff_graph.Queue.Plans.{attempts, insert_plan, is_empty, loop, or_none, tagged}
use diff_graph.Queue.Rows.{Db, PlanSpec, TaskSpec, agent, blocked, judge, queued}

-- An absent id or command is the empty text.
pub record AnonymousScenario : Type 0 where
  pub id : String
  pub bench_cmd : String

pub record AnonymousSpec : Type 0 where
  pub name : String
  pub scenarios : List AnonymousScenario
  pub lineage : String
  pub mutation_hash : String
  pub queue : List String
  pub attempts_min : ℕ
  pub priority : ℕ
  pub notes : String

-- One round of the three nested loops.
pub record Round : Type 0 where
  pub scenario : AnonymousScenario
  pub queue : String
  pub attempt_n : ℕ

abbrev is_named : String → Bool
is_named text = not (str_eq text "")

abbrev pub no_scenarios : List AnonymousScenario → Bool
no_scenarios [] = true
no_scenarios (s ∷ scenarios) = false

abbrev scenario_ids : List AnonymousScenario → List String
scenario_ids scenarios = keep_if is_named (map (λ s. s.id) scenarios)

unfoldable pub rounds : AnonymousSpec → List String → List Round
rounds spec queues =
    loop
      (λ s.
        loop
          (λ q.
            map (λ n. record { scenario = s; queue = q; attempt_n = n })
              (attempts 1 (max 1 spec.attempts_min)))
          queues)
      spec.scenarios

unfoldable pub anonymous_agent : AnonymousSpec → ℕ → Round → TaskSpec
anonymous_agent spec plan r = record {
  queue = r.queue;
  attempt_n = r.attempt_n;
  plan_id = some plan;
  priority = spec.priority;
  payload = record {
    plan_name = or_none spec.name;
    bench_cmd = or_none r.scenario.bench_cmd;
    resources = [];
    rest = "";
  };
  resources =
      tagged "scenario://" r.scenario.id
      ++ tagged "lineage://" spec.lineage
      ++ tagged "mutation://" spec.mutation_hash;
  not_before = none;
  kind = agent;
  parent_task_id = none;
  initial_state = queued;
}

-- The judge has no resources of its own.
unfoldable pub anonymous_judge : AnonymousSpec → ℕ → Round → ℕ → TaskSpec
unfolding anonymous_agent
anonymous_judge spec plan r parent = record (anonymous_agent spec plan r) {
  resources = [];
  kind = judge;
  parent_task_id = some parent;
  initial_state = blocked;
}

unfoldable pub enqueue_rounds : AnonymousSpec → ℕ → ℕ → List Round → Db → List ℕ × Db
enqueue_rounds spec plan now [] db = ([], db)
enqueue_rounds spec plan now (r ∷ rs) db =
    let (agent_id, db') = enqueue (anonymous_agent spec plan r) now db in
    let (judge_id, db'') = enqueue (anonymous_judge spec plan r agent_id) now db' in
    let (more, after) = enqueue_rounds spec plan now rs db'' in (agent_id ∷ judge_id ∷ more, after)

abbrev plan_spec_of : AnonymousSpec → List String → PlanSpec
plan_spec_of spec queues = record {
  name = spec.name;
  created_by = "anonymous";
  lineages = keep_if is_named (spec.lineage ∷ []);
  providers = queues;
  scenarios = scenario_ids spec.scenarios;
  attempts_min = spec.attempts_min;
  priority = spec.priority;
  notes = spec.notes;
}

module _ (strip : String → String) where
  abbrev pub queues_of : AnonymousSpec → List String
  queues_of spec = keep_if is_named (map strip spec.queue)

  abbrev pub fan_out : AnonymousSpec → List String → ℕ → Db → (ℕ × List ℕ) × Db
  fan_out spec queues now db =
      let (plan, planned) = insert_plan (plan_spec_of spec queues) now db in
      let (ids, after) = enqueue_rounds spec plan now (rounds spec queues) planned in
      ((plan, ids), after)

  -- `none` is the ValueError for no scenario or no queue.
  unfoldable pub create_anonymous : AnonymousSpec → ℕ → Db → Option ((ℕ × List ℕ) × Db)
  create_anonymous spec now db =
      let queues = queues_of spec in
      if no_scenarios spec.scenarios
      then none
      else if is_empty queues
      then none
      else some (fan_out spec queues now db)
