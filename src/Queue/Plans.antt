-- ===== src/Queue/Plans.antt =====
-- `PlanStore`: a plan fans out into one agent task and one judge task for each lineage, provider,
-- scenario and attempt.
use diff_graph.Base.{
  Bool, List, Option, String, [], count_if, false, if◌then◌else◌, is_number, map, max, none, some,
  str_eq, suc, true, zero, ℕ, ◌&&◌, ◌++◌, ◌+◌, ◌<>◌, ◌==◌, ◌∷◌,
}
use diff_graph.Queue.Enqueue.{enqueue}
use diff_graph.Queue.Lease.{cancel_row}
use diff_graph.Queue.Rows.{
  Db, Plan, PlanSpec, PlanState, Task, TaskSpec, agent, blocked, is_unfinished, judge, queued,
}
use diff_graph.Table.{find?, update}

-- One round of the four nested loops of `create`.
pub record Cell : Type 0 where
  pub lineage : String
  pub queue : String
  pub scenario : String
  pub attempt_n : ℕ

-- `range(first, first + rounds)`.
unfoldable pub attempts : ℕ → ℕ → List ℕ
attempts first zero = []
attempts first (suc rounds) = first ∷ attempts (first + 1) rounds

-- `spec.lineages or [""]`.
unfoldable pub lineages_or_blank : List String → List String
lineages_or_blank [] = "" ∷ []
lineages_or_blank (l ∷ ls) = l ∷ ls

module _ {A B : Type 0} where
  -- `for a in xs:` around a loop that yields `f a`.
  unfoldable pub loop : (A → List B) → List A → List B
  loop f [] = []
  loop f (a ∷ xs) = f a ++ loop f xs

-- The rounds, in the order of the loops.
unfoldable pub cells : PlanSpec → List Cell
unfolding attempts lineages_or_blank loop
cells spec =
    loop
      (λ lineage.
        loop
          (λ queue.
            loop
              (λ scenario.
                map
                  (λ n. record {
                    lineage = lineage;
                    queue = queue;
                    scenario = scenario;
                    attempt_n = n;
                  })
                  (attempts 1 (max 1 spec.attempts_min)))
              spec.scenarios)
          spec.providers)
      (lineages_or_blank spec.lineages)

-- `if text: …append(prefix + text)`.
abbrev pub tagged : String → String → List String
tagged prefix text = if str_eq text "" then [] else (prefix <> text) ∷ []

abbrev pub or_none : String → Option String
or_none text = if str_eq text "" then none else some text

abbrev pub is_empty : List String → Bool
is_empty [] = true
is_empty (x ∷ xs) = false

unfoldable pub insert_plan : PlanSpec → ℕ → Db → ℕ × Db
insert_plan spec now db = (
  db.next_plan,
  record db {
    plans =
        db.plans
        ++ record {
          id = db.next_plan;
          name = spec.name;
          created_at = now;
          created_by = spec.created_by;
          lineages = spec.lineages;
          providers = spec.providers;
          scenarios = spec.scenarios;
          attempts_min = max 1 spec.attempts_min;
          state = PlanState.running;
          notes = spec.notes;
        }
          ∷ [];
    next_plan = db.next_plan + 1;
  },
)

-- `bench_cmd` is what scenarios_index.py reads from the fixture of a scenario, "" for none.
module _ (bench_cmd : String → String) where
  unfoldable pub agent_spec : PlanSpec → ℕ → Cell → TaskSpec
  agent_spec spec plan c = record {
    queue = c.queue;
    attempt_n = c.attempt_n;
    plan_id = some plan;
    priority = spec.priority;
    payload = record {
      plan_name = or_none spec.name;
      bench_cmd = or_none (bench_cmd c.scenario);
      resources = [];
      rest = "";
    };
    resources = tagged "scenario://" c.scenario ++ tagged "lineage://" c.lineage;
    not_before = none;
    kind = agent;
    parent_task_id = none;
    initial_state = queued;
  }

  unfoldable pub judge_spec : PlanSpec → ℕ → Cell → ℕ → TaskSpec
  unfolding agent_spec
  judge_spec spec plan c parent = record (agent_spec spec plan c) {
    kind = judge;
    parent_task_id = some parent;
    initial_state = blocked;
  }

  -- The body of the loops: the two tasks of a round.
  unfoldable pub enqueue_pair : PlanSpec → ℕ → ℕ → Cell → Db → List ℕ × Db
  enqueue_pair spec plan now c db =
      let (agent_id, db') = enqueue (agent_spec spec plan c) now db in
      let (judge_id, db'') = enqueue (judge_spec spec plan c agent_id) now db' in
      (agent_id ∷ judge_id ∷ [], db'')

  unfoldable pub enqueue_all : PlanSpec → ℕ → ℕ → List Cell → Db → List ℕ × Db
  enqueue_all spec plan now [] db = ([], db)
  enqueue_all spec plan now (c ∷ cs) db =
      let (ids, db') = enqueue_pair spec plan now c db in
      let (more, db'') = enqueue_all spec plan now cs db' in (ids ++ more, db'')

  -- `none` is the ValueError for no provider or no scenario.
  unfoldable pub create : PlanSpec → ℕ → Db → Option ((ℕ × List ℕ) × Db)
  create spec now db =
      if is_empty spec.providers
      then none
      else if is_empty spec.scenarios
      then none
      else (let (plan, db') = insert_plan spec now db in
          let (ids, db'') = enqueue_all spec plan now (cells spec) db' in some ((plan, ids), db''))

unfoldable pub get : ℕ → Db → Option Plan
get id db = find? (λ p. p.id == id) db.plans

-- WHERE plan_id=? AND state IN ('queued', 'leased', 'running', 'blocked')
abbrev pub is_unfinished_task : ℕ → Task → Bool
is_unfinished_task plan t = is_number t.plan_id plan && is_unfinished t.state

unfoldable pub cancel : ℕ → ℕ → Db → ℕ × Db
cancel plan now db = (
  count_if (is_unfinished_task plan) db.tasks,
  record db {
    plans = update (λ p. p.id == plan) (λ p. record p { state = PlanState.cancelled }) db.plans;
    tasks = update (is_unfinished_task plan) (cancel_row now) db.tasks;
  },
)
