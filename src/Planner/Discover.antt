-- ===== src/Planner/Discover.antt =====
-- `AutoPlanStore.discover`, `_discover_one` and `fire_on`.
use diff_graph.Base.{
  Bool, List, Option, String, [], decimal, false, if◌then◌else◌, keep_if, length, ltb, map, none,
  not, some, str_eq, true, ℕ, ◌&&◌, ◌++◌, ◌-◌, ◌<>◌, ◌==◌, ◌||◌, ◌∷◌,
}
use diff_graph.Planner.{
  AutoPlanConfig, Host, PlannedCommit, Planner, already_planned, has_recent_plan, lineages_of,
  no_texts, or_text, record_planned, resolve_scenarios, row_to_config,
}
use diff_graph.Planner.Cells.{Target, create_plan}
use diff_graph.Queue.Rows.{seconds}
use diff_graph.Table.{find?, update}

-- The dictionary that is returned for a plan.
pub record Created : Type 0 where
  pub config_id : ℕ
  pub config_name : String
  pub lineage : String
  pub sha : String
  pub plan_id : ℕ
  pub task_count : ℕ

abbrev pub list_configs : Bool → Planner → List AutoPlanConfig
list_configs only_enabled s =
    map row_to_config (keep_if (λ c. if only_enabled then c.enabled else true) s.configs)

unfoldable pub get_config : ℕ → Planner → Option AutoPlanConfig
get_config id s = elim (find? (λ (c : AutoPlanConfig). c.id == id) s.configs) [
  | none ↦ none
  | some row ↦ some (row_to_config row)
]

module _ (host : Host) where
  -- A plan and its entry in the ledger.
  unfoldable pub plan_commit :
      Bool → AutoPlanConfig → Target → List String → ℕ → Planner → Created × Planner
  plan_commit upsert c target scenarios now s =
      let ((plan, ids), queue) = create_plan host c target scenarios now s.queue in
      let entry : PlannedCommit = record {
        config_id = c.id;
        lineage = target.lineage;
        sha = target.sha;
        plan_kind = or_text c.name ("config-" <> decimal c.id);
        plan_id = plan;
        planned_at = now;
      } in
      (
        record {
          config_id = c.id;
          config_name = c.name;
          lineage = target.lineage;
          sha = target.sha;
          plan_id = plan;
          task_count = length ids;
        },
        record_planned upsert entry (record s { queue = queue }),
      )

  -- The debounce: a plan for the lineage within the gap, for whichever commit.
  abbrev pub is_held_back : AutoPlanConfig → String → ℕ → Planner → Bool
  is_held_back c lineage now s =
      ltb 0 c.min_gap_seconds && has_recent_plan c.id lineage (now - seconds c.min_gap_seconds) s

  -- The guards that make the loop `continue`.
  unfoldable pub is_skipped : AutoPlanConfig → String × String → ℕ → Planner → Bool
  is_skipped c (lineage, sha) now s =
      already_planned c.id lineage sha s || is_held_back c lineage now s

  unfoldable pub visit_lineage :
      AutoPlanConfig → List String → ℕ → String × String → Planner → List Created × Planner
  visit_lineage c scenarios now b s =
      if is_skipped c b now s
      then ([], s)
      else (let (made, planned) =
            plan_commit false c (record { lineage = b.0; sha = b.1 }) scenarios now s in
          (made ∷ [], planned))

  unfoldable pub discover_lineages :
      AutoPlanConfig → List String → ℕ → List (String × String) → Planner → List Created × Planner
  discover_lineages c scenarios now [] s = ([], s)
  discover_lineages c scenarios now (b ∷ more) s =
      let (made, visited) = visit_lineage c scenarios now b s in
      let (rest, after) = discover_lineages c scenarios now more visited in (made ++ rest, after)

  unfoldable pub discover_one : AutoPlanConfig → ℕ → Planner → List Created × Planner
  discover_one c now s =
      let scenarios = resolve_scenarios host c in
      if no_texts scenarios
      then ([], s)
      else discover_lineages c scenarios now (lineages_of host c) s

  -- The UPDATE of `last_discover_at` behind a configuration.
  abbrev pub stamp : ℕ → ℕ → Planner → Planner
  stamp id now s = record s {
    configs =
        update (λ (c : AutoPlanConfig). c.id == id) (λ c. record c { last_discover_at = some now })
          s.configs;
  }

  unfoldable pub discover_all : List AutoPlanConfig → ℕ → Planner → List Created × Planner
  discover_all [] now s = ([], s)
  discover_all (c ∷ configs) now s =
      let (made, planned) = discover_one c now s in
      let (rest, after) = discover_all configs now (stamp c.id now planned) in (made ++ rest, after)

  abbrev pub chosen : Option ℕ → Planner → List AutoPlanConfig
  chosen none s = list_configs true s
  chosen (some id) s = elim (get_config id s) [ none ↦ [] | some c ↦ c ∷ [] ]

  unfoldable pub discover : Option ℕ → ℕ → Planner → List Created × Planner
  discover config_id now s =
      discover_all (keep_if (λ c. str_eq c.mode "auto") (chosen config_id s)) now s

  abbrev pub fire_config :
      AutoPlanConfig → Target → List String → ℕ → Planner → Option Created × Planner
  fire_config c target scenarios now s =
      let (made, after) = plan_commit (str_eq c.mode "on_demand") c target scenarios now s in
      (some made, after)

  unfoldable pub fire_on : ℕ → Target → ℕ → Planner → Option Created × Planner
  fire_on id target now s = elim (get_config id s) [
    | none ↦ (none, s)
    | some c ↦
        if not c.enabled
        then (none, s)
        else if not (str_eq c.mode "on_demand") && already_planned id target.lineage target.sha s
        then (none, s)
        else if no_texts (resolve_scenarios host c)
        then (none, s)
        else fire_config c target (resolve_scenarios host c) now s
  ]
