-- ===== src/Planner/Tests.antt =====
-- A configuration with two scenarios, which watches one of two branches.
use diff_graph.Base.{[], decimal, inl, length, none, refl, str_eq, true, ◌*◌, ◌∷◌, ◌≡◌}
use diff_graph.Planner.{
  AutoPlanConfig, Host, Planner, already_planned, has_recent_plan, lineages_of, match_any,
  read_refs, record_planned, resolve_scenarios, row_to_config, split_commas, split_space,
}
use diff_graph.Planner.Cells.{
  Target, create_plan, enqueue_cells, planned_agent, planned_cells, planned_judge,
}
use diff_graph.Planner.Discover.{
  discover, discover_all, discover_lineages, discover_one, is_skipped, plan_commit, visit_lineage,
}
use diff_graph.Planner.Idempotent.{IsIdle, discover_again}
use diff_graph.Queue.Enqueue.{enqueue, resource_uris}
use diff_graph.Queue.Plans.{attempts, insert_plan, loop}
use diff_graph.Queue.Rows.{empty_db}
use diff_graph.Table.{update}
use diff_graph.Text.{contains, is_space, skip_space, strip_end}

abbrev host : Host
host = record {
  git_lines = λ repo. "master 0123456789" ∷ "feature/x fedcba9876" ∷ [];
  fnmatch = str_eq;
  catalogue = λ bench. [];
  bench_cmd = λ scenario. "";
  diffgraph_repo = "/srv/diff-graph";
  payload_json = λ id name. "{}";
  resolve = λ path. path;
  delay = λ window cells slot. window * slot;
}

abbrev config : AutoPlanConfig
config = record {
  id = 1;
  name = "unit";
  repo_path = "/srv/app";
  branch_pattern = "master, main";
  bench_repo_path = "";
  providers = "deepseek" ∷ [];
  scenarios = "s1" ∷ "s2" ∷ [];
  scenario_tags = [];
  min_gap_seconds = 0;
  pacing = "spread";
  pacing_window_seconds = 60;
  attempts_min = 2;
  enabled = true;
  created_at = 5;
  last_discover_at = none;
  mode = "auto";
}

abbrev planner : Planner
planner = record { queue = empty_db; configs = config ∷ []; next_config = 2; planned_commits = [] }

matched_branches : match_any host "main" "master, main" ≡ true
unfolding match_any split_commas strip_end skip_space is_space
matched_branches = refl

-- Eight tasks for the one branch.
planned_tasks : length (discover host none 100 planner).1.queue.tasks ≡ 8
unfolding discover discover_all discover_one discover_lineages visit_lineage is_skipped plan_commit
    row_to_config resolve_scenarios lineages_of read_refs contains match_any split_commas
    split_space strip_end skip_space is_space already_planned has_recent_plan record_planned
    create_plan enqueue_cells planned_agent planned_judge planned_cells enqueue resource_uris
    attempts insert_plan loop update decimal
planned_tasks = refl

discover_again_example :
    IsIdle host
      (discover host none 100 planner).1
      (discover host none 900 (discover host none 100 planner).1)
discover_again_example = discover_again host 100 900 planner (inl refl, tt)

abbrev target : Target
target = record { lineage = "master"; sha = "0123456789" }
