-- ===== src/Planner/Configs.antt =====
-- The configurations of `AutoPlanStore`: `add_config`, `update_config`, `set_enabled` and `delete_config`.
use diff_graph.Base.{
  Bool, List, Option, String, [], false, if◌then◌else◌, none, not, some, str_eq, true, ℕ, ◌&&◌,
  ◌++◌, ◌+◌, ◌==◌, ◌||◌, ◌∷◌,
}
use diff_graph.Planner.{AutoPlanConfig, Host, Planner, no_texts}
use diff_graph.Table.{any_row, delete, update}

-- The arguments of `add_config`.
pub record ConfigSpec : Type 0 where
  pub name : String
  pub repo_path : String
  pub branch_pattern : String
  pub bench_repo_path : String
  pub providers : List String
  pub scenarios : List String
  pub scenario_tags : List String
  pub min_gap_seconds : ℕ
  pub pacing : String
  pub pacing_window_seconds : ℕ
  pub attempts_min : ℕ
  pub enabled : Bool
  pub mode : String

-- The fields of `update_config`; one that is absent or None is passed over.
pub record ConfigFields : Type 0 where
  pub name : Option String
  pub repo_path : Option String
  pub branch_pattern : Option String
  pub bench_repo_path : Option String
  pub providers : Option (List String)
  pub scenarios : Option (List String)
  pub scenario_tags : Option (List String)
  pub min_gap_seconds : Option ℕ
  pub pacing : Option String
  pub pacing_window_seconds : Option ℕ
  pub attempts_min : Option ℕ
  pub enabled : Option Bool
  pub mode : Option String

abbrev pub no_fields : ConfigFields
no_fields = record {
  name = none;
  repo_path = none;
  branch_pattern = none;
  bench_repo_path = none;
  providers = none;
  scenarios = none;
  scenario_tags = none;
  min_gap_seconds = none;
  pacing = none;
  pacing_window_seconds = none;
  attempts_min = none;
  enabled = none;
  mode = none;
}

abbrev pub is_pacing : String → Bool
is_pacing pacing = str_eq pacing "aggressive" || str_eq pacing "spread"

abbrev pub is_mode : String → Bool
is_mode mode = str_eq mode "auto" || str_eq mode "on_demand"

module _ (host : Host) where
  open host use {resolve}

  abbrev pub new_config : ℕ → ConfigSpec → ℕ → AutoPlanConfig
  new_config id spec now = record {
    id = id;
    name = spec.name;
    repo_path = resolve spec.repo_path;
    branch_pattern = spec.branch_pattern;
    bench_repo_path = if str_eq spec.bench_repo_path "" then "" else resolve spec.bench_repo_path;
    providers = spec.providers;
    scenarios = spec.scenarios;
    scenario_tags = spec.scenario_tags;
    min_gap_seconds = spec.min_gap_seconds;
    pacing = spec.pacing;
    pacing_window_seconds = spec.pacing_window_seconds;
    attempts_min = spec.attempts_min;
    enabled = spec.enabled;
    created_at = now;
    last_discover_at = none;
    mode = spec.mode;
  }

  -- `none` is a ValueError.
  unfoldable pub add_config : ConfigSpec → ℕ → Planner → Option (ℕ × Planner)
  add_config spec now s =
      if no_texts spec.providers
      then none
      else if no_texts spec.scenarios && no_texts spec.scenario_tags
      then none
      else if not (is_pacing spec.pacing)
      then none
      else if not (is_mode spec.mode)
      then none
      else some (
        s.next_config,
        record s {
          configs = s.configs ++ new_config s.next_config spec now ∷ [];
          next_config = s.next_config + 1;
        },
      )

abbrev pub put {ℓ} : {A : Type ℓ} → Option A → A → A
put none old = old
put (some new) old = new

abbrev pub put_fields : ConfigFields → AutoPlanConfig → AutoPlanConfig
put_fields f c = record c {
  name = put f.name c.name;
  repo_path = put f.repo_path c.repo_path;
  branch_pattern = put f.branch_pattern c.branch_pattern;
  bench_repo_path = put f.bench_repo_path c.bench_repo_path;
  providers = put f.providers c.providers;
  scenarios = put f.scenarios c.scenarios;
  scenario_tags = put f.scenario_tags c.scenario_tags;
  min_gap_seconds = put f.min_gap_seconds c.min_gap_seconds;
  pacing = put f.pacing c.pacing;
  pacing_window_seconds = put f.pacing_window_seconds c.pacing_window_seconds;
  attempts_min = put f.attempts_min c.attempts_min;
  enabled = put f.enabled c.enabled;
  mode = put f.mode c.mode;
}

abbrev pub is_given {ℓ} : {A : Type ℓ} → Option A → Bool
is_given none = false
is_given (some a) = true

abbrev pub sets_anything : ConfigFields → Bool
sets_anything f =
    is_given f.name
    || is_given f.repo_path
    || is_given f.branch_pattern
    || is_given f.bench_repo_path
    || is_given f.providers
    || is_given f.scenarios
    || is_given f.scenario_tags
    || is_given f.min_gap_seconds
    || is_given f.pacing
    || is_given f.pacing_window_seconds
    || is_given f.attempts_min
    || is_given f.enabled
    || is_given f.mode

abbrev pub is_config : ℕ → AutoPlanConfig → Bool
is_config id c = c.id == id

-- The result is `cur.rowcount > 0`.
unfoldable pub update_config : ℕ → ConfigFields → Planner → Bool × Planner
update_config id fields s =
    if sets_anything fields
    then (
      any_row (is_config id) s.configs,
      record s { configs = update (is_config id) (put_fields fields) s.configs },
    )
    else (false, s)

unfoldable pub set_enabled : ℕ → Bool → Planner → Bool × Planner
set_enabled id enabled s = update_config id (record no_fields { enabled = some enabled }) s

unfoldable pub delete_config : ℕ → Planner → Bool × Planner
delete_config id s =
    (any_row (is_config id) s.configs, record s { configs = delete (is_config id) s.configs })
