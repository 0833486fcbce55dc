-- ===== src/Planner.antt =====
-- The auto-planner (quality_api/discovery.py, `AutoPlanStore`): the stored configurations, the ledger of the
-- commits that have been planned, and what the methods take from git, the files of the bench and JSON.
pub mod Cells
pub mod Configs
pub mod Discover
pub mod Fanout
pub mod Idempotent
pub mod Settled
mod Tests
use Prim.Native.Char.{Char, code}
use diff_graph.Base.{
  Bool, List, Option, String, [], any, decimal, false, if◌then◌else◌, keep_if, leb, map, max, none,
  not, some, str_eq, true, ℕ, ◌&&◌, ◌++◌, ◌+◌, ◌-◌, ◌<>◌, ◌==◌, ◌∷◌,
}
use diff_graph.Queue.Rows.{Db, seconds}
use diff_graph.Table.{find?, first_by, update}
use diff_graph.Text.{contains, strip}

-- A row of qa_auto_plan_configs and the object that is made of it; JSON columns are the lists they hold.
pub record AutoPlanConfig : Type 0 where
  pub id : ℕ
  pub name : String
  pub repo_path : String
  pub branch_pattern : String
  pub bench_repo_path : String
  pub providers : List String
  pub scenarios : List String
  pub scenario_tags : List String
  pub min_gap_seconds : ℕ
  pub pacing : String
  pub pacing_window_seconds : ℕ
  pub attempts_min : ℕ
  pub enabled : Bool
  pub created_at : ℕ
  pub last_discover_at : Option ℕ
  pub mode : String

-- A row of qa_planned_commits.
pub record PlannedCommit : Type 0 where
  pub config_id : ℕ
  pub lineage : String
  pub sha : String
  pub plan_kind : String
  pub plan_id : ℕ
  pub planned_at : ℕ

pub record Planner : Type 0 where
  pub queue : Db
  pub configs : List AutoPlanConfig
  pub next_config : ℕ
  pub planned_commits : List PlannedCommit

-- An entry of `scan_scenarios`.
pub record CatalogueEntry : Type 0 where
  pub id : String
  pub tags : List String

-- What a call meets outside: the lines that git prints for a checkout, `fnmatch`, the catalogue that the files of a
-- bench hold, the command of a scenario (scenarios_index.py), the checkout of quality_api/config.py, the JSON of the
-- keys `config_id` and `config_name`, `Path.expanduser().resolve()`, and the microseconds of
-- `timedelta(seconds=window / cells * slot)`.
pub record Host : Type 0 where
  pub git_lines : String → List String
  pub fnmatch : String → String → Bool
  pub catalogue : String → List CatalogueEntry
  pub bench_cmd : String → String
  pub diffgraph_repo : String
  pub payload_json : ℕ → String → String
  pub resolve : String → String
  pub delay : ℕ → ℕ → ℕ → ℕ

abbrev pub or_text : String → String → String
or_text text default = if str_eq text "" then default else text

abbrev pub no_texts : List String → Bool
no_texts [] = true
no_texts (t ∷ ts) = false

-- `x or 1`.
abbrev pub or_one : ℕ → ℕ
or_one n = if n == 0 then 1 else n

unfoldable pub row_to_config : AutoPlanConfig → AutoPlanConfig
row_to_config row = record row {
  pacing = or_text row.pacing "aggressive";
  attempts_min = or_one row.attempts_min;
  mode = or_text row.mode "auto";
}

-- `line.strip().split(" ", 1)`: the text before the first space and the one behind it.
abbrev prepend : Char → String × String → String × String
prepend c (before, after) = (String.◌∷◌ c before, after)

unfoldable pub split_space : String → String × String
split_space String.[] = (String.[], String.[])
split_space (String.◌∷◌ c s) =
    let rest = split_space s in if code c == 32 then (String.[], s) else prepend c rest

-- A line without a space is passed over. One with nothing but the space inside its margin makes the source raise; git
-- prints none.
unfoldable pub read_refs : List String → List (String × String)
read_refs [] = []
read_refs (line ∷ lines) =
    let rest = read_refs lines in
    if contains line " "
    then (let (branch, sha) = split_space (strip line) in (strip branch, strip sha) ∷ rest)
    else rest

-- `patterns.split(",")`.
abbrev push_char : Char → List String → List String
push_char c [] = String.◌∷◌ c String.[] ∷ []
push_char c (part ∷ parts) = String.◌∷◌ c part ∷ parts

unfoldable pub split_commas : String → List String
split_commas String.[] = String.[] ∷ []
split_commas (String.◌∷◌ c s) =
    let rest = split_commas s in if code c == 44 then String.[] ∷ rest else push_char c rest

module _ (host : Host) where
  open host use {git_lines, fnmatch, catalogue, diffgraph_repo}

  abbrev pub is_matched : String → String → Bool
  is_matched branch pattern = not (str_eq (strip pattern) "") && fnmatch branch (strip pattern)

  unfoldable pub match_any : String → String → Bool
  match_any branch patterns =
      if str_eq patterns "" then false else any (is_matched branch) (split_commas patterns)

  abbrev pub shares_tag : List String → CatalogueEntry → Bool
  shares_tag wanted entry = any (λ tag. any (str_eq tag) wanted) entry.tags

  unfoldable pub resolve_scenarios : AutoPlanConfig → List String
  resolve_scenarios c =
      if not (no_texts c.scenarios)
      then c.scenarios
      else if no_texts c.scenario_tags
      then []
      else map (λ entry. entry.id)
          (keep_if (shares_tag c.scenario_tags) (catalogue c.bench_repo_path))

  abbrev pub repo_of : AutoPlanConfig → String
  repo_of c =
      if str_eq c.repo_path ""
      then diffgraph_repo
      else if contains c.repo_path "${"
      then diffgraph_repo
      else c.repo_path

  -- The branches that the pattern matches, each with its commit.
  unfoldable pub lineages_of : AutoPlanConfig → List (String × String)
  lineages_of c = keep_if (λ b. match_any b.0 c.branch_pattern) (read_refs (git_lines (repo_of c)))

abbrev pub is_entry : ℕ → String → String → PlannedCommit → Bool
is_entry config lineage sha p =
    p.config_id == config && str_eq p.lineage lineage && str_eq p.sha sha

unfoldable pub already_planned : ℕ → String → String → Planner → Bool
already_planned config lineage sha s = any (is_entry config lineage sha) s.planned_commits

abbrev pub is_recent : ℕ → String → ℕ → PlannedCommit → Bool
is_recent config lineage since p =
    p.config_id == config && str_eq p.lineage lineage && leb since p.planned_at

unfoldable pub has_recent_plan : ℕ → String → ℕ → Planner → Bool
has_recent_plan config lineage since s = any (is_recent config lineage since) s.planned_commits

-- The primary key.
abbrev pub same_key : PlannedCommit → PlannedCommit → Bool
same_key p q = is_entry p.config_id p.lineage p.sha q && str_eq p.plan_kind q.plan_kind

-- INSERT OR IGNORE, and INSERT OR REPLACE.
unfoldable pub record_planned : Bool → PlannedCommit → Planner → Planner
record_planned upsert p s =
    let rows = s.planned_commits in
    record s {
      planned_commits =
          if upsert
          then keep_if (λ q. not (same_key p q)) rows ++ p ∷ []
          else if any (same_key p) rows
          then rows
          else rows ++ p ∷ [];
    }
