-- ===== src/Queue/Listing.antt =====
-- The reading methods of quality_api/queue.py: `TaskQueue.list`, and `list`, `count` and `progress` of `PlanStore`.
-- ORDER BY id DESC is the order of the rows, which are in the order of their ids, from the last one on. GROUP BY
-- makes one group for each pair of a kind and a state, in the order in which the rows bring the pairs.
pub mod Groups
pub mod Slots
pub mod Counts
use diff_graph.Base.{
  Bool, List, Option, String, [], count_if, drop, if◌then◌else◌, is_number, is_text, keep_if, none,
  some, str_eq, take, true, ℕ, ◌&&◌, ◌++◌, ◌+◌, ◌∷◌,
}
use diff_graph.Dict.{get?, set_key}
use diff_graph.Queue.Rows.{
  Db, Plan, PlanState, Task, TaskKind, TaskState, agent, blocked, error, finished, judge, leased,
  queued,
}

-- The texts of the columns.
abbrev pub state_text : TaskState → String
state_text queued = "queued"
state_text leased = "leased"
state_text TaskState.running = "running"
state_text finished = "finished"
state_text error = "error"
state_text TaskState.cancelled = "cancelled"
state_text blocked = "blocked"

abbrev pub plan_state_text : PlanState → String
plan_state_text PlanState.running = "running"
plan_state_text PlanState.done = "done"
plan_state_text PlanState.cancelled = "cancelled"

abbrev pub kind_text : TaskKind → String
kind_text agent = "agent"
kind_text judge = "judge"

abbrev pub backwards {ℓ} : {A : Type ℓ} → List A → List A
backwards [] = []
backwards (x ∷ xs) = backwards xs ++ x ∷ []

-- `ORDER BY id DESC LIMIT limit OFFSET offset`.
unfoldable pub page {ℓ} : {A : Type ℓ} → ℕ → ℕ → List A → List A
page limit offset rows = take limit (drop offset (backwards rows))

-- A filter that is None or the empty text is not made a clause.
abbrev pub is_asked : Option String → String → Bool
is_asked none column = true
is_asked (some wanted) column = if str_eq wanted "" then true else str_eq column wanted

abbrev pub in_plan : Option ℕ → Task → Bool
in_plan none t = true
in_plan (some plan) t = is_number t.plan_id plan

abbrev pub is_task_listed : Option String → Option String → Option ℕ → Task → Bool
is_task_listed state queue plan t =
    is_asked state (state_text t.state) && is_asked queue t.queue && in_plan plan t

unfoldable pub list_tasks :
    Option String → Option String → Option ℕ → (limit offset : ℕ) → Db → List Task
list_tasks state queue plan limit offset db =
    page limit offset (keep_if (is_task_listed state queue plan) db.tasks)

abbrev pub is_plan_in : Option String → Plan → Bool
is_plan_in state p = is_asked state (plan_state_text p.state)

unfoldable pub list_plans : Option String → (limit offset : ℕ) → Db → List Plan
list_plans state limit offset db = page limit offset (keep_if (is_plan_in state) db.plans)

unfoldable pub count_plans : Option String → Db → ℕ
count_plans state db = count_if (is_plan_in state) db.plans

-- A row of the grouped statement.
pub record Group : Type 0 where
  pub kind : String
  pub state : String
  pub n : ℕ

abbrev pub is_group : String → String → Group → Bool
is_group kind state g = str_eq g.kind kind && str_eq g.state state

unfoldable pub add_to_group : String → String → List Group → List Group
add_to_group kind state [] = record { kind = kind; state = state; n = 1 } ∷ []
add_to_group kind state (g ∷ gs) =
    let rest = add_to_group kind state gs in
    if is_group kind state g then record g { n = g.n + 1 } ∷ gs else g ∷ rest

-- `SELECT kind, state, COUNT(*) … WHERE plan_id=? GROUP BY kind, state`, over the rows from the first on.
unfoldable pub group_rows : List Task → List Group → List Group
group_rows [] gs = gs
group_rows (t ∷ ts) gs = group_rows ts (add_to_group (kind_text t.kind) (state_text t.state) gs)

abbrev pub or_zero : Option ℕ → ℕ
or_zero none = 0
or_zero (some n) = n

abbrev pub Counters : Type 0
Counters = List (String × ℕ)

abbrev pub or_no_counters : Option Counters → Counters
or_no_counters none = []
or_no_counters (some d) = d

-- `sum(d.values())`.
unfoldable pub sum_values : Counters → ℕ
sum_values [] = 0
sum_values ((k, n) ∷ d) = n + sum_values d

-- What `progress` returns: the states' counts, `total` and `by_kind`.
pub record Progress : Type 0 where
  pub counts : Counters
  pub total : ℕ
  pub by_kind : List (String × Counters)

-- The loop over the groups, with `out` and `by_kind`. The column of the kind is never empty, so `or "agent"` is left out.
unfoldable pub collect_groups :
    List Group → Counters → List (String × Counters) → Counters × List (String × Counters)
collect_groups [] out by_kind = (out, by_kind)
collect_groups (g ∷ gs) out by_kind =
    let slot = or_no_counters (get? g.kind by_kind) in
    collect_groups gs (set_key g.state (or_zero (get? g.state out) + g.n) out)
      (set_key g.kind (set_key g.state g.n slot) by_kind)

-- `slot["total"] = sum(slot.values())` for each slot.
unfoldable pub put_totals : List (String × Counters) → List (String × Counters)
put_totals [] = []
put_totals ((kind, slot) ∷ by_kind) =
    (kind, set_key "total" (sum_values slot) slot) ∷ put_totals by_kind

unfoldable pub progress : ℕ → Db → Progress
progress plan db =
    let (out, by_kind) =
      collect_groups (group_rows (keep_if (in_plan (some plan)) db.tasks) []) [] [] in
    record { counts = out; total = sum_values out; by_kind = put_totals by_kind }
