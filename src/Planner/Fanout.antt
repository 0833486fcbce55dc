-- ===== src/Planner/Fanout.antt =====
-- What the auto-planner's plan enqueues, and that a `discover` keeps the queue valid.
use diff_graph.Base.{
  Bool-cases, List, Option, String, [], ap, arith, inl, inr, length, length-map, max, refl, sym, ℕ,
  ◌*◌, ◌++◌, ◌+◌, ◌∙◌, ◌∷◌, ◌≡◌,
}
use diff_graph.Planner.{AutoPlanConfig, Host, Planner, no_texts, record_planned, resolve_scenarios}
use diff_graph.Planner.Cells.{
  Target, create_plan, enqueue_cells, planned_agent, planned_cells, planned_judge, total_cells,
}
use diff_graph.Planner.Discover.{
  discover, discover_all, discover_lineages, discover_one, is_skipped, plan_commit, visit_lineage,
}
use diff_graph.Queue.Enqueue.{enqueue, new_task}
use diff_graph.Queue.Fanout.{IsPaired, length-attempts, length-loop}
use diff_graph.Queue.Ids.{ids}
use diff_graph.Queue.Invariant.{IsValid}
use diff_graph.Queue.Keeps.Leases.{enqueue-IsValid}
use diff_graph.Queue.Plans.{Cell, attempts, insert_plan}
use diff_graph.Queue.Rows.{Db, Task}
use mathlib.Core.List.{append-nil, append_assoc}

length-planned_cells :
    (c : AutoPlanConfig) (target : Target) (scenarios : List String)
    → length (planned_cells c target scenarios)
      ≡ length c.providers * (length scenarios * max 1 c.attempts_min)
unfolding planned_cells
length-planned_cells c target scenarios =
    length-loop _ _
      (λ queue.
        length-loop _ _
          (λ scenario.
            length-map _ (attempts 1 (max 1 c.attempts_min))
            ∙ length-attempts 1 (max 1 c.attempts_min))
          scenarios)
      c.providers

module _ (host : Host) (c : AutoPlanConfig) (target : Target) (total plan now : ℕ) where
  -- The rows that the rounds add from the id `first` on.
  pub planned_rows : ℕ → ℕ → List Cell → List Task
  planned_rows first slot [] = []
  planned_rows first slot (cell ∷ cells) =
      new_task first (planned_agent host c target total plan now slot cell) now
      ∷ new_task (first + 1) (planned_judge host c target total plan now slot cell first) now
      ∷ planned_rows (first + 1 + 1) (slot + 1) cells

  enqueue_cells_lem :
      (slot : ℕ) (cells : List Cell) (db : Db)
      → ((enqueue_cells host c target total plan now slot cells db).1.tasks
          ≡ db.tasks ++ planned_rows db.next_task slot cells)
        × ((enqueue_cells host c target total plan now slot cells db).0
            ≡ ids (planned_rows db.next_task slot cells))
  unfolding enqueue_cells enqueue planned_rows planned_judge
  enqueue_cells_lem slot [] db = (sym (append-nil db.tasks), refl)
  enqueue_cells_lem slot (cell ∷ cells) db =
      let agent = planned_agent host c target total plan now slot cell in
      let judge = planned_judge host c target total plan now slot cell db.next_task in
      let (rows, made) =
        enqueue_cells_lem (slot + 1) cells (enqueue judge now (enqueue agent now db).1).1 in
      (
        rows ∙ append_assoc (db.tasks ++ _ ∷ []) (_ ∷ []) _ ∙ append_assoc db.tasks (_ ∷ []) _,
        ap (λ l. db.next_task ∷ (db.next_task + 1) ∷ l) made,
      )

  length-planned_rows :
      (first slot : ℕ) (cells : List Cell)
      → length (planned_rows first slot cells) ≡ 2 * length cells
  unfolding planned_rows
  length-planned_rows first slot [] = refl
  length-planned_rows first slot (cell ∷ cells) =
      omega (arith, length-planned_rows (first + 1 + 1) (slot + 1) cells)

  planned_rows-IsPaired :
      (first slot : ℕ) (cells : List Cell) → IsPaired plan (planned_rows first slot cells)
  unfolding planned_rows planned_judge planned_agent
  planned_rows-IsPaired first slot [] = tt
  planned_rows-IsPaired first slot (cell ∷ cells) = (
    refl,
    refl,
    refl,
    refl,
    refl,
    refl,
    refl,
    refl,
    refl,
    planned_rows-IsPaired (first + 1 + 1) (slot + 1) cells,
  )

  enqueue_cells-IsValid :
      (slot : ℕ) (cells : List Cell) (db : Db)
      → IsValid db
      → IsValid (enqueue_cells host c target total plan now slot cells db).1
  unfolding enqueue_cells planned_judge planned_agent
  enqueue_cells-IsValid slot [] db v = v
  enqueue_cells-IsValid slot (cell ∷ cells) db v = enqueue_cells-IsValid (slot + 1) cells _ (
      enqueue-IsValid _ now _ refl
        (enqueue-IsValid (planned_agent host c target total plan now slot cell) now db refl v))

module _ (host : Host) where
  -- The plan for a commit takes the queue's next plan id and only adds rows to qa_tasks, whose ids it returns: pairs of a
  -- queued agent task and its blocked judge task in the new plan, one pair for each provider, scenario and attempt.
  pub create_plan_fan_out :
      (c : AutoPlanConfig) (target : Target) (scenarios : List String) (now : ℕ) (db : Db)
      → (rows : List Task) × ((create_plan host c target scenarios now db).0
          ≡ (db.next_plan, ids rows))
        × ((create_plan host c target scenarios now db).1.tasks ≡ db.tasks ++ rows)
        × IsPaired db.next_plan rows
        × (length rows ≡ 2 * (length c.providers * (length scenarios * max 1 c.attempts_min)))
  unfolding create_plan insert_plan
  create_plan_fan_out c target scenarios now db =
      let total = total_cells c scenarios in
      let cells = planned_cells c target scenarios in
      let rows = planned_rows host c target total db.next_plan now db.next_task 0 cells in
      let (added, made) = enqueue_cells_lem host c target total db.next_plan now 0 cells _ in
      (
        rows,
        ap (λ l. (db.next_plan, l)) made,
        added,
        planned_rows-IsPaired host c target total db.next_plan now db.next_task 0 cells,
        length-planned_rows host c target total db.next_plan now db.next_task 0 cells
            ∙ ap (λ n. 2 * n) (length-planned_cells c target scenarios),
      )

  create_plan-IsValid :
      (c : AutoPlanConfig) (target : Target) (scenarios : List String) (now : ℕ) (db : Db)
      → IsValid db
      → IsValid (create_plan host c target scenarios now db).1
  unfolding create_plan insert_plan
  create_plan-IsValid c target scenarios now db v =
      enqueue_cells-IsValid host c target _ db.next_plan now 0 _ _
        (record { ascending = v.ascending; rows = v.rows })

  visit_lineage-IsValid :
      (c : AutoPlanConfig) (scenarios : List String) (now : ℕ) (b : String × String) (s : Planner)
      → IsValid s.queue
      → IsValid (visit_lineage host c scenarios now b s).1.queue
  unfolding visit_lineage plan_commit record_planned
  visit_lineage-IsValid c scenarios now b s v = elim (Bool-cases (is_skipped host c b now s)) [
    | inl k ↦ rw k v
    | inr k ↦ rw k (create_plan-IsValid c _ scenarios now s.queue v)
  ]

  discover_lineages-IsValid :
      (c : AutoPlanConfig) (scenarios : List String) (now : ℕ) (bs : List (String × String))
      (s : Planner)
      → IsValid s.queue
      → IsValid (discover_lineages host c scenarios now bs s).1.queue
  unfolding discover_lineages
  discover_lineages-IsValid c scenarios now [] s v = v
  discover_lineages-IsValid c scenarios now (b ∷ bs) s v =
      discover_lineages-IsValid c scenarios now bs _ (visit_lineage-IsValid c scenarios now b s v)

  discover_one-IsValid :
      (c : AutoPlanConfig) (now : ℕ) (s : Planner)
      → IsValid s.queue
      → IsValid (discover_one host c now s).1.queue
  unfolding discover_one
  discover_one-IsValid c now s v = elim (Bool-cases (no_texts (resolve_scenarios host c))) [
    | inl k ↦ rw k v
    | inr k ↦ rw k (discover_lineages-IsValid c _ now _ s v)
  ]

  discover_all-IsValid :
      (cs : List AutoPlanConfig) (now : ℕ) (s : Planner)
      → IsValid s.queue
      → IsValid (discover_all host cs now s).1.queue
  unfolding discover_all
  discover_all-IsValid [] now s v = v
  discover_all-IsValid (c ∷ cs) now s v =
      discover_all-IsValid cs now _ (discover_one-IsValid c now s v)

  -- A call of the planner, for all configurations or for one, keeps the queue's rows and ids valid.
  pub discover-IsValid :
      (config_id : Option ℕ) (now : ℕ) (s : Planner)
      → IsValid s.queue
      → IsValid (discover host config_id now s).1.queue
  unfolding discover
  discover-IsValid config_id now s v = discover_all-IsValid _ now s v
