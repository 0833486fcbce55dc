-- ===== src/Queue/Ending.antt =====
-- How a task ends: who may finish it, retries, the companion judge, the end of the plan, and what
-- happens to a cancelled task whose worker reports late.
use diff_graph.Base.{
  ==_iff, All, All_map, All_of, Bool, Bool-cases, Memᴰ, Option, String, arith, eq_iff, false, inl,
  inr, none, refl, some, subst, sym, true, ℕ, ◌<◌, ◌∙◌, ◌≡◌,
}
use diff_graph.Queue.Finish.{
  Report, conclude_plan, conclude_task, finish, follow, is_companion, is_of_plan, is_running_plan,
  is_transient, maybe_finish_plan, requeue,
}
use diff_graph.Queue.Ids.{unique_of_mem}
use diff_graph.Queue.Invariant.{IsValid}
use diff_graph.Queue.Rows.{Db, PlanState, Task, TaskState, has_id, is_owned, is_terminal}
use diff_graph.Table.{any_row, find?, update}
use diff_graph.Table.Laws.{All-update, any_row_none}
use diff_graph.Table.Lookup.{find?-none, find?-update_at, find?_only}
use diff_graph.Queue.Enqueue

-- Only the owner finishes a task: for any other worker a terminal report returns False and changes
-- nothing, whatever the state it reports.
pub finish_stranger :
    (id : ℕ) (worker : String) (report : Report) (now : ℕ) (db : Db)
    → is_terminal report.state ≡ true
    → any_row (is_owned id worker) db.tasks ≡ false
    → finish id worker report now db ≡ some (false, db)
unfolding finish
finish_stranger id worker report now db terminal stranger =
    rw terminal
      (rw (find?-none (is_owned id worker) db.tasks stranger) (rw stranger (ground arith)))

-- A plan that is running stays running, when a task of it is finished, exactly while some task of
-- it is queued, leased or running.
pub maybe_finish_plan_lem :
    (plan : ℕ) (db : Db)
    → any_row (is_running_plan plan) db.plans ≡ true
    → any_row (is_running_plan plan) (maybe_finish_plan plan db).1.plans
      ≡ any_row (is_of_plan plan) db.tasks
unfolding maybe_finish_plan
maybe_finish_plan_lem plan db h = elim (Bool-cases (any_row (is_of_plan plan) db.tasks)) [
  | inl open_tasks ↦ rw h (rw open_tasks h)
  | inr all_done ↦ rw h (
      rw all_done (
        any_row_none (is_running_plan plan) _ (
          All-update {P = λ p. Unit {0}} (is_running_plan plan)
            (λ p. record p { state = PlanState.done }) db.plans (λ p _ _. ground arith)
            (λ p miss _. miss) (All_of (λ p. tt) db.plans))))
]

tasks-conclude_plan : (plan : Option ℕ) (db : Db) → (conclude_plan plan db).tasks ≡ db.tasks
unfolding conclude_plan
tasks-conclude_plan none db = refl
tasks-conclude_plan (some plan) db = unfold maybe_finish_plan in ground arith

-- No companion of a finished task waits: a terminal transition ends those that did.
conclude_task_companions :
    (id : ℕ) (worker : String) (report : Report) (now : ℕ) (db : Db)
    → All (λ t. is_companion id t ≡ false) (conclude_task id worker report now db).tasks
unfolding conclude_task
conclude_task_companions id worker report now db = rw tasks-conclude_plan (
    All-update {P = λ t. Unit {0}} (is_companion id) (follow report now) _ (λ t _ _. ground arith)
      (λ t miss _. miss) (All_of (λ t. tt) _))

-- When `finish` returns True for a report that is not a transient error, no companion judge task of
-- the task is blocked or queued any more.
pub finish_companions :
    (id : ℕ) (worker : String) (report : Report) (now : ℕ) (db db' : Db)
    → finish id worker report now db ≡ some (true, db')
    → is_transient report ≡ false
    → All (λ t. is_companion id t ≡ false) db'.tasks
unfolding finish
finish_companions id worker report now db db' e lasting =
    elim (Bool-cases (is_terminal report.state)) [
      | inr open_state ↦
          let never : ◌≡◌ {A = Option (Bool × Db)} none (some (true, db')) = rw open_state at e in
          cc
      | inl terminal ↦ elim (Bool-cases (any_row (is_owned id worker) db.tasks)) [
        | inl own ↦
            let done : ◌≡◌ {A = Option (Bool × Db)}
                (some (true, conclude_task id worker report now db)) (some (true, db')) =
              rw (terminal, lasting, own) at e in
            let same : conclude_task id worker report now db ≡ db' = cc in
            subst (λ x. All (λ t. is_companion id t ≡ false) x.tasks) same
              (conclude_task_companions id worker report now db)
        | inr stranger ↦
            let never : ◌≡◌ {A = Option (Bool × Db)} (some (false, db)) (some (true, db')) =
              rw (terminal, lasting, stranger) at e in
            cc
      ]
    ]

-- The late report of a worker whose task was cancelled: with a transient error and retries left the
-- task is queued again, so the cancellation is undone.
pub finish_revives_cancelled :
    (id : ℕ) (worker : String) (report : Report) (now : ℕ) (db : Db) (t : Task)
    → IsValid db
    → Memᴰ t db.tasks
    → t.id ≡ id
    → t.state ≡ TaskState.cancelled
    → t.lease_owner ≡ some worker
    → t.retry_count < t.max_retries
    → is_transient report ≡ true
    → (db' : Db) × (finish id worker report now db ≡ some (true, db'))
      × (Enqueue.get id db' ≡ some (requeue report t))
unfolding finish Enqueue.get
finish_revives_cancelled id worker report now db t v listed same gone own room transient = (
  record db { tasks = update (is_owned id worker) (requeue report) db.tasks },
  rw terminal (rw found (rw transient (ground arith))),
  find?-update_at (has_id id) (is_owned id worker) (requeue report) db.tasks t listed
      ((==_iff t.id id).1 same) owned_t (λ r. refl) one_t,
)
  where
    owned_t : is_owned id worker t ≡ true
    owned_t = ground (arith, eq_iff worker worker)

    one_t : All (λ r. has_id id r ≡ true → r ≡ t) db.tasks
    one_t =
        All_map db.tasks (λ r one hit. one ((==_iff r.id id).0 hit ∙ sym same))
          (unique_of_mem 1 db.next_task db.tasks t v.ascending listed)

    found : find? (is_owned id worker) db.tasks ≡ some t
    found =
        find?_only (is_owned id worker) db.tasks t listed owned_t
          (All_map db.tasks (λ r one hit. one (ground (arith, hit))) one_t)

    terminal : is_terminal report.state ≡ true
    terminal = ground (arith, transient)
