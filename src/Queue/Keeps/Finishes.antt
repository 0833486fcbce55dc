-- ===== src/Queue/Keeps/Finishes.antt =====
-- `finish` keeps `IsValid`, on every branch.
use diff_graph.Base.{
  All_map, Bool, Bool-cases, List, Option, Option-cases, String, arith, inl, inr, ltb, none, not,
  refl, some, true, ℕ, ◌||◌, ◌≡◌,
}
use diff_graph.Queue.Finish.{
  Report, conclude, conclude_plan, conclude_task, finish, follow, has_retries, is_of_plan,
  is_running_plan, maybe_finish_plan, requeue,
}
use diff_graph.Queue.Ids.{find?_unique}
use diff_graph.Queue.Invariant.{IsValid, IsValid-update, IsValidTask}
use diff_graph.Queue.Keeps.Leases.{IsValid-update_one}
use diff_graph.Queue.Outcomes.{finish_cases}
use diff_graph.Queue.Rows.{Db, Plan, Task, is_owned, is_terminal}
use diff_graph.Table.{any_row, find?, update}

requeue-IsValidTask :
    (report : Report) (t : Task)
    → ltb t.retry_count t.max_retries ≡ true
    → IsValidTask t
    → IsValidTask (requeue report t)
requeue-IsValidTask report t room h = ground arith

conclude-IsValidTask :
    (report : Report) (now : ℕ) (t : Task)
    → is_terminal report.state ≡ true
    → IsValidTask t
    → IsValidTask (conclude report now t)
conclude-IsValidTask report now t terminal h = ground arith

follow-IsValidTask :
    (report : Report) (now : ℕ) (t : Task) → IsValidTask t → IsValidTask (follow report now t)
follow-IsValidTask report now t h = ground arith

pub IsValid-plans :
    (db : Db) (plans : List Plan) → IsValid db → IsValid (record db { plans = plans })
IsValid-plans db plans v = record { ascending = v.ascending; rows = v.rows }

maybe_finish_plan-IsValid :
    (plan : ℕ) (db : Db) → IsValid db → IsValid (maybe_finish_plan plan db).1
unfolding maybe_finish_plan
maybe_finish_plan-IsValid plan db v =
    elim (Bool-cases
      (not (any_row (is_running_plan plan) db.plans) || any_row (is_of_plan plan) db.tasks)) [
        | inl e ↦ rw e v
        | inr e ↦ rw e (IsValid-plans db _ v)
      ]

conclude_plan-IsValid : (plan : Option ℕ) (db : Db) → IsValid db → IsValid (conclude_plan plan db)
unfolding conclude_plan
conclude_plan-IsValid none db v = v
conclude_plan-IsValid (some plan) db v = maybe_finish_plan-IsValid plan db v

conclude_task-IsValid :
    (id : ℕ) (worker : String) (report : Report) (now : ℕ) (db : Db)
    → is_terminal report.state ≡ true
    → IsValid db
    → IsValid (conclude_task id worker report now db)
unfolding conclude_task
conclude_task-IsValid id worker report now db terminal v = conclude_plan-IsValid _ _ (
    IsValid-update _
      (IsValid-update db v _ _ (λ t. refl) (λ t _ h. conclude-IsValidTask report now t terminal h))
      _ _ (λ t. refl) (λ t _ h. follow-IsValidTask report now t h))

-- A retry changes one row, whose retries are not used up.
retry-IsValid :
    (id : ℕ) (worker : String) (report : Report) (db : Db)
    → has_retries (find? (is_owned id worker) db.tasks) ≡ true
    → IsValid db
    → IsValid (record db { tasks = update (is_owned id worker) (requeue report) db.tasks })
retry-IsValid id worker report db room v =
    elim (Option-cases (find? (is_owned id worker) db.tasks)) [
      | inl e ↦ let never : has_retries none ≡ true = rw e at room in cc
      | inr (t, e) ↦
          let room_t : has_retries (some t) ≡ true = rw e at room in
          IsValid-update_one db v (is_owned id worker) (requeue report) t
            (All_map db.tasks (λ r same hit. same (own_id r hit))
              (find?_unique 1 db.next_task (is_owned id worker) id db.tasks t own_id v.ascending e))
            (λ r. refl) (requeue-IsValidTask report t room_t)
    ]
  where
    own_id : (r : Task) → is_owned id worker r ≡ true → r.id ≡ id
    own_id r hit = ground arith

pub finish-IsValid :
    (id : ℕ) (worker : String) (report : Report) (now : ℕ) (db : Db) (done : Bool) (db' : Db)
    → finish id worker report now db ≡ some (done, db')
    → IsValid db
    → IsValid db'
finish-IsValid id worker report now db done db' e v =
    finish_cases IsValid id worker report now db done db' e
      (λ retry. retry-IsValid id worker report db (ground (arith, retry)) v)
      (λ terminal. conclude_task-IsValid id worker report now db terminal v) v
