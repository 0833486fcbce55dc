-- ===== src/Queue/Invariant.antt =====
-- What is true of every row of qa_tasks, and of the ids, in any database that the methods reach.
use diff_graph.Base.{All, Bool, arith, false, is_some, none, refl, true, ℕ, ◌≡◌, ◌≤◌}
use diff_graph.Queue.Enqueue.{new_task}
use diff_graph.Queue.Ids.{Ascends, ids}
use diff_graph.Queue.Rows.{Db, Task, TaskSpec, TaskState, empty_db, is_agent, is_held, is_waiting}
use diff_graph.Table.{update}
use diff_graph.Table.Laws.{All-update, map-update}

-- A held task has an owner and an expiry; a waiting one has no owner; a judge task is never held;
-- no task has been retried more often than it may be.
pub record IsValidTask (t : Task) : Type 0 where
  pub owned : is_held t.state ≡ true → is_some t.lease_owner ≡ true
  pub expiring : is_held t.state ≡ true → is_some t.lease_expires_at ≡ true
  pub free : is_waiting t.state ≡ true → t.lease_owner ≡ none
  pub unheld_judge : is_agent t.kind ≡ false → is_held t.state ≡ false
  pub retries : t.retry_count ≤ t.max_retries

pub record IsValid (db : Db) : Type 0 where
  pub ascending : Ascends 1 db.next_task (ids db.tasks)
  pub rows : All IsValidTask db.tasks

pub IsValid-empty_db : IsValid empty_db
IsValid-empty_db = record { ascending = omega arith; rows = tt }

pub waiting_unheld : (s : TaskState) → is_waiting s ≡ true → is_held s ≡ false
waiting_unheld s h = ground arith

pub IsValidTask-new_task :
    (id : ℕ) (spec : TaskSpec) (now : ℕ)
    → is_waiting spec.initial_state ≡ true
    → IsValidTask (new_task id spec now)
IsValidTask-new_task id spec now h = record {
  owned = λ p. cc (waiting_unheld spec.initial_state h);
  expiring = λ p. cc (waiting_unheld spec.initial_state h);
  free = λ p. refl;
  unheld_judge = λ p. waiting_unheld spec.initial_state h;
  retries = omega arith;
}

-- A statement that updates rows keeps the ids, and the rows if it keeps each of them valid.
module _ (db : Db) (v : IsValid db) (p : Task → Bool) (f : Task → Task) where
  pub IsValid-update :
      ((t : Task) → (f t).id ≡ t.id)
      → ((t : Task) → p t ≡ true → IsValidTask t → IsValidTask (f t))
      → IsValid (record db { tasks = update p f db.tasks })
  IsValid-update same keep = record {
    ascending = rw (map-update (λ (t : Task). t.id) p f db.tasks same) v.ascending;
    rows = All-update p f db.tasks keep (λ t _ h. h) v.rows;
  }
