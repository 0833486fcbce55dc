-- ===== src/Queue/Exclusion.antt =====
-- One worker at a time: who holds a task keeps it until it is released or finished.
use diff_graph.Base.{
  Bool, Option, String, ap, arith, eq_iff, is_text, none, some, subst, sym, true, ℕ, ◌∙◌, ◌≡◌, ◌≢◌,
}
use diff_graph.Queue.Enqueue.{enqueue}
use diff_graph.Queue.Finish.{Report, finish}
use diff_graph.Queue.Ids.{unique_of_mem}
use diff_graph.Queue.Invariant.{IsValid}
use diff_graph.Queue.Lease.{heartbeat, is_beating, is_eligible, lease, set_task_trace_run_id}
use diff_graph.Queue.Leasing.{lease_claims}
use diff_graph.Queue.Rows.{Db, Task, TaskSpec, is_waiting}
use diff_graph.Table.{any_row}
use diff_graph.Table.Laws.{All_at, any_row_witness}

pub is_text_injective :
    (o : Option String) (v w : String) → is_text o v ≡ true → is_text o w ≡ true → v ≡ w
is_text_injective none v w p q = cc
is_text_injective (some s) v w p q = ground (arith, eq_iff s v, eq_iff s w)

-- Worker `w` holds task `id`: its heartbeat would be accepted.
abbrev pub Holds : ℕ → String → Db → Type 0
Holds id w db = any_row (is_beating id w) db.tasks ≡ true

-- The calls that neither release a lease, nor cancel, nor finish a task in the name of `w`; the clock
-- and the arguments are any.
pub data Working (w : String) (db : Db) : Db → Type 0 where
  enqueues :
      (spec : TaskSpec) (now : ℕ)
      → is_waiting spec.initial_state ≡ true
      → Working w db (enqueue spec now db).1
  leases : (queue worker : String) (n now : ℕ) → Working w db (lease queue worker n now db).1
  beats : (id : ℕ) (worker : String) (n now : ℕ) → Working w db (heartbeat id worker n now db).1
  finishes :
      {db' : Db} (id : ℕ) (worker : String) (report : Report) (now : ℕ) (done : Bool)
      → worker ≢ w
      → finish id worker report now db ≡ some (done, db')
      → Working w db db'
  stamps : (id : ℕ) (run : String) → Working w db (set_task_trace_run_id id run db).1

pub data Works (w : String) (db : Db) : Db → Type 0 where
  here : Works w db db
  next : {x y : Db} → Works w db x → Working w x y → Works w db y

-- In a valid database, `lease` never hands out a task that some worker holds.
pub lease_exclusive :
    (id : ℕ) (w queue worker : String) (n now : ℕ) (db : Db) (t : Task)
    → IsValid db
    → Holds id w db
    → (lease queue worker n now db).0 ≡ some t
    → t.id ≢ id
lease_exclusive id w queue worker n now db t v h e same =
    let (row, c) =
      lease_claims queue worker n now db (lease queue worker n now db).1 t v (pair e) in
    let (r, held, listed) = any_row_witness (is_beating id w) db.tasks h in
    let id_row : row.id ≡ id = sym (ap (λ (x : Task). x.id) c.claimed) ∙ same in
    let id_r : r.id ≡ row.id = ground (arith, held) in
    let one : r ≡ row =
      All_at (λ x. x.id ≡ row.id → x ≡ row) db.tasks r
        (unique_of_mem 1 db.next_task db.tasks row v.ascending c.listed) listed id_r in
    let held_row : is_beating id w row ≡ true = subst (λ x. is_beating id w x ≡ true) one held in
    apart row held_row c.eligible
  where
    pair :
        (lease queue worker n now db).0 ≡ some t
        → lease queue worker n now db ≡ (some t, (lease queue worker n now db).1)
    pair q = λ i. (q i, (lease queue worker n now db).1)

    apart : (row : Task) → is_beating id w row ≡ true → is_eligible queue now row ≡ true → ⊥
    apart row held eligible = ground arith
