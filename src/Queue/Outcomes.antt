-- ===== src/Queue/Outcomes.antt =====
-- The three ways in which `finish` returns.
use diff_graph.Base.{Bool, Bool-cases, Option, String, inl, inr, none, some, subst, true, ℕ, ◌≡◌}
use diff_graph.Queue.Finish.{Report, conclude_task, finish, requeue, will_retry}
use diff_graph.Queue.Rows.{Db, is_owned, is_terminal}
use diff_graph.Table.{any_row, update}

-- What holds of the database after a retry, after a terminal transition, and after a call that
-- changed nothing, holds after every `finish` that returns.
pub finish_cases :
    (P : Db → Type 0) (id : ℕ) (worker : String) (report : Report) (now : ℕ) (db : Db) (done : Bool)
    (db' : Db)
    → finish id worker report now db ≡ some (done, db')
    → (will_retry id worker report db ≡ true
        → P (record db { tasks = update (is_owned id worker) (requeue report) db.tasks }))
    → (is_terminal report.state ≡ true → P (conclude_task id worker report now db))
    → P db
    → P db'
unfolding finish
finish_cases P id worker report now db done db' e retried concluded same =
    elim (Bool-cases (is_terminal report.state)) [
      | inr open_state ↦
          let never : ◌≡◌ {A = Option (Bool × Db)} none (some (done, db')) = rw open_state at e in
          cc
      | inl terminal ↦ elim (Bool-cases (will_retry id worker report db)) [
        | inl retry ↦ result (rw (terminal, retry) at e) (retried retry)
        | inr final ↦ elim (Bool-cases (any_row (is_owned id worker) db.tasks)) [
          | inl own ↦ result (rw (terminal, final, own) at e) (concluded terminal)
          | inr stranger ↦ result (rw (terminal, final, stranger) at e) same
        ]
      ]
    ]
  where
    result :
        {b : Bool} {x : Db}
        → ◌≡◌ {A = Option (Bool × Db)} (some (b, x)) (some (done, db'))
        → P x
        → P db'
    result {b} {x} q h = let same : x ≡ db' = cc in subst P same h
