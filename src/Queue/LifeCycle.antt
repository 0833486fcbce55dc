-- ===== src/Queue/LifeCycle.antt =====
-- The life of one task as an abstract machine, and the rows of the queue as its refinement.
use diff_graph.Base.{
  ==_iff, All, All_map, All_of, Bool, Bool-cases, List, Option, Option-cases, String, [], arith,
  false, inl, inr, none, refl, some, subst, sym, true, ℕ, ◌++◌, ◌+◌, ◌∙◌, ◌∷◌, ◌≡◌,
}
use diff_graph.Queue.Enqueue.{enqueue}
use diff_graph.Queue.Fanout.{IsPaired, create_fan_out}
use diff_graph.Queue.Finish.{
  Report, conclude, conclude_plan, conclude_task, finish, follow, is_companion, maybe_finish_plan,
  requeue,
}
use diff_graph.Queue.Ids.{ids, unique_of_mem}
use diff_graph.Queue.Invariant.{IsValid, IsValidTask}
use diff_graph.Queue.Lease.{
  claim, force_release_all_leases, heartbeat, is_beating, is_eligible, lease, precedes,
  reap_stale_leases, set_task_trace_run_id,
}
use diff_graph.Queue.Outcomes.{finish_cases}
use diff_graph.Queue.Plans.{create, is_empty}
use diff_graph.Queue.Rounds.{create_anonymous-tasks}
use diff_graph.Queue.Rows.{
  Db, PlanSpec, Task, TaskState, blocked, has_id, is_owned, is_terminal, is_waiting, leased, queued,
  release, seconds,
}
use diff_graph.Queue.Steps.{Step}
use diff_graph.Queue.Workers.{
  heal, list_workers, register_worker, worker_heartbeat, worker_set_state,
}
use diff_graph.Table.{first_by, update}
use diff_graph.Table.Choice.{first_by_holds, mem-first_by}
use diff_graph.Queue.Lease
use diff_graph.Queue.Plans

-- What a client sees of a task: it waits for its agent task, it waits for a worker, a worker has it, or
-- it has ended. The other columns of the row are forgotten.
pub data Phase : Type 0 where
  unready ready ended : Phase
  taken : Option String → Phase

abbrev phase_of : TaskState → Option String → Phase
phase_of blocked owner = unready
phase_of queued owner = ready
phase_of leased owner = taken owner
phase_of TaskState.running owner = taken owner
phase_of _ owner = ended

abbrev pub phase : Task → Phase
phase t = phase_of t.state t.lease_owner

-- The transitions of the machine. An unready task only ends; a worker that has a task never loses it to
-- another worker in one step; an ended task is not taken, and only a late report makes it ready again.
abbrev pub CanMove : Phase → Phase → Type 0
CanMove unready unready = Unit
CanMove unready ended = Unit
CanMove ready ready = Unit
CanMove ready (taken w) = Unit
CanMove ready ended = Unit
CanMove (taken v) (taken w) = v ≡ w
CanMove (taken v) ready = Unit
CanMove (taken v) ended = Unit
CanMove ended ended = Unit
CanMove ended ready = Unit
CanMove _ _ = ⊥

-- A row and what it becomes.
abbrev pub Follows : Task → Task → Type 0
Follows t u = (u.id ≡ t.id) × CanMove (phase t) (phase u)

abbrev pub IsFresh : Task → Type 0
IsFresh t = is_waiting t.state ≡ true

-- The table after a call: each row has made one transition of the machine, in its place; new rows wait.
abbrev pub Evolves : List Task → List Task → Type 0
Evolves [] us = All IsFresh us
Evolves (t ∷ ts) [] = ⊥
Evolves (t ∷ ts) (u ∷ us) = Follows t u × Evolves ts us

Follows-refl : (t : Task) → Follows t t
Follows-refl t = (refl, same (phase t))
  where
    same : (p : Phase) → CanMove p p
    same unready = tt
    same ready = tt
    same ended = tt
    same (taken w) = refl

Evolves-append : (ts news : List Task) → All IsFresh news → Evolves ts (ts ++ news)
Evolves-append [] news h = h
Evolves-append (t ∷ ts) news h = (Follows-refl t, Evolves-append ts news h)

Evolves-refl : (ts : List Task) → Evolves ts ts
Evolves-refl [] = tt
Evolves-refl (t ∷ ts) = (Follows-refl t, Evolves-refl ts)

module _ (p : Task → Bool) (f : Task → Task) where
  Evolves-update :
      (ts : List Task) → All (λ t. p t ≡ true → Follows t (f t)) ts → Evolves ts (update p f ts)
  unfolding update
  Evolves-update [] h = tt
  Evolves-update (t ∷ ts) h = (
    elim (Bool-cases (p t)) [ inl e ↦ rw e (h.0 e) | inr e ↦ rw e (Follows-refl t) ],
    Evolves-update ts h.1,
  )

  -- Two updates of which the second leaves alone what the first has changed.
  Evolves-update2 :
      (q : Task → Bool) (g : Task → Task) (ts : List Task)
      → ((t : Task) → p t ≡ true → Follows t (f t) × (q (f t) ≡ false))
      → ((t : Task) → q t ≡ true → Follows t (g t))
      → Evolves ts (update q g (update p f ts))
  unfolding update
  Evolves-update2 q g [] h k = tt
  Evolves-update2 q g (t ∷ ts) h k = (
    elim (Bool-cases (p t)) [
      | inl e ↦ rw e (rw (h t e).1 (h t e).0)
      | inr e ↦
          rw e (elim (Bool-cases (q t)) [ inl d ↦ rw d (k t d) | inr d ↦ rw d (Follows-refl t) ])
    ],
    Evolves-update2 q g ts h k,
  )

lease-Evolves :
    (queue worker : String) (n now : ℕ) (db : Db)
    → IsValid db
    → Evolves db.tasks (lease queue worker n now db).1.tasks
unfolding lease
lease-Evolves queue worker n now db v =
    elim (Option-cases (first_by precedes (is_eligible queue now) db.tasks)) [
      | inl e ↦ rw (e, lease) (Evolves-refl db.tasks)
      | inr (t, e) ↦
          rw (e, lease)
            (Evolves-update (has_id t.id) (claim worker (now + seconds n) now) db.tasks (
              All_map db.tasks
                (λ r same hit.
                  ready_row r t (same ((==_iff r.id t.id).0 hit))
                    (first_by_holds precedes (is_eligible queue now) db.tasks t e))
                (unique_of_mem 1 db.next_task db.tasks t v.ascending
                  (mem-first_by precedes (is_eligible queue now) db.tasks t e))))
    ]
  where
    ready_row :
        (r t : Task)
        → r ≡ t
        → is_eligible queue now t ≡ true
        → Follows r (claim worker (now + seconds n) now r)
    ready_row r t same eligible =
        subst (λ x. Follows x (claim worker (now + seconds n) now x)) (sym same)
          (claimed t eligible)
      where
        claimed :
            (t : Task)
            → is_eligible queue now t ≡ true
            → Follows t (claim worker (now + seconds n) now t)
        claimed t eligible = ground arith

conclude_plan-tasks : (plan : Option ℕ) (db : Db) → (conclude_plan plan db).tasks ≡ db.tasks
unfolding conclude_plan maybe_finish_plan
conclude_plan-tasks none db = refl
conclude_plan-tasks (some plan) db = ground arith

conclude_task-Evolves :
    (id : ℕ) (worker : String) (report : Report) (now : ℕ) (db : Db)
    → is_terminal report.state ≡ true
    → Evolves db.tasks (conclude_task id worker report now db).tasks
unfolding conclude_task
conclude_task-Evolves id worker report now db h =
    subst (Evolves db.tasks) (sym (conclude_plan-tasks _ _)) (
      Evolves-update2 (is_owned id worker) (conclude report now) (is_companion id)
        (follow report now) db.tasks (λ t e. ground (arith, h)) (λ t e. ground (arith, e)))

finish-Evolves :
    (id : ℕ) (worker : String) (report : Report) (now : ℕ) (db : Db) (done : Bool) (db' : Db)
    → IsValid db
    → finish id worker report now db ≡ some (done, db')
    → Evolves db.tasks db'.tasks
finish-Evolves id worker report now db done db' v e =
    finish_cases (λ x. Evolves db.tasks x.tasks) id worker report now db done db' e
      (λ _.
        Evolves-update (is_owned id worker) (requeue report) db.tasks
          (All_map db.tasks (λ t h own. requeued t h own) v.rows))
      (conclude_task-Evolves id worker report now db) (Evolves-refl db.tasks)
  where
    requeued :
        (t : Task) → IsValidTask t → is_owned id worker t ≡ true → Follows t (requeue report t)
    requeued t h own = let free = h.free in ground (arith, free, own)

list_workers-Evolves :
    (like : String → String → Bool) (stale_after gc_after now : ℕ) (db : Db)
    → Evolves db.tasks (list_workers like stale_after gc_after now db).1.tasks
unfolding list_workers heal
list_workers-Evolves like stale_after gc_after now db = elim (Option-cases db.traces) [
  | inl e ↦ rw (e, list_workers) (Evolves-refl db.tasks)
  | inr (t, e) ↦
      rw (e, list_workers)
        (Evolves-update _ release db.tasks (All_of (λ r h. ground (arith, h)) db.tasks))
]

IsPaired-IsFresh : (plan : ℕ) (rows : List Task) → IsPaired plan rows → All IsFresh rows
IsPaired-IsFresh plan [] h = tt
IsPaired-IsFresh plan (a ∷ []) h = absurd h
IsPaired-IsFresh plan (a ∷ j ∷ rows) h =
    (rw h.0 refl, (rw h.3 refl, IsPaired-IsFresh plan rows h.9))

create-Evolves :
    (bench_cmd : String → String) (spec : PlanSpec) (now : ℕ) (db : Db) (made : ℕ × List ℕ)
    (db' : Db)
    → create bench_cmd spec now db ≡ some (made, db')
    → Evolves db.tasks db'.tasks
unfolding create
create-Evolves bench_cmd spec now db made db' e = elim (Bool-cases (is_empty spec.providers)) [
  | inl bare ↦ let never : none ≡ some (made, db') = rw bare at e in cc never
  | inr some_provider ↦ elim (Bool-cases (is_empty spec.scenarios)) [
    | inl bare ↦ let never : none ≡ some (made, db') = rw (some_provider, bare) at e in cc never
    | inr some_scenario ↦
        let fan = create_fan_out bench_cmd spec now db some_provider some_scenario in
        same fan.0 (db.next_plan, ids fan.1) fan.2
          (rw fan.3 (Evolves-append db.tasks fan.1 (IsPaired-IsFresh db.next_plan fan.1 fan.4)))
  ]
]
  where
    same :
        (x : Db) (m : ℕ × List ℕ)
        → create bench_cmd spec now db ≡ some (m, x)
        → Evolves db.tasks x.tasks
        → Evolves db.tasks db'.tasks
    same x m q h =
        let one : ◌≡◌ {A = Option ((ℕ × List ℕ) × Db)} (some (m, x)) (some (made, db')) =
          sym q ∙ e in
        let end : x ≡ db' = cc in subst (λ z. Evolves db.tasks z.tasks) end h

-- Every call on a valid database, of any method and with any arguments but for `enqueue`, which is given an initial
-- state that waits (queued or blocked), makes at most one transition of the abstract machine on each task and keeps
-- each task in its place with its id; the tasks that it adds, one, the rounds of a plan or none, wait.
pub Step-Evolves : {x y : Db} → Step x y → IsValid x → Evolves x.tasks y.tasks
unfolding enqueue heartbeat set_task_trace_run_id Lease.cancel force_release_all_leases
    reap_stale_leases register_worker worker_heartbeat worker_set_state Plans.cancel
Step-Evolves {x} (Step.enqueues spec now h) v = Evolves-append x.tasks _ (h, tt)
Step-Evolves {x} (Step.leases queue worker n now) v = lease-Evolves queue worker n now x v
Step-Evolves {x} (Step.beats id worker n now) v =
    Evolves-update (is_beating id worker) _ x.tasks (All_of (λ t h. ground (arith, h)) x.tasks)
Step-Evolves {x} {y} (Step.finishes id worker report now done e) v =
    finish-Evolves id worker report now x done y v e
Step-Evolves {x} (Step.stamps id run) v =
    Evolves-update (has_id id) _ x.tasks (All_of (λ t h. (refl, (Follows-refl t).1)) x.tasks)
Step-Evolves {x} (Step.cancels id now) v =
    Evolves-update _ _ x.tasks (All_of (λ t h. ground (arith, h)) x.tasks)
Step-Evolves {x} (Step.forces reason) v =
    Evolves-update _ _ x.tasks (All_of (λ t h. ground (arith, h)) x.tasks)
Step-Evolves {x} (Step.reaps grace now) v =
    Evolves-update _ _ x.tasks (All_of (λ t h. ground (arith, h)) x.tasks)
Step-Evolves {x} (Step.registers worker fresh queue capacity pid now) v = Evolves-refl x.tasks
Step-Evolves {x} (Step.lives worker now) v = Evolves-refl x.tasks
Step-Evolves {x} (Step.sets worker state now) v = Evolves-refl x.tasks
Step-Evolves {x} (Step.lists like stale gc now) v = list_workers-Evolves like stale gc now x
Step-Evolves {x} {y} (Step.plans bench_cmd spec now made e) v =
    create-Evolves bench_cmd spec now x made y e
Step-Evolves {x} {y} (Step.fires strip spec now made e) v =
    let (news, same, waits) = create_anonymous-tasks strip spec now x made y e in
    rw same (Evolves-append x.tasks news waits)
Step-Evolves {x} (Step.drops plan now) v =
    Evolves-update _ _ x.tasks (All_of (λ t h. ground (arith, h)) x.tasks)
