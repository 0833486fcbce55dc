-- ===== src/Queue/Rounds.antt =====
-- What an anonymous plan adds to the tasks: rows that wait, behind those that were there.
use diff_graph.Base.{
  All, Bool-cases, List, Option, String, [], ap, inl, inr, none, refl, some, subst, true, ℕ, ◌++◌,
  ◌+◌, ◌∙◌, ◌∷◌, ◌≡◌,
}
use diff_graph.Queue.Anonymous.{
  AnonymousSpec, Round, anonymous_agent, anonymous_judge, create_anonymous, enqueue_rounds, fan_out,
  no_scenarios, queues_of, rounds,
}
use diff_graph.Queue.Enqueue.{enqueue, new_task}
use diff_graph.Queue.Invariant.{IsValid}
use diff_graph.Queue.Keeps.Leases.{enqueue-IsValid}
use diff_graph.Queue.Plans.{insert_plan, is_empty}
use diff_graph.Queue.Rows.{Db, Task, is_waiting}
use mathlib.Core.List.{append-nil, append_assoc}

-- A call of `create_anonymous` that makes a plan has fanned it out.
pub create_anonymous-fan_out :
    (strip : String → String) (spec : AnonymousSpec) (now : ℕ) (db : Db) (made : ℕ × List ℕ)
    (db' : Db)
    → create_anonymous strip spec now db ≡ some (made, db')
    → (fan_out strip spec (queues_of strip spec) now db).1 ≡ db'
unfolding create_anonymous
create_anonymous-fan_out strip spec now db made db' e =
    elim (Bool-cases (no_scenarios spec.scenarios)) [
      | inl bare ↦ let never : none ≡ some (made, db') = rw bare at e in cc never
      | inr some_scenario ↦ elim (Bool-cases (is_empty (queues_of strip spec))) [
        | inl bare ↦ let never : none ≡ some (made, db') = rw (some_scenario, bare) at e in cc never
        | inr some_queue ↦ result _ (rw (some_scenario, some_queue) at e)
      ]
    ]
  where
    result :
        (x : (ℕ × List ℕ) × Db)
        → ◌≡◌ {A = Option ((ℕ × List ℕ) × Db)} (some x) (some (made, db'))
        → x.1 ≡ db'
    result x q = let same : x ≡ (made, db') = cc in ap (λ y. y.1) same

module _ (spec : AnonymousSpec) (plan now : ℕ) where
  enqueue_rounds-IsValid :
      (rs : List Round) (db : Db) → IsValid db → IsValid (enqueue_rounds spec plan now rs db).1
  unfolding enqueue_rounds anonymous_judge anonymous_agent
  enqueue_rounds-IsValid [] db v = v
  enqueue_rounds-IsValid (r ∷ rs) db v =
      enqueue_rounds-IsValid rs _
        (enqueue-IsValid _ now _ refl (enqueue-IsValid (anonymous_agent spec plan r) now db refl v))

  enqueue_rounds-tasks :
      (rs : List Round) (db : Db)
      → (news : List Task) × ((enqueue_rounds spec plan now rs db).1.tasks ≡ db.tasks ++ news)
        × All (λ t. is_waiting t.state ≡ true) news
  unfolding enqueue_rounds enqueue anonymous_judge anonymous_agent
  enqueue_rounds-tasks [] db = ([], rw append-nil refl, tt)
  enqueue_rounds-tasks (r ∷ rs) db =
      let (agent_id, db') = enqueue (anonymous_agent spec plan r) now db in
      let (judge_id, db'') = enqueue (anonymous_judge spec plan r agent_id) now db' in
      let (news, same, waits) = enqueue_rounds-tasks rs db'' in
      let a = new_task db.next_task (anonymous_agent spec plan r) now in
      let j = new_task (db.next_task + 1) (anonymous_judge spec plan r db.next_task) now in
      (
        a ∷ j ∷ news,
        same
            ∙ append_assoc (db.tasks ++ a ∷ []) (j ∷ []) news
            ∙ append_assoc db.tasks (a ∷ []) (j ∷ news),
        (refl, (refl, waits)),
      )

pub create_anonymous-IsValid :
    (strip : String → String) (spec : AnonymousSpec) (now : ℕ) (db : Db) (made : ℕ × List ℕ)
    (db' : Db)
    → create_anonymous strip spec now db ≡ some (made, db')
    → IsValid db
    → IsValid db'
unfolding insert_plan
create_anonymous-IsValid strip spec now db made db' e v =
    subst IsValid (create_anonymous-fan_out strip spec now db made db' e) (
      enqueue_rounds-IsValid spec db.next_plan now (rounds spec (queues_of strip spec)) _
        (record { ascending = v.ascending; rows = v.rows }))

pub create_anonymous-tasks :
    (strip : String → String) (spec : AnonymousSpec) (now : ℕ) (db : Db) (made : ℕ × List ℕ)
    (db' : Db)
    → create_anonymous strip spec now db ≡ some (made, db')
    → (news : List Task) × (db'.tasks ≡ db.tasks ++ news)
      × All (λ t. is_waiting t.state ≡ true) news
unfolding insert_plan
create_anonymous-tasks strip spec now db made db' e =
    subst
      (λ x.
        (news : List Task) × (x.tasks ≡ db.tasks ++ news)
        × All (λ t. is_waiting t.state ≡ true) news)
      (create_anonymous-fan_out strip spec now db made db' e)
      (enqueue_rounds-tasks spec db.next_plan now (rounds spec (queues_of strip spec)) _)
