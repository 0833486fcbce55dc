-- ===== src/Queue/Keeps/Plans.antt =====
-- The worker fleet and the plans keep `IsValid`.
use diff_graph.Queue.Plans
use diff_graph.Base.{
  Bool, Bool-cases, List, Option, Option-cases, String, [], inl, inr, none, refl, some, ℕ, ◌∷◌, ◌≡◌,
}
use diff_graph.Queue.Invariant.{IsValid, IsValid-update}
use diff_graph.Queue.Keeps.Leases.{cancel_row-IsValidTask, enqueue-IsValid, release-IsValidTask}
use diff_graph.Queue.Plans.{
  Cell, agent_spec, cells, create, enqueue_all, enqueue_pair, insert_plan, is_empty, judge_spec,
}
use diff_graph.Queue.Rows.{Db, PlanSpec, Traces}
use diff_graph.Queue.Workers.{heal, list_workers}
use mathlib.Core.Path.{subst}

heal-IsValid :
    (like : String → String → Bool) (stale_after gc_after now : ℕ) (db : Db) (traces : Traces)
    → IsValid db
    → IsValid (heal like stale_after gc_after now db traces)
unfolding heal
heal-IsValid like stale_after gc_after now db traces v =
    let u = IsValid-update db v _ _ (λ t. refl) (λ t _ h. release-IsValidTask t h) in
    record { ascending = u.ascending; rows = u.rows }

pub list_workers-IsValid :
    (like : String → String → Bool) (stale_after gc_after now : ℕ) (db : Db)
    → IsValid db
    → IsValid (list_workers like stale_after gc_after now db).1
unfolding list_workers
list_workers-IsValid like stale_after gc_after now db v = elim (Option-cases db.traces) [
  | inl e ↦ rw (e, list_workers) v
  | inr (t, e) ↦ rw (e, list_workers) (heal-IsValid like stale_after gc_after now db t v)
]

module _ (bench_cmd : String → String) (spec : PlanSpec) (plan now : ℕ) where
  enqueue_pair-IsValid :
      (c : Cell) (db : Db) → IsValid db → IsValid (enqueue_pair bench_cmd spec plan now c db).1
  unfolding enqueue_pair judge_spec
  enqueue_pair-IsValid c db v =
      enqueue-IsValid _ now _ refl
        (enqueue-IsValid (agent_spec bench_cmd spec plan c) now db refl v)

  enqueue_all-IsValid :
      (cs : List Cell) (db : Db)
      → IsValid db
      → IsValid (enqueue_all bench_cmd spec plan now cs db).1
  unfolding enqueue_all
  enqueue_all-IsValid [] db v = v
  enqueue_all-IsValid (c ∷ cs) db v = enqueue_all-IsValid cs _ (enqueue_pair-IsValid c db v)

pub create-IsValid :
    (bench_cmd : String → String) (spec : PlanSpec) (now : ℕ) (db : Db) (made : ℕ × List ℕ)
    (db' : Db)
    → create bench_cmd spec now db ≡ some (made, db')
    → IsValid db
    → IsValid db'
unfolding create insert_plan
create-IsValid bench_cmd spec now db made db' e v = elim (Bool-cases (is_empty spec.providers)) [
  | inl bare ↦ let never : none ≡ some (made, db') = rw bare at e in cc never
  | inr some_provider ↦ elim (Bool-cases (is_empty spec.scenarios)) [
    | inl bare ↦ let never : none ≡ some (made, db') = rw (some_provider, bare) at e in cc never
    | inr some_scenario ↦ result (rw (some_provider, some_scenario) at e) (
        enqueue_all-IsValid bench_cmd spec db.next_plan now (cells spec) _
          (record { ascending = v.ascending; rows = v.rows }))
  ]
]
  where
    result :
        {m : ℕ × List ℕ} {x : Db}
        → ◌≡◌ {A = Option ((ℕ × List ℕ) × Db)} (some (m, x)) (some (made, db'))
        → IsValid x
        → IsValid db'
    result {m} {x} q h = let same : x ≡ db' = cc in subst IsValid same h

pub cancel_plan-IsValid :
    (plan now : ℕ) (db : Db) → IsValid db → IsValid (Plans.cancel plan now db).1
unfolding Plans.cancel
cancel_plan-IsValid plan now db v =
    let u = IsValid-update db v _ _ (λ t. refl) (λ t _ h. cancel_row-IsValidTask now t h) in
    record { ascending = u.ascending; rows = u.rows }
