-- ===== src/Queue/Fanout.antt =====
-- What `PlanStore.create` enqueues.
use diff_graph.Base.{
  List, Memᴰ, String, [], ap, arith, false, length, length-append, length-map, max, refl, some, suc,
  sym, zero, ℕ, ◌*◌, ◌++◌, ◌+◌, ◌↔◌, ◌∙◌, ◌∷◌, ◌≡◌,
}
use diff_graph.Queue.Cells.{IsFor, IsRound, cells-Mem, tagged_round}
use diff_graph.Queue.Enqueue.{enqueue, new_task}
use diff_graph.Queue.Ids.{ids}
use diff_graph.Queue.Plans.{
  Cell, agent_spec, attempts, cells, create, enqueue_all, enqueue_pair, insert_plan, is_empty,
  judge_spec, lineages_or_blank, loop,
}
use diff_graph.Queue.Rows.{Db, PlanSpec, Task, agent, blocked, judge, queued}
use mathlib.Core.List.{append-nil, append_assoc}

-- A loop's rounds: one for each element, if each yields the same number.
pub length-loop :
    {A B : Type 0} (f : A → List B) (n : ℕ)
    → ((a : A) → length (f a) ≡ n)
    → (xs : List A) → length (loop f xs) ≡ length xs * n
unfolding loop
length-loop f n same [] = omega arith
length-loop f n same (x ∷ xs) =
    omega (arith, same x, length-loop f n same xs, length-append (f x) (loop f xs))

pub length-attempts : (first n : ℕ) → length (attempts first n) ≡ n
unfolding attempts
length-attempts first zero = refl
length-attempts first (suc n) = ap suc (length-attempts (first + 1) n)

length-cells :
    (spec : PlanSpec)
    → length (cells spec)
      ≡ length (lineages_or_blank spec.lineages)
        * (length spec.providers * (length spec.scenarios * max 1 spec.attempts_min))
unfolding cells
length-cells spec =
    length-loop _ _
      (λ lineage.
        length-loop _ _
          (λ queue.
            length-loop _ _
              (λ scenario.
                length-map _ (attempts 1 (max 1 spec.attempts_min))
                ∙ length-attempts 1 (max 1 spec.attempts_min))
              spec.scenarios)
          spec.providers)
      (lineages_or_blank spec.lineages)

-- The rows come in pairs: a queued agent task, and the blocked judge task that names it as parent.
abbrev pub IsPaired : ℕ → List Task → Type 0
IsPaired plan (a ∷ j ∷ rest) =
    (a.state ≡ queued)
    × (a.kind ≡ agent)
    × (a.plan_id ≡ some plan)
    × (j.state ≡ blocked)
    × (j.kind ≡ judge)
    × (j.plan_id ≡ some plan)
    × (j.parent_task_id ≡ some a.id)
    × (j.queue ≡ a.queue)
    × (j.attempt_n ≡ a.attempt_n)
    × IsPaired plan rest
IsPaired plan [] = Unit
IsPaired plan (a ∷ []) = ⊥

module _ (bench_cmd : String → String) (spec : PlanSpec) (plan now : ℕ) where
  -- The rows that a list of rounds adds from the id `first` on.
  pub rows_of : ℕ → List Cell → List Task
  rows_of first [] = []
  rows_of first (c ∷ cs) =
      new_task first (agent_spec bench_cmd spec plan c) now
      ∷ new_task (first + 1) (judge_spec bench_cmd spec plan c first) now
      ∷ rows_of (first + 1 + 1) cs

  enqueue_all_lem :
      (cs : List Cell) (db : Db)
      → ((enqueue_all bench_cmd spec plan now cs db).1.tasks ≡ db.tasks ++ rows_of db.next_task cs)
        × ((enqueue_all bench_cmd spec plan now cs db).0 ≡ ids (rows_of db.next_task cs))
  unfolding enqueue_all enqueue_pair enqueue rows_of judge_spec
  enqueue_all_lem [] db = (sym (append-nil db.tasks), refl)
  enqueue_all_lem (c ∷ cs) db =
      let (rows, made) = enqueue_all_lem cs (enqueue_pair bench_cmd spec plan now c db).1 in
      (
        rows ∙ append_assoc (db.tasks ++ _ ∷ []) (_ ∷ []) _ ∙ append_assoc db.tasks (_ ∷ []) _,
        ap (λ l. db.next_task ∷ (db.next_task + 1) ∷ l) made,
      )

  length-rows_of : (first : ℕ) (cs : List Cell) → length (rows_of first cs) ≡ 2 * length cs
  unfolding rows_of
  length-rows_of first [] = refl
  length-rows_of first (c ∷ cs) = omega (arith, length-rows_of (first + 1 + 1) cs)

  rows_of-IsPaired : (first : ℕ) (cs : List Cell) → IsPaired plan (rows_of first cs)
  unfolding rows_of judge_spec
  rows_of-IsPaired first [] = tt
  rows_of-IsPaired first (c ∷ cs) =
      (refl, refl, refl, refl, refl, refl, refl, refl, refl, rows_of-IsPaired (first + 1 + 1) cs)

-- The pairs of rows are for the rounds, in their order.
abbrev pub AreFor : List Cell → List Task → Type 0
AreFor [] [] = Unit
AreFor (c ∷ cs) (a ∷ j ∷ rest) = IsFor c a × IsFor c j × AreFor cs rest
AreFor [] (t ∷ rest) = ⊥
AreFor (c ∷ cs) [] = ⊥
AreFor (c ∷ cs) (a ∷ []) = ⊥

module _ (bench_cmd : String → String) (spec : PlanSpec) (plan now : ℕ) where
  rows_of-AreFor :
      (first : ℕ) (cs : List Cell) → AreFor cs (rows_of bench_cmd spec plan now first cs)
  unfolding rows_of judge_spec agent_spec
  rows_of-AreFor first [] = tt
  rows_of-AreFor first (c ∷ cs) =
      let (scenario, lineage) = tagged_round c (agent_spec bench_cmd spec plan c) refl in
      let (scenario', lineage') = tagged_round c (judge_spec bench_cmd spec plan c first) refl in
      (
        (refl, refl, scenario, lineage),
        (refl, refl, scenario', lineage'),
        rows_of-AreFor (first + 1 + 1) cs,
      )

-- `create` with a provider and a scenario succeeds. It only adds rows to qa_tasks; the ids it returns are theirs; the
-- rows are pairs of a queued agent task and its blocked judge task in the new plan. The pairs are for rounds, one
-- after another: both tasks have the round's provider as queue and its attempt, and are tagged with its scenario and
-- its lineage, if these are not empty. The rounds are exactly the combinations of a lineage (or none, if the plan has
-- none), a provider, a scenario and an attempt, as many as the product of these numbers.
pub create_fan_out :
    (bench_cmd : String → String) (spec : PlanSpec) (now : ℕ) (db : Db)
    → is_empty spec.providers ≡ false
    → is_empty spec.scenarios ≡ false
    → (db' : Db) × (rows : List Task) × (create bench_cmd spec now db
        ≡ some ((db.next_plan, ids rows), db'))
      × (db'.tasks ≡ db.tasks ++ rows)
      × IsPaired db.next_plan rows
      × (length rows
          ≡ 2
            * (length (lineages_or_blank spec.lineages)
                * (length spec.providers * (length spec.scenarios * max 1 spec.attempts_min))))
      × (rounds : List Cell) × AreFor rounds rows
      × ((c : Cell) → Memᴰ c rounds ↔ IsRound spec c)
unfolding create insert_plan
create_fan_out bench_cmd spec now db some_provider some_scenario =
    let first : Db = (insert_plan spec now db).1 in
    let rows = rows_of bench_cmd spec db.next_plan now db.next_task (cells spec) in
    let (added, made) = enqueue_all_lem bench_cmd spec db.next_plan now (cells spec) first in
    (
      (enqueue_all bench_cmd spec db.next_plan now (cells spec) first).1,
      rows,
      rw some_provider (
          rw some_scenario (
            ap some (λ i. (
              (db.next_plan, made i),
              (enqueue_all bench_cmd spec db.next_plan now (cells spec) first).1,
            )))),
      added,
      rows_of-IsPaired bench_cmd spec db.next_plan now db.next_task (cells spec),
      length-rows_of bench_cmd spec db.next_plan now db.next_task (cells spec)
          ∙ ap (λ n. 2 * n) (length-cells spec),
      cells spec,
      rows_of-AreFor bench_cmd spec db.next_plan now db.next_task (cells spec),
      cells-Mem spec,
    )
