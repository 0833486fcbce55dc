-- ===== src/Queue/Eta/Totals.antt =====
-- What the estimate of a plan adds up to.
use diff_graph.Base.{
  All, All_map, Bool-cases, List, String, [], ap, arith, count_if, count_if-keep_if, if◌then◌else◌,
  inl, inr, keep_if, leb, map, max, refl, str_eq, subst, ℕ, ◌&&◌, ◌+◌, ◌==◌, ◌∙◌, ◌∷◌, ◌≡◌, ◌≤◌,
}
use diff_graph.Dict.{get?, set_key}
use diff_graph.Queue.Eta.{
  Eta, History, Milliseconds, QueueEta, Slot, collect_tasks, eta, eta_of, grow, insert_eta,
  is_agent_of, is_remaining, longest, no_tasks, note_task, nothing_left, or_new, queue_eta,
  queue_name, sort_etas, workers_by_queue,
}
use diff_graph.Queue.Rows.{Db, Task}

-- The tasks of all entries.
abbrev pub tasks_of : List QueueEta → ℕ
tasks_of [] = 0
tasks_of (q ∷ qs) = q.remaining_tasks + tasks_of qs

tasks_of-insert_eta :
    (q : QueueEta) (qs : List QueueEta)
    → tasks_of (insert_eta q qs) ≡ q.remaining_tasks + tasks_of qs
unfolding insert_eta
tasks_of-insert_eta q [] = refl
tasks_of-insert_eta q (r ∷ rs) = ground (arith, tasks_of-insert_eta q rs)

tasks_of-sort_etas : (qs : List QueueEta) → tasks_of (sort_etas qs) ≡ tasks_of qs
unfolding sort_etas
tasks_of-sort_etas [] = refl
tasks_of-sort_etas (q ∷ qs) =
    omega (arith, tasks_of-insert_eta q (sort_etas qs), tasks_of-sort_etas qs)

-- The longest wait comes first.
abbrev pub IsDescending : List QueueEta → Type 0
IsDescending [] = Unit
IsDescending (q ∷ qs) = All (λ r. r.eta_seconds ≤ q.eta_seconds) qs × IsDescending qs

-- The estimate for the agent tasks of a plan.
abbrev pub IsSound : (remaining : ℕ) → Eta → Type 0
IsSound remaining e =
    (e.remaining_tasks ≡ remaining)
    × (tasks_of e.per_queue ≡ remaining)
    × IsDescending e.per_queue
    × All (λ q. q.eta_seconds ≤ e.eta_seconds) e.per_queue

module _ (P : QueueEta → Type 0) where
  All-insert_eta : (q : QueueEta) (qs : List QueueEta) → P q → All P qs → All P (insert_eta q qs)
  unfolding insert_eta
  All-insert_eta q [] h hs = (h, tt)
  All-insert_eta q (r ∷ rs) h hs = elim (Bool-cases (leb r.eta_seconds q.eta_seconds)) [
    | inl e ↦ rw e (h, hs)
    | inr e ↦ rw e (hs.0, All-insert_eta q rs h hs.1)
  ]

  All-sort_etas : (qs : List QueueEta) → All P qs → All P (sort_etas qs)
  unfolding sort_etas
  All-sort_etas [] h = tt
  All-sort_etas (q ∷ qs) h = All-insert_eta q (sort_etas qs) h.0 (All-sort_etas qs h.1)

insert_eta-IsDescending :
    (q : QueueEta) (qs : List QueueEta) → IsDescending qs → IsDescending (insert_eta q qs)
unfolding insert_eta
insert_eta-IsDescending q [] d = (tt, tt)
insert_eta-IsDescending q (r ∷ rs) d = elim (Bool-cases (leb r.eta_seconds q.eta_seconds)) [
  | inl e ↦
      let first : r.eta_seconds ≤ q.eta_seconds = ground (arith, e) in
      rw e ((first, All_map rs (λ x le. omega (arith, le, first)) d.0), d)
  | inr e ↦
      let later : q.eta_seconds ≤ r.eta_seconds = ground (arith, e) in
      rw e (
        All-insert_eta (λ x. x.eta_seconds ≤ r.eta_seconds) q rs later d.0,
        insert_eta-IsDescending q rs d.1,
      )
]

sort_etas-IsDescending : (qs : List QueueEta) → IsDescending (sort_etas qs)
unfolding sort_etas
sort_etas-IsDescending [] = tt
sort_etas-IsDescending (q ∷ qs) =
    insert_eta-IsDescending q (sort_etas qs) (sort_etas-IsDescending qs)

longest-le :
    (qs : List QueueEta) (n : ℕ) → (n ≤ longest qs n) × All (λ q. q.eta_seconds ≤ longest qs n) qs
unfolding longest
longest-le [] n = (omega arith, tt)
longest-le (q ∷ qs) n =
    let (le, all) = longest-le qs (max n q.eta_seconds) in
    (omega (arith, le), (omega (arith, le), all))

module _ (M : Milliseconds) where
  abbrev slots_of : List (String × Slot M) → ℕ
  slots_of [] = 0
  slots_of ((queue, slot) ∷ per_q) = slot.remaining_tasks + slots_of per_q

  slots_of-set_key :
      (k : String) (x : M.Ms) (per_q : List (String × Slot M))
      → slots_of (set_key k (grow M x (or_new M (get? k per_q))) per_q) ≡ slots_of per_q + 1
  unfolding set_key get?
  slots_of-set_key k x [] = omega arith
  slots_of-set_key k x ((j, slot) ∷ per_q) = elim (Bool-cases (str_eq j k)) [
    | inl e ↦ rw e (omega arith)
    | inr e ↦
        let rest = slots_of-set_key k x per_q in
        let value : get? k ((j, slot) ∷ per_q) ≡ get? k per_q = rw e refl in
        ap (λ o. slots_of (set_key k (grow M x (or_new M o)) ((j, slot) ∷ per_q))) value
        ∙ rw e (omega (arith, rest))
  ]

  note_task_lem :
      (h : History M) (now : ℕ) (t : Task) (total : ℕ) (per_q : List (String × Slot M))
      → ((note_task M h now t total per_q).0 ≡ total + (if is_remaining t then 1 else 0))
        × (slots_of (note_task M h now t total per_q).1
            ≡ slots_of per_q + (if is_remaining t then 1 else 0))
  unfolding note_task
  note_task_lem h now t total per_q = elim (Bool-cases (is_remaining t)) [
    | inl e ↦ rw e (refl, slots_of-set_key (queue_name t) _ per_q)
    | inr e ↦ rw e (omega arith, omega arith)
  ]

  collect_tasks_lem :
      (h : History M) (now : ℕ) (ts : List Task) (total : ℕ) (per_q : List (String × Slot M))
      → ((collect_tasks M h now ts total per_q).0 ≡ total + count_if is_remaining ts)
        × (slots_of (collect_tasks M h now ts total per_q).1
            ≡ slots_of per_q + count_if is_remaining ts)
  unfolding collect_tasks
  collect_tasks_lem h now [] total per_q = (omega arith, omega arith)
  collect_tasks_lem h now (t ∷ ts) total per_q =
      let (counted, summed) = note_task_lem h now t total per_q in
      let noted = note_task M h now t total per_q in
      let (a, b) = collect_tasks_lem h now ts noted.0 noted.1 in
      (omega (arith, a, counted), omega (arith, b, summed))

  tasks_of-map :
      (by_queue : List (String × ℕ)) (per_q : List (String × Slot M))
      → tasks_of (map (queue_eta M by_queue) per_q) ≡ slots_of per_q
  tasks_of-map by_queue [] = refl
  tasks_of-map by_queue ((queue, slot) ∷ per_q) = omega (arith, tasks_of-map by_queue per_q)

  collect_tasks_none :
      (h : History M) (now : ℕ) (ts : List Task) (total : ℕ) (per_q : List (String × Slot M))
      → count_if is_remaining ts ≡ 0
      → collect_tasks M h now ts total per_q ≡ (total, per_q)
  unfolding collect_tasks note_task
  collect_tasks_none h now [] total per_q none_left = refl
  collect_tasks_none h now (t ∷ ts) total per_q none_left = elim (Bool-cases (is_remaining t)) [
    | inl e ↦ absurd (ground (arith, e, none_left))
    | inr e ↦ rw e (collect_tasks_none h now ts total per_q (ground (arith, e, none_left)))
  ]

  eta_of-IsSound :
      (h : History M) (now : ℕ) (by_queue : List (String × ℕ)) (ts : List Task)
      → IsSound (count_if is_remaining ts) (eta_of M h now by_queue (collect_tasks M h now ts 0 []))
  unfolding sort_etas
  eta_of-IsSound h now by_queue ts =
      let (counted, summed) = collect_tasks_lem h now ts 0 [] in
      let queues = map (queue_eta M by_queue) (collect_tasks M h now ts 0 []).1 in
      (
        omega (arith, counted),
        omega (
          arith,
          tasks_of-sort_etas queues,
          tasks_of-map by_queue (collect_tasks M h now ts 0 []).1,
          summed,
        ),
        sort_etas-IsDescending queues,
        elim (Bool-cases ((collect_tasks M h now ts 0 []).0 == 0)) [
          | inl e ↦ empty (ground (arith, counted, e))
          | inr e ↦ rw e (All-sort_etas _ queues (longest-le queues 0).1)
        ],
      )
    where
      empty :
          count_if is_remaining ts ≡ 0
          → All
              (λ q.
                q.eta_seconds
                ≤ (eta_of M h now by_queue (collect_tasks M h now ts 0 [])).eta_seconds)
              (sort_etas (map (queue_eta M by_queue) (collect_tasks M h now ts 0 []).1))
      empty none_left = rw (collect_tasks_none h now ts 0 [] none_left) tt

  -- The estimate counts the plan's agent tasks that have not ended, in all and over its queues; the queues are listed by
  -- their waits, the longest first, and the plan waits at least as long as each of them.
  pub eta_lem :
      (plan : ℕ) (h : History M) (pools : List (String × ℕ)) (now : ℕ) (db : Db)
      → IsSound
          (count_if (λ t. is_agent_of plan t && is_remaining t) db.tasks)
          (eta M plan h pools now db)
  unfolding eta
  eta_lem plan h pools now db =
      let tasks = keep_if (is_agent_of plan) db.tasks in
      let kept = count_if-keep_if (is_agent_of plan) is_remaining db.tasks in
      subst (λ n. IsSound n (eta M plan h pools now db)) kept (by_tasks tasks)
    where
      by_tasks :
          (ts : List Task)
          → IsSound (count_if is_remaining ts) (
              if no_tasks ts
              then nothing_left M now
              else eta_of M h now (workers_by_queue pools []) (collect_tasks M h now ts 0 []))
      by_tasks [] = (refl, refl, tt, tt)
      by_tasks (t ∷ ts) = eta_of-IsSound h now (workers_by_queue pools []) (t ∷ ts)
