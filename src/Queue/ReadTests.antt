-- ===== src/Queue/ReadTests.antt =====
-- The counts and the estimate of a plan with two agent tasks.
use diff_graph.Base.{
  Bool, List, String, [], count_if, is_number, ltb, map, none, not, refl, some, true, ℕ, ◌&&◌, ◌+◌,
  ◌-◌, ◌==◌, ◌∷◌, ◌≡◌,
}
use diff_graph.Dict.{get?}
use diff_graph.Queue.Enqueue.{enqueue}
use diff_graph.Queue.Eta.{History, Milliseconds, eta, is_agent_of, is_remaining}
use diff_graph.Queue.Eta.Totals.{IsSound, eta_lem}
use diff_graph.Queue.Lease.{lease}
use diff_graph.Queue.Listing.{
  kind_text, list_tasks, or_no_counters, or_zero, page, progress, state_text,
}
use diff_graph.Queue.Listing.Counts.{has_kind, has_state, progress_lem}
use diff_graph.Queue.Rows.{Db, Task, TaskSpec, agent, empty_db, leased, queued}

abbrev task : TaskSpec
task = record {
  queue = "qwen";
  attempt_n = 1;
  plan_id = some 1;
  priority = 5;
  payload = record { plan_name = none; bench_cmd = none; resources = []; rest = "{}" };
  resources = "scenario://s1" ∷ [];
  not_before = none;
  kind = agent;
  parent_task_id = none;
  initial_state = queued;
}

abbrev two_tasks : Db
two_tasks = (lease "qwen" "w1" 60 1000 (enqueue task 0 (enqueue task 0 empty_db).1).1).1

-- Whole milliseconds, and seconds rounded down.
abbrev milliseconds : Milliseconds
milliseconds = record {
  Ms = ℕ;
  ms = λ n. n;
  lt = ltb;
  plus = λ a b. a + b;
  sub = λ a b. a - b;
  is_truthy = λ a. not (a == 0);
  between = λ later earlier. later - earlier;
  whole_seconds = λ a. a;
  shared_seconds = λ a n. a;
}

abbrev history : History milliseconds
history = record { by_scenario = ("s1", 90_000) ∷ []; global_avg = none; runs = 3 }

progress_lem_example :
    let p = progress 1 two_tasks in
    let slot = or_no_counters (get? (kind_text agent) p.by_kind) in
    (p.total ≡ count_if (λ (t : Task). is_number t.plan_id 1) two_tasks.tasks)
    × (or_zero (get? (state_text leased) p.counts)
        ≡ count_if (λ (t : Task). is_number t.plan_id 1 && has_state leased t) two_tasks.tasks)
    × (or_zero (get? "total" slot)
        ≡ count_if (λ (t : Task). is_number t.plan_id 1 && has_kind agent t) two_tasks.tasks)
    × (or_zero (get? (state_text leased) slot)
        ≡ count_if
            (λ (t : Task). is_number t.plan_id 1 && (has_kind agent t && has_state leased t))
            two_tasks.tasks)
progress_lem_example = progress_lem 1 two_tasks agent leased

eta_lem_example :
    IsSound
      (count_if (λ t. is_agent_of 1 t && is_remaining t) two_tasks.tasks)
      (eta milliseconds 1 history (("qwen", 2) ∷ []) 5000 two_tasks)
eta_lem_example = eta_lem milliseconds 1 history (("qwen", 2) ∷ []) 5000 two_tasks

counted_tasks : (progress 1 two_tasks).total ≡ 2
unfolding progress diff_graph.Queue.Listing.sum_values diff_graph.Queue.Listing.collect_groups
    diff_graph.Queue.Listing.group_rows lease diff_graph.Table.first_by enqueue
    diff_graph.Table.update diff_graph.Queue.Listing.add_to_group diff_graph.Dict.set_key get?
counted_tasks = refl

-- The later task has run for 4000 of 90000 milliseconds.
estimated_seconds : (eta milliseconds 1 history [] 5000 two_tasks).eta_seconds ≡ 176_000
unfolding eta lease diff_graph.Table.first_by enqueue diff_graph.Table.update
    diff_graph.Queue.Eta.collect_tasks diff_graph.Queue.Eta.note_task diff_graph.Queue.Eta.longest
    diff_graph.Dict.set_key get? diff_graph.Queue.Eta.remaining_ms diff_graph.Queue.Eta.est_total_ms
    diff_graph.Queue.Eta.find_id diff_graph.Queue.Enqueue.resource_uris diff_graph.Base.decimal
    diff_graph.Queue.Eta.after_prefix
estimated_seconds = refl

newest_task : map (λ (t : Task). t.id) (list_tasks none none (some 1) 1 0 two_tasks) ≡ 2 ∷ []
unfolding list_tasks page lease diff_graph.Table.first_by enqueue diff_graph.Table.update
newest_task = refl
