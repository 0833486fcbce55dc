-- ===== src/Queue/Eta.antt =====
-- `PlanStore.eta` of quality_api/queue.py, with `find_id` of quality_api/resources.py. Python's floats are the milliseconds
-- of an interface; what the statements over the table `runs` yield is an argument, and so are the enabled pools.
pub mod Totals
use Prim.Native.Char.{Char, code}
use diff_graph.Base.{
  Bool, List, Option, String, [], false, if◌then◌else◌, is_number, keep_if, leb, ltb, map, max,
  none, not, some, str_eq, true, ℕ, ◌&&◌, ◌+◌, ◌<>◌, ◌==◌, ◌∷◌,
}
use diff_graph.Dict.{get?, set_key}
use diff_graph.Queue.Rows.{Db, Task, is_agent, is_held, is_terminal, seconds}

pub record Milliseconds : Type 1 where
  pub Ms : Type 0
  -- The literal `n.0`.
  pub ms : ℕ → Ms
  pub lt : Ms → Ms → Bool
  pub plus : Ms → Ms → Ms
  pub sub : Ms → Ms → Ms
  -- `x != 0.0`.
  pub is_truthy : Ms → Bool
  -- `(later - earlier).total_seconds() * 1000.0`, for the two instants `later` and `earlier`.
  pub between : ℕ → ℕ → Ms
  -- `int(round(x / 1000.0))`, and `int(round(x / 1000.0 / n))`.
  pub whole_seconds : Ms → ℕ
  pub shared_seconds : Ms → ℕ → ℕ

-- `u[len(prefix):]` where `u.startswith(prefix)`.
unfoldable pub after_prefix : String → String → Option String
after_prefix String.[] u = some u
after_prefix (String.◌∷◌ c prefix) String.[] = none
after_prefix (String.◌∷◌ c prefix) (String.◌∷◌ d u) =
    let rest = after_prefix prefix u in if code c == code d then rest else none

abbrev pub first_some : Option String → Option String → Option String
first_some none later = later
first_some (some id) later = some id

unfoldable pub find_id : String → List String → Option String
find_id kind [] = none
find_id kind (u ∷ uris) = first_some (after_prefix (kind <> "://") u) (find_id kind uris)

abbrev pub or_blank : Option String → String
or_blank none = ""
or_blank (some text) = text

-- `t["queue"] or "?"`.
abbrev pub queue_name : Task → String
queue_name t = if str_eq t.queue "" then "?" else t.queue

-- WHERE plan_id=? AND kind='agent', and the states that the loop does not pass over.
abbrev pub is_agent_of : ℕ → Task → Bool
is_agent_of plan t = is_number t.plan_id plan && is_agent t.kind

abbrev pub is_remaining : Task → Bool
is_remaining t = not (is_terminal t.state)

abbrev pub no_tasks : List Task → Bool
no_tasks [] = true
no_tasks (t ∷ ts) = false

-- `{r["queue"]: max(1, int(r["target_workers"])) for r in pool_rows}`.
unfoldable pub workers_by_queue : List (String × ℕ) → List (String × ℕ) → List (String × ℕ)
workers_by_queue [] d = d
workers_by_queue ((queue, target) ∷ pools) d =
    workers_by_queue pools (set_key queue (max 1 target) d)

abbrev pub or_one_worker : Option ℕ → ℕ
or_one_worker none = 1
or_one_worker (some n) = n

-- An entry of `per_queue`.
pub record QueueEta : Type 0 where
  pub queue : String
  pub remaining_tasks : ℕ
  pub remaining_seconds : ℕ
  pub workers : ℕ
  pub eta_seconds : ℕ

-- The instant `eta_at` is printed by the second.
pub record Eta : Type 0 where
  pub remaining_tasks : ℕ
  pub eta_seconds : ℕ
  pub eta_at : ℕ
  pub per_queue : List QueueEta
  pub history_runs : ℕ

unfoldable pub insert_eta : QueueEta → List QueueEta → List QueueEta
insert_eta q [] = q ∷ []
insert_eta q (r ∷ rs) =
    let rest = insert_eta q rs in if leb r.eta_seconds q.eta_seconds then q ∷ r ∷ rs else r ∷ rest

-- `sorted(…, key=lambda x: -x["eta_seconds"])`.
unfoldable pub sort_etas : List QueueEta → List QueueEta
sort_etas [] = []
sort_etas (q ∷ qs) = insert_eta q (sort_etas qs)

-- The loop's `plan_eta_s`.
unfoldable pub longest : List QueueEta → ℕ → ℕ
longest [] eta_s = eta_s
longest (q ∷ qs) eta_s = longest qs (max eta_s q.eta_seconds)

module _ (M : Milliseconds) where
  open M use {Ms, ms, lt, plus, sub, is_truthy, between, whole_seconds, shared_seconds}

  -- The averages of the completed agent runs, for each scenario and over all, and the number of the runs.
  pub record History : Type 0 where
    pub by_scenario : List (String × Ms)
    pub global_avg : Option Ms
    pub runs : ℕ

  abbrev pub truthy_or : Option Ms → Ms → Ms
  truthy_or none later = later
  truthy_or (some x) later = if is_truthy x then x else later

  unfoldable pub est_total_ms : History → String → Ms
  est_total_ms h scenario =
      truthy_or (get? scenario h.by_scenario) (truthy_or h.global_avg (ms 60_000))

  abbrev pub greater : Ms → Ms → Ms
  greater a b = if lt a b then b else a

  abbrev pub left_of : ℕ → Ms → Option ℕ → Ms
  left_of now est none = est
  left_of now est (some started) =
      greater (ms 1000) (sub est (greater (ms 0) (between now started)))

  unfoldable pub remaining_ms : History → ℕ → Task → Ms
  remaining_ms h now t =
      let est = est_total_ms h (or_blank (find_id "scenario" t.resources)) in
      if is_held t.state then left_of now est t.started_at else est

  -- The accumulator of a queue.
  pub record Slot : Type 0 where
    pub remaining_tasks : ℕ
    pub remaining_ms : Ms

  abbrev pub or_new : Option Slot → Slot
  or_new none = record { remaining_tasks = 0; remaining_ms = ms 0 }
  or_new (some slot) = slot

  abbrev pub grow : Ms → Slot → Slot
  grow x slot = record {
    remaining_tasks = slot.remaining_tasks + 1;
    remaining_ms = plus slot.remaining_ms x;
  }

  -- The body of the loop over the tasks, with `remaining_total` and `per_q`.
  unfoldable pub note_task :
      History → ℕ → Task → ℕ → List (String × Slot) → ℕ × List (String × Slot)
  note_task h now t total per_q =
      let slot = grow (remaining_ms h now t) (or_new (get? (queue_name t) per_q)) in
      let noted : ℕ × List (String × Slot) = (total + 1, set_key (queue_name t) slot per_q) in
      if is_remaining t then noted else (total, per_q)

  unfoldable pub collect_tasks :
      History → ℕ → List Task → ℕ → List (String × Slot) → ℕ × List (String × Slot)
  collect_tasks h now [] total per_q = (total, per_q)
  collect_tasks h now (t ∷ ts) total per_q =
      let (total', per_q') = note_task h now t total per_q in collect_tasks h now ts total' per_q'

  abbrev pub queue_eta : List (String × ℕ) → String × Slot → QueueEta
  queue_eta by_queue (queue, slot) = record {
    queue = queue;
    remaining_tasks = slot.remaining_tasks;
    remaining_seconds = whole_seconds slot.remaining_ms;
    workers = or_one_worker (get? queue by_queue);
    eta_seconds = shared_seconds slot.remaining_ms (max 1 (or_one_worker (get? queue by_queue)));
  }

  abbrev pub eta_of : History → ℕ → List (String × ℕ) → ℕ × List (String × Slot) → Eta
  eta_of h now by_queue (total, per_q) =
      let queues = map (queue_eta by_queue) per_q in
      let eta_s = longest queues 0 in
      record {
        remaining_tasks = total;
        eta_seconds = if total == 0 then 0 else eta_s;
        eta_at = if total == 0 then now else now + seconds eta_s;
        per_queue = sort_etas queues;
        history_runs = h.runs;
      }

  abbrev pub nothing_left : ℕ → Eta
  nothing_left now = record {
    remaining_tasks = 0;
    eta_seconds = 0;
    eta_at = now;
    per_queue = [];
    history_runs = 0;
  }

  unfoldable pub eta : ℕ → History → List (String × ℕ) → ℕ → Db → Eta
  eta plan h pools now db =
      let tasks = keep_if (is_agent_of plan) db.tasks in
      if no_tasks tasks
      then nothing_left now
      else eta_of h now (workers_by_queue pools []) (collect_tasks h now tasks 0 [])
