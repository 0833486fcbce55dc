-- ===== src/Children.antt =====
-- The children that an agent runs in the background (orchestra/agent.py): the asynchronous part of `_run_spawn`,
-- `_drain_async_callbacks`, `_any_pusher_pending` and `_meta_agent_await`.
--
-- The run of a child is a thread: it stores the child's result and, if the spawn asked for a callback, puts it into the
-- queue that the parent's next step drains.
pub mod Counted
pub mod Once
pub mod Pending
pub mod Spawning
mod Tests
mod SpawnTests
use diff_graph.Agent.{AgentResult}
use diff_graph.Base.{
  Bool, List, Option, String, [], any, count_if, decimal, false, if◌then◌else◌, is_some, keep_if,
  ltb, map, none, not, some, str_eq, true, ℕ, ◌&&◌, ◌++◌, ◌<>◌, ◌||◌, ◌∷◌,
}
use diff_graph.Budget.Escalation.{RatioEscalationPusher, Rung}
use diff_graph.Budget.State.{BudgetState, read_axis}
use diff_graph.Budget.Tracker.{
  BudgetTracker, Handler, apply_handler, cadence_handler, callback_handler, counter_handler,
  escalation_handler, guard_handler, ratio_handler, trace_handler,
}
use diff_graph.Dict.{get?, has_key, set_key}
use diff_graph.Floats.{Float}
use diff_graph.Text.{strip}

abbrev pub is_in : String → List String → Bool
is_in id ids = any (λ i. str_eq i id) ids

-- `set.add`.
abbrev pub add_id : String → List String → List String
add_id id ids = if is_in id ids then ids else ids ++ id ∷ []

abbrev pub add_ids : List String → List String → List String
add_ids [] ids = ids
add_ids (id ∷ more) ids = add_ids more (add_id id ids)

abbrev pub ids_of {ℓ} : {R : Type ℓ} → List (String × R) → List String
ids_of entries = map (λ e. e.0) entries

module _ (R : Type 0) where
  -- The fields of the agent, with the ids of the children whose results have been given to the parent and of those that
  -- have called back, which the code does not keep.
  pub record Family : Type 0 where
    pub async_spawned : List String
    pub children_results : List (String × R)
    pub async_results_queue : List (String × R)
    pub async_collected : List String
    pub reported : List String
    pub called_back : List String

  abbrev pub no_children : Family
  no_children = record {
    async_spawned = [];
    children_results = [];
    async_results_queue = [];
    async_collected = [];
    reported = [];
    called_back = [];
  }

  abbrev pub spawn_async : String → Family → Family
  spawn_async id s = record s { async_spawned = s.async_spawned ++ id ∷ [] }

  -- The two critical sections of the child's thread.
  abbrev pub store_result : String → R → Family → Family
  store_result id result s = record s { children_results = set_key id result s.children_results }

  abbrev pub push_result : String → R → Family → Family
  push_result id result s = record s {
    async_results_queue = s.async_results_queue ++ (id, result) ∷ [];
    called_back = s.called_back ++ id ∷ [];
  }

  -- `_drain_async_callbacks`: the results of the queue, each for a message.
  unfoldable pub drain_async_callbacks : Family → List (String × R) × Family
  drain_async_callbacks s = (
    s.async_results_queue,
    record s {
      async_results_queue = [];
      async_collected = add_ids (ids_of s.async_results_queue) s.async_collected;
      reported = s.reported ++ ids_of s.async_results_queue;
    },
  )

  -- The runs that `agent_await` waits for.
  abbrev pub await_targets : String → Family → List String
  await_targets run_id s =
      if str_eq run_id ""
      then keep_if (λ id. not (is_in id s.async_collected)) s.async_spawned
      else if is_in run_id s.async_spawned
      then run_id ∷ []
      else []

  abbrev pub is_finished : Family → String → Bool
  is_finished s id = has_key id s.children_results

  -- What follows the wait: the results of the targets that have one, which leave the callback queue.
  unfoldable pub collect : List String → Family → List String × Family
  collect targets s =
      let now = keep_if (is_finished s) targets in
      (
        now,
        record s {
          async_collected = add_ids now s.async_collected;
          async_results_queue = keep_if (λ e. not (is_in e.0 now)) s.async_results_queue;
          reported = s.reported ++ now;
        },
      )

  pub data Status : Type 0 where
    completed partial interrupted : Status

  -- What the loop sees when it looks: the results, whether a pusher is pending and whether there is time left.
  pub record Look : Type 0 where
    pub results : List (String × R)
    pub is_pending : Bool
    pub has_time : Bool

  abbrev pub is_empty_ids : List String → Bool
  is_empty_ids [] = true
  is_empty_ids (id ∷ ids) = false

  -- The loop, over what it sees; it ends at the latest with the time, so behind the last look there is none left. The
  -- result is the flag `interrupted`.
  unfoldable pub wait_for : List String → List Look → Bool
  wait_for targets [] = false
  wait_for targets (look ∷ later) =
      let waited = wait_for targets later in
      if is_empty_ids (keep_if (λ id. not (has_key id look.results)) targets)
      then false
      else if look.is_pending
      then true
      else if look.has_time
      then waited
      else false

  abbrev pub await_status : List String → Bool → Bool → Status
  await_status still was_interrupted is_pending =
      if is_empty_ids still
      then completed
      else if was_interrupted || is_pending
      then interrupted
      else partial

  -- `_meta_agent_await`: the targets of the state before the wait, the state behind it, and whether a pusher is pending
  -- then. The results are given by their ids.
  unfoldable pub meta_agent_await :
      String → Family → List Look → Family → Bool → (Status × List String × List String) × Family
  meta_agent_await run_id before looks after is_pending =
      let targets = await_targets (strip run_id) before in
      if is_empty_ids targets
      then ((completed, [], []), after)
      else let was_interrupted = wait_for targets looks in
        let (results, s) = collect targets after in
        let still = keep_if (λ id. not (is_finished after id)) targets in
        ((await_status still was_interrupted is_pending, results, still), s)

module _ (F : Float) where
  -- A rung that is not latched and whose ratio is reached.
  abbrev pub is_ready : F.Real → Rung F → Bool
  is_ready ratio r = not r.fired && not (F.lt ratio r.at)

  abbrev pub ready_at : List (Rung F) → Option F.Real → Bool
  ready_at levels none = false
  ready_at levels (some ratio) = any (is_ready ratio) levels

  -- `isinstance(pusher, RatioEscalationPusher)`.
  abbrev pub is_pusher_ready : F.Real → BudgetState F → Handler F → Bool
  is_pusher_ready now state (escalation_handler p) =
      ready_at p.levels (read_axis F p.ratio_attr now state)
  is_pusher_ready now state (counter_handler n) = false
  is_pusher_ready now state (guard_handler g) = false
  is_pusher_ready now state (ratio_handler pushers) = false
  is_pusher_ready now state (cadence_handler p) = false
  is_pusher_ready now state (callback_handler pending) = false
  is_pusher_ready now state apply_handler = false
  is_pusher_ready now state trace_handler = false

  abbrev pub is_empty_queue {ℓ} : {R : Type ℓ} → List R → Bool
  is_empty_queue [] = true
  is_empty_queue (r ∷ queue) = false

  -- The agent has a state and a tracker while it runs.
  unfoldable pub any_pusher_pending {ℓ} :
      {R : Type ℓ} → F.Real → List R → BudgetState F → BudgetTracker F → Bool
  any_pusher_pending now queue state tracker =
      not (is_empty_queue queue) || any (is_pusher_ready now state) tracker.producers
