-- ===== src/Budget/Tests.antt =====
-- The theorems on the budget at small runs, with numbers in millionths for the floats.
use diff_graph.Base.{
  Bool, List, Option, String, [], arith, count_if, false, none, some, true, ℕ, ◌∷◌, ◌≡◌,
}
use diff_graph.Budget.Accounting.{Usage}
use diff_graph.Budget.Climbing.{Level, climb_all, climb_all_once, of_action}
use diff_graph.Budget.Context.{Custom, PusherAction, StepContext, Tool}
use diff_graph.Budget.Effects.{apply_actions-tools}
use diff_graph.Budget.Escalation.{
  EscalationArgs, Rung, insert_level, make_escalation, no_args, sort_levels, token_budget_class,
}
use diff_graph.Budget.Exhaustion.{exhausted_lem}
use diff_graph.Budget.Handlers.{apply_actions}
use diff_graph.Budget.Pipeline.{Reach, configures, created, notifies, used}
use diff_graph.Budget.Reflect.{Outcome, ReflectCadencePusher}
use diff_graph.Budget.State.{BudgetConfig, BudgetState, exhausted, force_done, nudge}
use diff_graph.Budget.Tracker.{
  BudgetTracker, configure_reflect_pushers, new_tracker, notify_step_done, reflect_cadence,
}
use diff_graph.Floats.{Float}
use diff_graph.Floats.Millionths.{millionths, millionths_laws}

abbrev F : Float
F = millionths

abbrev own_msg : String → String → String
own_msg key fallback = fallback

abbrev own_fill : String → ℕ → String
own_fill template n = template

abbrev own_resolve : String → Option (Custom F)
own_resolve path = none

abbrev config : BudgetConfig F
config = record {
  max_tokens = 1000;
  max_steps = 10;
  max_wall_time = some 60_000_000;
  max_context = some 500;
  max_children_budget = 300_000;
  max_feedback_budget_delta = 10;
  cache_discount = 100_000;
  pushers = record { at = 400_000; type = nudge; message = "hurry"; handler = none } ∷ [];
}

abbrev tracker : BudgetTracker F
tracker = new_tracker F own_msg own_fill own_resolve config (some 7)

abbrev state : BudgetState F
state = record {
  tokens_used = 300;
  tokens_in = 200;
  tokens_out = 100;
  tokens_cached = 50;
  steps_used = 9;
  wall_start = 0;
  original_tokens = 1000;
  original_steps = 10;
  original_wall_time = some 60_000_000;
  original_max_context = some 500;
  cache_discount = 100_000;
  cumulative_paid = 600;
  prev_step_paid = 255;
  fired_pushers = [];
}

abbrev done_tool : Tool
done_tool = record { name = some "done"; schema = "{}" }

abbrev reflect_tool : Tool
reflect_tool = record { name = some "reflect"; schema = "{}" }

abbrev stop_action : PusherAction F
stop_action = record {
  type = force_done;
  message = "stop";
  custom_handler = none;
  kind = "token-budget";
  threshold = 1_000_000;
  ratio = 1_000_000;
}

abbrev ctx : StepContext F
ctx = record {
  state = state;
  steps_since_reflect = 0;
  seconds_since_reflect = 0;
  messages = [];
  all_tools = reflect_tool ∷ done_tool ∷ [];
  current_tools = reflect_tool ∷ done_tool ∷ [];
  actions = stop_action ∷ [];
  step_outcomes = ("reflect", true) ∷ ("diff_search", false) ∷ [];
  event_bus = none;
  agent_id = "a";
  agent_name = "reviewer";
  events = [];
}

abbrev tracker_Reach :
    Reach F own_msg own_fill own_resolve
      (notify_step_done F (configure_reflect_pushers F own_msg own_fill own_resolve tracker 5) ctx)
tracker_Reach = used (used (created config (some 7)) (configures 5)) (notifies ctx)

exhausted_lem_example : exhausted F 30_000_000 state ≡ false
exhausted_lem_example =
    exhausted_lem F millionths_laws 30_000_000 state (omega arith) (omega arith) (omega arith)

apply_actions-tools_example : (apply_actions F ctx).current_tools ≡ done_tool ∷ []
apply_actions-tools_example = apply_actions-tools F ctx

abbrev any_level : Level F → Bool
any_level level = true

abbrev token_levels : List (Rung F)
token_levels = (make_escalation F (token_budget_class F own_msg) (no_args F)).levels

-- Two of the three levels fire over this run, each once.
climb_all_once_example :
    count_if
      (λ a. any_level (of_action F a))
      (climb_all F "token-budget" (100_000 ∷ 600_000 ∷ 800_000 ∷ 900_000 ∷ []) token_levels).1
    ≡ 2
unfolding make_escalation sort_levels insert_level
climb_all_once_example =
    climb_all_once F any_level "token-budget" (100_000 ∷ 600_000 ∷ 800_000 ∷ 900_000 ∷ [])
      token_levels

abbrev reversed : EscalationArgs F
reversed = record (no_args F) { nudge_at = some 950_000; force_done_at = some 200_000 }

abbrev failures : List Outcome
failures =
    ("reflect", true)
    ∷ ("diff_search", false)
    ∷ ("reflect", true)
    ∷ ("reflect", true)
    ∷ ("reflect", false)
    ∷ []

abbrev cadence : ReflectCadencePusher F
cadence = reflect_cadence F own_msg own_fill own_resolve 5

abbrev usages : List (Usage F)
usages =
    record { total = 150; tokens_in = 100; tokens_out = 50; tokens_cached = 0 }
    ∷ record { total = 300; tokens_in = 200; tokens_out = 100; tokens_cached = 100 }
    ∷ record { total = 60; tokens_in = 50; tokens_out = 10; tokens_cached = 0 }
    ∷ []

abbrev one_usage : Usage F
one_usage = record { total = 150; tokens_in = 100; tokens_out = 50; tokens_cached = 0 }
