-- ===== src/Agent/Tests.antt =====
-- The theorems on the agent loop in a small world: a model that reads a file and then calls `done`.
use diff_graph.Agent.{AgentConfig, Custom, Option, Response, Run, World, [], say, ℕ}
use diff_graph.Agent.Answers.{Answered, act-Answered}
use diff_graph.Agent.Bounds.{run_react_bounds}
use diff_graph.Agent.Calls.{handle_calls}
use diff_graph.Agent.Conclusion.{new_run, run_react}
use diff_graph.Agent.Finishing.{react_loop_guards}
use diff_graph.Agent.Guards.{max_guard_retries, passes}
use diff_graph.Agent.Loop.{Ending, act, assistant_message, broken, react_loop, react_step, returned}
use diff_graph.Base.{
  All, Option, String, [], if◌then◌else◌, length, none, refl, some, true, ℕ, ◌==◌, ◌∷◌, ◌≡◌, ◌≤◌,
}
use diff_graph.Budget.Context.{Custom}
use diff_graph.Budget.Handlers.{apply_actions, apply_each, trace}
use diff_graph.Budget.Reflect.{count_step, is_reflection, is_work}
use diff_graph.Budget.State.{
  BudgetConfig, compute_step_paid, context_ratio, exhausted, max_ratio, step_ratio, token_ratio,
  wall_ratio,
}
use diff_graph.Budget.Tracker.{
  BudgetTracker, apply_handler, apply_handlers, counter_handler, notify_step_done, on_step_done,
  run_chain, run_handler, start, trace_handler, update_tokens,
}
use diff_graph.Floats.{Float}
use diff_graph.Floats.Millionths.{millionths}
use diff_graph.Messages.{ToolCall, user_message}

abbrev pub F : Float
F = millionths

abbrev read_call : ToolCall
read_call = record { id = "c1"; name = "read_file"; arguments = "{}" }

abbrev done_call : ToolCall
done_call = record { id = "c2"; name = "done"; arguments = "[]" }

abbrev reads : Response
reads = record {
  content = "";
  tool_calls = read_call ∷ [];
  usage =
      some
        (record { total_tokens = 10; prompt_tokens = 8; completion_tokens = 2; cached_tokens = 0 });
}

abbrev ends : Response
ends = record reads { tool_calls = done_call ∷ [] }

abbrev own_msg : String → String → String
own_msg key text = text

abbrev own_fill : String → ℕ → String
own_fill text n = text

abbrev own_resolve : String → Option (Custom F)
own_resolve name = none

abbrev pub world : World F
world = record {
  now = λ step. 0;
  llm = λ step messages tools. some (if step == 0 then reads else ends);
  final_llm = λ messages tools. none;
  handle = λ step seq tc state. ("content", state);
  findings = λ text. some text;
  final_findings = λ text. none;
  answer = λ text. text;
  interpolate = λ text. text;
  injected = λ step. [];
  sgr_entries = λ step. [];
  summarise = λ step prompt text. none;
  step_limit_text = "Call done now.";
  msg = own_msg;
  fill = own_fill;
  resolve = own_resolve;
}

abbrev config : AgentConfig
config = record {
  name = "reviewer";
  agent_id = "a1";
  event_bus = none;
  max_steps = 5;
  guards = ("require_tool:read_file", "Read a file first.") ∷ [];
  condensation = none;
}

abbrev budget : BudgetConfig F
budget = record {
  max_tokens = 1000;
  max_steps = 5;
  max_wall_time = none;
  max_context = none;
  max_children_budget = 500_000;
  max_feedback_budget_delta = 10;
  cache_discount = 100_000;
  pushers = [];
}

abbrev tracker : BudgetTracker F
tracker = record {
  config = budget;
  event_bus = none;
  producers = counter_handler 0 ∷ [];
  consumers = apply_handler ∷ trace_handler ∷ [];
}

abbrev pub first_run : Run F
first_run = new_run F world config tracker 0 (user_message "Review this." ∷ [])

abbrev last_run : Ending F → Run F
last_run (broken run) = first_run
last_run (returned output run) = run

-- The loop reads the file, then returns.
abbrev ending : Ending F
ending = react_loop F world config [] 2 0 first_run

ending_returned : ending ≡ returned "[]" (last_run ending)
unfolding react_loop react_step exhausted max_ratio token_ratio step_ratio wall_ratio context_ratio
    start apply_handlers run_chain run_handler apply_actions apply_each trace update_tokens
    compute_step_paid handle_calls notify_step_done on_step_done count_step is_work is_reflection
ending_returned = refl

run_react_bounds_example :
    ((run_react F world config [] tracker 0 []).run.calls ≤ 11)
    × (length (run_react F world config [] tracker 0 []).run.steps ≤ 5)
    × All
        (λ entry. entry.1 ≤ max_guard_retries)
        (run_react F world config [] tracker 0 []).run.guard_retries
run_react_bounds_example = run_react_bounds F world config [] tracker 0 []

react_loop_guards_example :
    ((last_run ending).done_output ≡ some "[]")
    × ((last_run ending).done_called ≡ true)
    × All
        (λ guard.
          passes guard.0 (last_run ending).called_tools (last_run ending).guard_retries ≡ true)
        config.guards
react_loop_guards_example =
    react_loop_guards F world config [] 2 0 first_run (last_run ending) "[]" (refl, tt)
      ending_returned

act-Answered_example :
    Answered F world
      (read_call ∷ [])
      (record {
        run = say F (assistant_message F world config (read_call ∷ [])) first_run;
        step_outcomes = [];
        names = [];
        findings_from_done = none;
      })
      (act F world config 0 reads first_run)
act-Answered_example = act-Answered F world config 0 reads first_run
