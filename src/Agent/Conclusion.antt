-- ===== src/Agent/Conclusion.antt =====
-- What follows the loop of `_run_react`, `_force_done`, and the run as a whole.
use diff_graph.Agent.{
  AgentConfig, AgentResult, Bool, BudgetTracker, List, Message, Option, Response, Run, String, Tool,
  ToolCall, World, [], agent_done, agent_forced_done, emit, say, ◌∷◌,
}
use diff_graph.Agent.Loop.{Ending, broken, react_loop, returned}
use diff_graph.Base.{
  Bool, List, Option, String, [], false, if◌then◌else◌, keep_if, none, not, some, ◌+◌, ◌∷◌,
}
use diff_graph.Budget.Context.{Tool, is_tool}
use diff_graph.Budget.State.{exhausted}
use diff_graph.Budget.Tracker.{BudgetTracker, start}
use diff_graph.Floats.{Float}
use diff_graph.Messages.{Message, ToolCall, user_message}

module _ (F : Float) where
  module _ (world : World F) (config : AgentConfig) where
    abbrev first_call_findings : List ToolCall → Option String
    first_call_findings [] = none
    first_call_findings (tc ∷ calls) = world.final_findings tc.arguments

    abbrev forced_output : Option Response → Option String
    forced_output none = none
    forced_output (some response) = first_call_findings response.tool_calls

    abbrev pub ask_done : List Tool → Run F → Option String × Run F
    ask_done [] run = (none, run)
    ask_done (t ∷ done_tools) run = (
      forced_output (world.final_llm run.messages (t ∷ done_tools)),
      record run { calls = run.calls + 1 },
    )

    -- `_force_done`.
    unfoldable pub force_done : List Tool → Run F → Option String × Run F
    force_done tools run =
        ask_done (keep_if (is_tool "done") tools) (say F (user_message world.step_limit_text) run)

    abbrev pub result : Option String → Run F → AgentResult F
    result output run = record {
      output = output;
      total_tokens = run.state.tokens_used;
      total_steps = run.state.steps_used;
      run = run;
    }

    abbrev pub forced_reason : Bool → String
    forced_reason spent = if not spent then "step limit" else "token limit"

    abbrev pub conclude_run : List Tool → Ending F → AgentResult F
    conclude_run tools (returned output run) = result (some output) run
    conclude_run tools (broken run) =
        let reason = forced_reason (exhausted F (world.now config.max_steps) run.state) in
        let (output, after) = force_done tools (emit F (agent_forced_done reason) run) in
        if run.natural_stop then result none (emit F (agent_done none) run) else result output after

    -- The run before its first step; building the messages and the tools' schema is left out.
    abbrev pub new_run : BudgetTracker F → F.Real → List Message → Run F
    new_run tracker now messages = record {
      tracker = tracker;
      state = start F now tracker;
      messages = messages;
      natural_stop = false;
      guard_retries = [];
      called_tools = [];
      done_called = false;
      done_output = none;
      steps = [];
      events = [];
      hits = [];
      calls = 0;
    }

    unfoldable pub run_react : List Tool → BudgetTracker F → F.Real → List Message → AgentResult F
    run_react tools tracker now messages =
        conclude_run tools
          (react_loop F world config tools config.max_steps 0 (new_run tracker now messages))
