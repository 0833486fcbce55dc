-- ===== src/Agent/Loop.antt =====
-- `_run_react`: one step, the loop over the steps, and what follows it.
use diff_graph.Agent.{
  AgentConfig, Bool, BudgetState, CondensationConfig, List, Message, Option, Response, Run, String,
  Tool, ToolCall, Usage, World, [], agent_done, agent_forced_done, agent_llm_error,
  agent_llm_request, agent_llm_response, agent_step, condensation_triggered, emit, say, ℕ, ◌∷◌,
}
use diff_graph.Agent.Calls.{Acting, handle_calls}
use diff_graph.Agent.Guards.{check_guard, check_require_tool_guards}
use diff_graph.Base.{
  Bool, List, Option, String, [], false, if◌then◌else◌, length, map, none, not, some, str_eq, suc,
  true, zero, ℕ, ◌++◌, ◌+◌, ◌||◌, ◌∷◌,
}
use diff_graph.Budget.Context.{StepContext, Tool}
use diff_graph.Budget.State.{BudgetState, exhausted}
use diff_graph.Budget.Tracker.{apply_handlers, notify_step_done, update_tokens}
use diff_graph.Condense.{CondensationConfig, condense, requests, should_condense}
use diff_graph.Floats.{Float, zero_float}
use diff_graph.Messages.{Message, ToolCall, user_message}

module _ (F : Float) where
  -- How a step leaves the loop's body: `continue` or its end, `break`, or `return`.
  pub data Turn : Type 0 where
    continues : Run F → Turn
    breaks : Run F → Turn
    returns : String → Run F → Turn

  -- How the loop is left.
  pub data Ending : Type 0 where
    broken : Run F → Ending
    returned : String → Run F → Ending

  module _ (world : World F) (config : AgentConfig) where
    -- `_drain_injected`.
    abbrev pub drain_injected : ℕ → Run F → Run F
    drain_injected step run = record run {
      messages = run.messages ++ map user_message (world.injected step);
    }

    abbrev pub step_context : List Tool → Run F → StepContext F
    step_context tools run = record {
      state = run.state;
      steps_since_reflect = 0;
      seconds_since_reflect = zero_float F;
      messages = run.messages;
      all_tools = tools;
      current_tools = tools;
      actions = [];
      step_outcomes = [];
      event_bus = config.event_bus;
      agent_id = config.agent_id;
      agent_name = config.name;
      events = [];
    }

    abbrev pub used_tokens : Option Usage → BudgetState F → BudgetState F
    used_tokens none state = state
    used_tokens (some u) state =
        update_tokens F state u.total_tokens u.prompt_tokens u.completion_tokens u.cached_tokens

    -- The budget, the trace and the tools called, when a response has come.
    abbrev pub receive : ℕ → Response → Run F → Run F
    receive step response run =
        let names = map (λ tc. tc.name) response.tool_calls in
        emit F (agent_step step names) (
          emit F (agent_llm_response step response.tool_calls response.content) (record run {
            state = record (used_tokens response.usage run.state) { steps_used = step + 1 };
            called_tools = run.called_tools ++ names;
          }))

    -- `if guard_msg:`, which an empty text does not pass.
    abbrev pub told : Option String → Option String
    told none = none
    told (some text) = if str_eq text "" then none else some text

    abbrev pub or_required :
        Option String × List (String × ℕ) → Run F → Option String × List (String × ℕ)
    or_required (none, retries) run =
        check_require_tool_guards world.interpolate config.guards run.called_tools retries
    or_required (some text, retries) run = (some text, retries)

    abbrev pub reprompt : Option String → String → Run F → Turn
    reprompt none content run = breaks (record run { natural_stop = true })
    reprompt (some text) content run = continues (
        say F (user_message text)
          (say F (record (user_message content) { role = "assistant" }) run))

    -- A response without tool calls.
    abbrev pub answer_text : String → Run F → Turn
    answer_text content run =
        let first = check_guard world.interpolate "text_response" config.guards run.guard_retries in
        let (text, retries) = or_required first run in
        reprompt (told text) content (record run { guard_retries = retries })

    -- `_maybe_condense`.
    abbrev pub condensed : Option CondensationConfig → ℕ → Run F → Run F
    condensed none step run = run
    condensed (some cfg) step run =
        if not cfg.enabled || not (should_condense run.messages cfg.trigger)
        then run
        else emit F (condensation_triggered (length run.messages)) (record run {
          messages = condense cfg (world.sgr_entries step) (world.summarise step) run.messages;
          calls = run.calls + requests cfg run.messages;
        })

    abbrev pub maybe_condense : ℕ → Run F → Run F
    maybe_condense step run = condensed config.condensation step run

    abbrev pub assistant_message : List ToolCall → Message
    assistant_message calls = record {
      role = "assistant";
      content = "";
      tool_calls = calls;
      tool_call_id = "";
    }

    abbrev pub tokens_of : Option Usage → (Usage → ℕ) → ℕ
    tokens_of none f = 0
    tokens_of (some u) f = f u

    -- A run that would end is told of a required tool that it has not called.
    abbrev pub veto : Option String → String → Run F → Turn
    veto none output run = returns output (emit F (agent_done (some output)) run)
    veto (some text) output run =
        continues
          (say F (user_message text) (record run { done_called = false; done_output = none }))

    abbrev pub close_step : ℕ → Option String → Run F → Turn
    close_step step none run = continues (maybe_condense step run)
    close_step step (some output) run =
        let (text, retries) =
          check_require_tool_guards world.interpolate config.guards run.called_tools
            run.guard_retries in
        veto (told text) output (record run { guard_retries = retries })

    -- The tool calls of a response, handled in order after the message that makes them.
    abbrev pub act : ℕ → Response → Run F → Acting F
    act step response run = handle_calls F world step 1 response.tool_calls (record {
      run = say F (assistant_message response.tool_calls) run;
      step_outcomes = [];
      names = [];
      findings_from_done = none;
    })

    abbrev pub note_step : ℕ → Option Usage → StepContext F → Acting F → Run F
    note_step step usage ctx acting = record acting.run {
      tracker =
          notify_step_done F acting.run.tracker
            (record ctx { step_outcomes = acting.step_outcomes });
      steps =
          acting.run.steps
          ++ record {
            step = step;
            tool_calls = acting.names;
            tokens_in = tokens_of usage (λ u. u.prompt_tokens);
            tokens_out = tokens_of usage (λ u. u.completion_tokens);
            tokens_cached = tokens_of usage (λ u. u.cached_tokens);
          }
            ∷ [];
    }

    abbrev pub answer_calls : ℕ → StepContext F → Response → Run F → Turn
    answer_calls step ctx response run =
        let acting = act step response run in
        close_step step acting.findings_from_done (note_step step response.usage ctx acting)

    abbrev pub is_empty_list : List ToolCall → Bool
    is_empty_list [] = true
    is_empty_list (tc ∷ calls) = false

    abbrev pub respond : ℕ → StepContext F → Option Response → Run F → Turn
    respond step ctx none run = breaks (emit F (agent_llm_error step) run)
    respond step ctx (some response) run =
        let received = receive step response run in
        if is_empty_list response.tool_calls
        then answer_text response.content received
        else answer_calls step ctx response received

    -- The step's context after the chain has run, and the run that asks the model with it.
    abbrev pub prepare : List Tool → ℕ → Run F → StepContext F × Run F
    prepare tools step run =
        let drained = drain_injected step run in
        let (tracker, ctx) =
          apply_handlers F world.msg world.fill world.resolve (world.now step) drained.tracker
            (step_context tools drained) in
        (
          ctx,
          emit F (agent_llm_request step ctx.messages ctx.current_tools) (record drained {
            tracker = tracker;
            state = ctx.state;
            messages = ctx.messages;
            hits = drained.hits ++ ctx.events;
            calls = drained.calls + 1;
          }),
        )

    unfoldable pub react_step : List Tool → ℕ → Run F → Turn
    react_step tools step run =
        let (ctx, asking) = prepare tools step run in
        if exhausted F (world.now step) run.state
        then breaks (emit F (agent_forced_done "token limit") run)
        else respond step ctx (world.llm step ctx.messages ctx.current_tools) asking

    abbrev pub go_on : Turn → (Run F → Ending) → Ending
    go_on (continues next) later = later next
    go_on (breaks last) later = broken last
    go_on (returns output last) later = returned output last

    -- `for step in range(max_steps)`, with so many steps left.
    unfoldable pub react_loop : List Tool → ℕ → ℕ → Run F → Ending
    react_loop tools zero step run = broken run
    react_loop tools (suc left) step run =
        go_on (react_step tools step run) (react_loop tools left (step + 1))
