-- ===== src/Budget/Handlers.antt =====
-- The consumers: `ApplyActionsHandler` with `_narrow_to`, and `TracingHandler`.
use diff_graph.Base.{
  List, Option, String, [], if◌then◌else◌, keep_if, map, none, some, str_eq, ℕ, ◌++◌, ◌∷◌,
}
use diff_graph.Budget.Context.{Custom, Event, PusherAction, StepContext, Tool, is_tool}
use diff_graph.Budget.State.{PusherType, custom, force_done, force_reflect, nudge}
use diff_graph.Floats.{Float}
use diff_graph.Messages.{user_message}

-- `action.type.value`.
abbrev pub type_value : PusherType → String
type_value nudge = "nudge"
type_value force_reflect = "force_reflect"
type_value force_done = "force_done"
type_value custom = "custom"

module _ (F : Float) where
  abbrev pub narrowed : List Tool → StepContext F → StepContext F
  narrowed [] ctx = ctx
  narrowed (t ∷ ts) ctx = record ctx { current_tools = t ∷ ts }

  unfoldable pub narrow_to : StepContext F → String → StepContext F
  narrow_to ctx tool_name = narrowed (keep_if (is_tool tool_name) ctx.all_tools) ctx

  -- A custom handler's exception is only logged.
  abbrev pub run_custom : Option (Custom F) → StepContext F → StepContext F
  run_custom none ctx = ctx
  run_custom (some handler) ctx =
      let left = handler ctx.messages ctx.state in record ctx { messages = left.0; state = left.1 }

  abbrev pub apply_type : PusherType → PusherAction F → StepContext F → StepContext F
  apply_type nudge action ctx =
      if str_eq action.message ""
      then ctx
      else record ctx { messages = ctx.messages ++ user_message action.message ∷ [] }
  apply_type force_reflect action ctx = ctx
  apply_type force_done action ctx = narrow_to ctx "done"
  apply_type custom action ctx = run_custom action.custom_handler ctx

  unfoldable pub apply_action : PusherAction F → StepContext F → StepContext F
  unfolding narrow_to
  apply_action action ctx = apply_type action.type action ctx

  unfoldable pub apply_each : List (PusherAction F) → StepContext F → StepContext F
  apply_each [] ctx = ctx
  apply_each (action ∷ actions) ctx = apply_each actions (apply_action action ctx)

  -- `ApplyActionsHandler.apply`.
  unfoldable pub apply_actions : StepContext F → StepContext F
  apply_actions ctx = apply_each ctx.actions ctx

  abbrev pub threshold_hit : ℕ → String → String → PusherAction F → Event F
  threshold_hit bus agent_id agent_name action = record {
    bus = bus;
    agent_id = agent_id;
    agent_name = agent_name;
    at = action.threshold;
    ratio = action.ratio;
    action_type = type_value action.type;
    kind = action.kind;
  }

  abbrev pub trace_on : Option ℕ → StepContext F → StepContext F
  trace_on none ctx = ctx
  trace_on (some bus) ctx = record ctx {
    events = ctx.events ++ map (threshold_hit bus ctx.agent_id ctx.agent_name) ctx.actions;
  }

  -- `TracingHandler.apply`.
  unfoldable pub trace : StepContext F → StepContext F
  trace ctx = trace_on ctx.event_bus ctx
