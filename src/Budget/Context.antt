-- ===== src/Budget/Context.antt =====
-- `PusherAction` and `StepContext`: what producers hand to consumers, and the one mutable object that
-- a step passes along the chain. An event bus is a reference (a number); what has been emitted on the
-- buses is a list of the step's context, in order.
use diff_graph.Base.{Bool, List, Option, String, is_text, ℕ, ◌++◌}
use diff_graph.Budget.State.{BudgetState, PusherType}
use diff_graph.Floats.{Float}
use diff_graph.Messages.{Message}

-- An entry of a tools schema; `name` is `t.get("function", {}).get("name")`.
pub record Tool : Type 0 where
  pub name : Option String
  pub schema : String

abbrev pub is_tool : String → Tool → Bool
is_tool name t = is_text t.name name

module _ (F : Float) where
  -- What a custom handler leaves in the messages and the state when it returns or raises.
  abbrev pub Custom : Type 0
  Custom = List Message → BudgetState F → List Message × BudgetState F

  pub record PusherAction : Type 0 where
    pub type : PusherType
    pub message : String
    pub custom_handler : Option Custom
    pub kind : String
    pub threshold : F.Real
    pub ratio : F.Real

  -- `BUDGET_THRESHOLD_HIT` with its attributes, on one bus.
  pub record Event : Type 0 where
    pub bus : ℕ
    pub agent_id : String
    pub agent_name : String
    pub at : F.Real
    pub ratio : F.Real
    pub action_type : String
    pub kind : String

  pub record StepContext : Type 0 where
    pub state : BudgetState F
    pub steps_since_reflect : ℕ
    pub seconds_since_reflect : F.Real
    pub messages : List Message
    pub all_tools : List Tool
    pub current_tools : List Tool
    pub actions : List PusherAction
    pub step_outcomes : List (String × Bool)
    pub event_bus : Option ℕ
    pub agent_id : String
    pub agent_name : String
    pub events : List Event

  -- `ctx.actions.append(action)`, for each of the actions.
  abbrev pub push : StepContext → List PusherAction → StepContext
  push ctx new = record ctx { actions = ctx.actions ++ new }
