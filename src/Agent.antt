-- ===== src/Agent.antt =====
-- The agent loop (orchestra/agent.py): what a run reads and keeps. The loop is in the children.
--
-- `World` is what stands outside the loop: the model's answers, which may depend on the step; the tools'
-- handlers, which may debit the budget for a child; the texts and the clock. `Run` is the state that
-- `_run_react` threads through its steps, its local variables and the agent's attributes.
pub mod Guards
pub mod Calls
pub mod Loop
pub mod Conclusion
pub mod Retries
pub mod Answers
pub mod Bounds
pub mod Finishing
pub mod Tests
use diff_graph.Base.{Bool, List, Option, String, [], ℕ, ◌++◌, ◌∷◌}
use diff_graph.Budget.Context.{Custom, Event, Tool}
use diff_graph.Budget.State.{BudgetState}
use diff_graph.Budget.Tracker.{BudgetTracker}
use diff_graph.Condense.{CondensationConfig, Summarise}
use diff_graph.Floats.{Float}
use diff_graph.Messages.{Message, ToolCall}
use diff_graph.Sgr.{SgrEntry}

-- `response.usage`.
pub record Usage : Type 0 where
  pub total_tokens : ℕ
  pub prompt_tokens : ℕ
  pub completion_tokens : ℕ
  pub cached_tokens : ℕ

-- The message of a response; absent content and tool calls are empty.
pub record Response : Type 0 where
  pub content : String
  pub tool_calls : List ToolCall
  pub usage : Option Usage

-- The fields of `AgentConfig` and of the agent that the loop reads. The guards stay
-- in their order.
pub record AgentConfig : Type 0 where
  pub name : String
  pub agent_id : String
  pub event_bus : Option ℕ
  pub max_steps : ℕ
  pub guards : List (String × String)
  pub condensation : Option CondensationConfig

pub record StepRecord : Type 0 where
  pub step : ℕ
  pub tool_calls : List String
  pub tokens_in : ℕ
  pub tokens_out : ℕ
  pub tokens_cached : ℕ

-- What the loop emits on the event bus, without the attributes that repeat the budget's fields.
pub data AgentEvent : Type 0 where
  agent_forced_done : String → AgentEvent
  agent_llm_request : ℕ → List Message → List Tool → AgentEvent
  agent_llm_error : ℕ → AgentEvent
  agent_llm_response : ℕ → List ToolCall → String → AgentEvent
  agent_step : ℕ → List String → AgentEvent
  agent_tool_response : ℕ → ℕ → ToolCall → String → AgentEvent
  condensation_triggered : ℕ → AgentEvent
  agent_done : Option String → AgentEvent

module _ (F : Float) where
  pub record World : Type 0 where
    pub now : ℕ → F.Real
    -- `stream_llm` in a step; `none` is an exception.
    pub llm : ℕ → List Message → List Tool → Option Response
    -- `stream_llm` in `_force_done`.
    pub final_llm : List Message → List Tool → Option Response
    -- `_handle_tool_call` of a step, by the call's place in it.
    pub handle : ℕ → ℕ → ToolCall → BudgetState F → String × BudgetState F
    -- `args.get("findings", args)` of the arguments' JSON text, `none` for null.
    pub findings : String → Option String
    -- The same in `_force_done`, where a text that is not JSON is null too.
    pub final_findings : String → Option String
    -- `[{"text": args.get("text", "")}]`.
    pub answer : String → String
    -- `msg.format(**self.data_scope)`, or the message itself where that fails.
    pub interpolate : String → String
    -- What a parent has injected when a step begins.
    pub injected : ℕ → List String
    pub sgr_entries : ℕ → List SgrEntry
    pub summarise : ℕ → Summarise
    pub step_limit_text : String
    pub msg : String → String → String
    pub fill : String → ℕ → String
    pub resolve : String → Option (Custom F)

  pub record Run : Type 0 where
    pub tracker : BudgetTracker F
    pub state : BudgetState F
    pub messages : List Message
    pub natural_stop : Bool
    pub guard_retries : List (String × ℕ)
    pub called_tools : List String
    pub done_called : Bool
    pub done_output : Option String
    pub steps : List StepRecord
    pub events : List AgentEvent
    -- What the tracing handler emitted.
    pub hits : List (Event F)
    -- The calls of the model so far, for steps, summaries of the history and the last `done`, where a call with what
    -- its client repeats of it is one; the code does not count them.
    pub calls : ℕ

  pub record AgentResult : Type 0 where
    pub output : Option String
    pub total_tokens : ℕ
    pub total_steps : ℕ
    pub run : Run

  abbrev pub emit : AgentEvent → Run → Run
  emit event run = record run { events = run.events ++ event ∷ [] }

  -- `messages.append(message)`.
  abbrev pub say : Message → Run → Run
  say message run = record run { messages = run.messages ++ message ∷ [] }
