-- ===== src/Agent/Calls.antt =====
-- The tool calls of one response: each is handled and answered, and `done` and `answer` end the run.
use Prim.Native.Char.{Char, code}
use diff_graph.Agent.{BudgetState, List, Run, ToolCall, World, agent_tool_response, emit, say, ◌∷◌}
use diff_graph.Base.{
  Bool, List, Option, String, [], if◌then◌else◌, ltb, not, some, str_eq, true, ℕ, ◌&&◌, ◌++◌, ◌+◌,
  ◌==◌, ◌||◌, ◌∷◌,
}
use diff_graph.Budget.Reflect.{Outcome}
use diff_graph.Budget.State.{BudgetState}
use diff_graph.Floats.{Float}
use diff_graph.Messages.{ToolCall, tool_message}
use text.Mathlib.Text.{starts_with}

-- `_CTRL_CHARS_RE`: the control characters but tab, line feed and carriage return.
abbrev is_control : ℕ → Bool
is_control c = ltb c 32 && not (c == 9 || c == 10 || c == 13)

abbrev keep_char : Bool → Char → String → String
keep_char control c text = if control then text else String.◌∷◌ c text

abbrev pub sanitize_tool_content : String → String
sanitize_tool_content String.[] = String.[]
sanitize_tool_content (String.◌∷◌ c text) =
    keep_char (is_control (code c)) c (sanitize_tool_content text)

-- The locals of the loop over a response's tool calls.
module _ (F : Float) where
  pub record Acting : Type 0 where
    pub run : Run F
    pub step_outcomes : List Outcome
    pub names : List String
    pub findings_from_done : Option String

  abbrev pub close : Option String → Acting → Acting
  close output acting = record acting {
    run = record acting.run { done_output = output; done_called = true };
    findings_from_done = output;
  }

  -- What a result of `done` or `answer` does to the run; a validation error does nothing.
  abbrev pub conclude_call : World F → ToolCall → Bool → Acting → Acting
  conclude_call world tc invalid acting =
      if str_eq tc.name "done"
      then if invalid then acting else close (world.findings tc.arguments) acting
      else if str_eq tc.name "answer"
      then if invalid then acting else close (some (world.answer tc.arguments)) acting
      else acting

  -- The answer to a call, with the texts of the source: what the handler says and the state it leaves.
  abbrev pub hear : ℕ → ℕ → ToolCall → String → BudgetState F → Acting → Acting
  hear step seq tc content state acting =
      let clean_content = sanitize_tool_content content in
      record acting {
        run = say F (tool_message tc.id clean_content) (
            emit F (agent_tool_response step seq tc clean_content)
              (record acting.run { state = state }));
        step_outcomes =
            acting.step_outcomes ++ (tc.name, starts_with content "validation error") ∷ [];
        names = acting.names ++ tc.name ∷ [];
      }

  abbrev pub handle_call : World F → ℕ → ℕ → ToolCall → Acting → Acting
  handle_call world step seq tc acting =
      let (content, state) = world.handle step seq tc acting.run.state in
      conclude_call world tc (starts_with content "validation error")
        (hear step seq tc content state acting)

  unfoldable pub handle_calls : World F → ℕ → ℕ → List ToolCall → Acting → Acting
  handle_calls world step seq [] acting = acting
  handle_calls world step seq (tc ∷ calls) acting =
      handle_calls world step (seq + 1) calls (handle_call world step seq tc acting)
