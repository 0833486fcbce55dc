-- ===== src/Agent/Answers.antt =====
-- The messages that answer a response's tool calls.
use diff_graph.Agent.{
  AgentConfig, Bool, BudgetTracker, List, Message, Response, Run, StepRecord, String, ToolCall,
  World, say, ℕ,
}
use diff_graph.Agent.Calls.{
  Acting, conclude_call, handle_call, handle_calls, hear, sanitize_tool_content,
}
use diff_graph.Agent.Loop.{act, assistant_message}
use diff_graph.Base.{
  All, Bool, List, String, [], ap, arith, map, none, refl, ℕ, ◌++◌, ◌+◌, ◌∙◌, ◌∷◌, ◌≡◌,
}
use diff_graph.Budget.Reflect.{Outcome}
use diff_graph.Budget.Tracker.{BudgetTracker}
use diff_graph.Floats.{Float}
use diff_graph.Messages.{Message, ToolCall, tool_message}
use mathlib.Core.List.{append-nil, append_assoc, map-append}
use text.Mathlib.Text.{starts_with}

module _ (F : Float) where
  -- What a tool call leaves alone.
  abbrev pub settled :
      Run F → BudgetTracker F × ℕ × List StepRecord × List (String × ℕ) × List String × Bool
  settled run =
      (run.tracker, run.calls, run.steps, run.guard_retries, run.called_tools, run.natural_stop)

  -- What handling a call adds.
  abbrev traced : Acting F → List Message × List Outcome × List String
  traced acting = (acting.run.messages, acting.step_outcomes, acting.names)

  module _ (world : World F) where
    conclude_call-traced :
        (tc : ToolCall) (invalid : Bool) (acting : Acting F)
        → (traced (conclude_call F world tc invalid acting) ≡ traced acting)
          × (settled (conclude_call F world tc invalid acting).run ≡ settled acting.run)
    conclude_call-traced tc invalid acting = ground arith

    pub handle_calls-settled :
        (step seq : ℕ) (calls : List ToolCall) (acting : Acting F)
        → settled (handle_calls F world step seq calls acting).run ≡ settled acting.run
    unfolding handle_calls
    handle_calls-settled step seq [] acting = refl
    handle_calls-settled step seq (tc ∷ calls) acting =
        handle_calls-settled step (seq + 1) calls (handle_call F world step seq tc acting)
        ∙ (let (content, state) = world.handle step seq tc acting.run.state in
            (conclude_call-traced tc _ (hear F step seq tc content state acting)).1)

    -- The messages that the handling of calls adds, of role `tool`, one for each call and in their order.
    pub record Answered (calls : List ToolCall) (before after : Acting F) : Type 0 where
      pub answers : List Message
      pub said : after.run.messages ≡ before.run.messages ++ answers
      pub ids : map (λ m. m.tool_call_id) answers ≡ map (λ tc. tc.id) calls
      pub tools : All (λ m. m.role ≡ "tool") answers
      pub outcomes :
          map (λ o. o.0) after.step_outcomes
          ≡ map (λ o. o.0) before.step_outcomes ++ map (λ tc. tc.name) calls
      pub names : after.names ≡ before.names ++ map (λ tc. tc.name) calls

    handle_calls-Answered :
        (step seq : ℕ) (calls : List ToolCall) (acting : Acting F)
        → Answered calls acting (handle_calls F world step seq calls acting)
    unfolding handle_calls
    handle_calls-Answered step seq [] acting = record {
      answers = [];
      said = rw append-nil refl;
      ids = refl;
      tools = tt;
      outcomes = rw append-nil refl;
      names = rw append-nil refl;
    }
    handle_calls-Answered step seq (tc ∷ calls) acting =
        let (content, state) = world.handle step seq tc acting.run.state in
        let heard = hear F step seq tc content state acting in
        let invalid = starts_with content "validation error" in
        let next = conclude_call F world tc invalid heard in
        let rest = handle_calls-Answered step (seq + 1) calls next in
        let same : traced next ≡ traced heard = (conclude_call-traced tc invalid heard).0 in
        let answer = tool_message tc.id (sanitize_tool_content content) in
        let names = map (λ tc. tc.name) calls in
        record {
          answers = answer ∷ rest.answers;
          said =
              rest.said
              ∙ ap (λ t. t.0 ++ rest.answers) same
              ∙ append_assoc acting.run.messages (answer ∷ []) rest.answers;
          ids = ap (◌∷◌ tc.id) rest.ids;
          tools = (refl, rest.tools);
          outcomes =
              rest.outcomes
              ∙ ap (λ t. map (λ o. o.0) t.1 ++ names) same
              ∙ ap (λ l. l ++ names)
                  (map-append (λ o. o.0) acting.step_outcomes ((tc.name, invalid) ∷ []))
              ∙ append_assoc (map (λ o. o.0) acting.step_outcomes) (tc.name ∷ []) names;
          names =
              rest.names
              ∙ ap (λ t. t.2 ++ names) same
              ∙ append_assoc acting.names (tc.name ∷ []) names;
        }

    -- After the message with a response's tool calls come exactly their answers: one message of role
    -- `tool` for each call, in the order of the calls and with their ids. The outcomes of the step and the
    -- names in its record are those of the calls, in order.
    pub act-Answered :
        (config : AgentConfig) (step : ℕ) (response : Response) (run : Run F)
        → Answered response.tool_calls
            (record {
              run = say F (assistant_message F world config response.tool_calls) run;
              step_outcomes = [];
              names = [];
              findings_from_done = none;
            })
            (act F world config step response run)
    act-Answered config step response run = handle_calls-Answered step 1 response.tool_calls _
