-- ===== src/Agent/Finishing.antt =====
-- A run that returns: what `done` or `answer` has set, and which guards it has passed.
use diff_graph.Agent.{AgentConfig, Bool, Response, Run, String, Tool, ToolCall, World, say, ℕ}
use diff_graph.Agent.Calls.{Acting, close, conclude_call, handle_call, handle_calls, hear}
use diff_graph.Agent.Guards.{check_guard, check_require_tool_guards, passes}
use diff_graph.Agent.Loop.{
  Ending, Turn, act, answer_text, assistant_message, breaks, broken, close_step, continues, go_on,
  is_empty_list, note_step, or_required, prepare, react_loop, react_step, receive, reprompt,
  respond, returned, returns, told, veto,
}
use diff_graph.Agent.Retries.{check_require_none}
use diff_graph.Base.{
  All, Bool, Bool-cases, List, Option, String, [], arith, false, if◌then◌else◌, inl, inr, none,
  refl, some, str_eq, subst, suc, true, zero, ℕ, ◌+◌, ◌∙◌, ◌∷◌, ◌≡◌,
}
use diff_graph.Budget.Context.{StepContext, Tool}
use diff_graph.Budget.State.{exhausted}
use diff_graph.Floats.{Float}
use diff_graph.Messages.{ToolCall}

module _ (F : Float) where
  -- An output that is not null is the run's, and the run counts as done.
  abbrev IsClosed : Option String → Run F → Type 0
  IsClosed none run = Unit
  IsClosed (some output) run = (run.done_output ≡ some output) × (run.done_called ≡ true)

  close-IsClosed :
      (output : Option String) (acting : Acting F)
      → IsClosed (close F output acting).findings_from_done (close F output acting).run
  close-IsClosed none acting = tt
  close-IsClosed (some output) acting = (refl, refl)

  -- What may end a run: its output, and every guard with a message met or spent.
  abbrev Ends : List (String × String) → Turn F → Type 0
  Ends guards (continues run) = Unit
  Ends guards (breaks run) = Unit
  Ends guards (returns output run) =
      (run.done_output ≡ some output)
      × (run.done_called ≡ true)
      × All (λ guard. passes guard.0 run.called_tools run.guard_retries ≡ true) guards

  abbrev pub Returns : List (String × String) → Ending F → Type 0
  Returns guards (broken run) = Unit
  Returns guards (returned output run) =
      (run.done_output ≡ some output)
      × (run.done_called ≡ true)
      × All (λ guard. passes guard.0 run.called_tools run.guard_retries ≡ true) guards

  module _ (world : World F) (config : AgentConfig) where
    IsClosed-same :
        (output : Option String) (run next : Run F)
        → next.done_output ≡ run.done_output
        → next.done_called ≡ run.done_called
        → IsClosed output run
        → IsClosed output next
    IsClosed-same none run next d c h = tt
    IsClosed-same (some output) run next d c h = (d ∙ h.0, c ∙ h.1)

    either :
        (b : Bool) (x y : Turn F)
        → Ends config.guards x
        → Ends config.guards y
        → Ends config.guards (if b then x else y)
    either true x y h k = h
    either false x y h k = k

    reprompt-Ends :
        (text : Option String) (content : String) (run : Run F)
        → Ends config.guards (reprompt F world config text content run)
    reprompt-Ends none content run = tt
    reprompt-Ends (some text) content run = tt

    conclude_call-IsClosed :
        (tc : ToolCall) (invalid : Bool) (acting : Acting F)
        → IsClosed acting.findings_from_done acting.run
        → IsClosed
            (conclude_call F world tc invalid acting).findings_from_done
            (conclude_call F world tc invalid acting).run
    conclude_call-IsClosed tc true acting c = ground (arith, c)
    conclude_call-IsClosed tc false acting c = elim (Bool-cases (str_eq tc.name "done")) [
      | inl is_done ↦ rw is_done (close-IsClosed (world.findings tc.arguments) acting)
      | inr other ↦ ground (arith, c, other)
    ]

    handle_calls-IsClosed :
        (step seq : ℕ) (calls : List ToolCall) (acting : Acting F)
        → IsClosed acting.findings_from_done acting.run
        → IsClosed
            (handle_calls F world step seq calls acting).findings_from_done
            (handle_calls F world step seq calls acting).run
    unfolding handle_calls
    handle_calls-IsClosed step seq [] acting c = c
    handle_calls-IsClosed step seq (tc ∷ calls) acting c =
        let (content, state) = world.handle step seq tc acting.run.state in
        handle_calls-IsClosed step (seq + 1) calls (handle_call F world step seq tc acting) (
          conclude_call-IsClosed tc _ (hear F step seq tc content state acting)
            (IsClosed-same acting.findings_from_done acting.run _ refl refl c))

    -- No guard's message is empty once it is filled in.
    abbrev pub Speaks : List (String × String) → Type 0
    Speaks guards = All (λ guard. str_eq (world.interpolate guard.1) "" ≡ false) guards

    module _ (speaks : Speaks config.guards) where
      -- A check that the run passes with `if guard_msg:` has found nothing to say.
      told-none :
          (guards : List (String × String)) (called : List String) (retries : List (String × ℕ))
          → Speaks guards
          → told F world config
              (check_require_tool_guards world.interpolate guards called retries).0
            ≡ none
          → (check_require_tool_guards world.interpolate guards called retries).0 ≡ none
      told-none [] called retries speak e = refl
      told-none (guard ∷ guards) called retries speak e =
          elim (Bool-cases (passes guard.0 called retries)) [
            | inl past ↦ rw past (told-none guards called retries speak.1 (rw past at e))
            | inr fires ↦ let never = rw (fires, speak.0) at e in cc never
          ]

      veto-Ends :
          (text : Option String) (output : String) (run : Run F)
          → (run.done_output ≡ some output)
          → (run.done_called ≡ true)
          → ((text ≡ none)
              → All
                  (λ guard. passes guard.0 run.called_tools run.guard_retries ≡ true)
                  config.guards)
          → Ends config.guards (veto F world config text output run)
      veto-Ends none output run d c h = (d, c, h refl)
      veto-Ends (some text) output run d c h = tt

      close_step-Ends :
          (step : ℕ) (output : Option String) (run : Run F)
          → IsClosed output run
          → Ends config.guards (close_step F world config step output run)
      close_step-Ends step none run c = tt
      close_step-Ends step (some output) run (d, c) =
          let (text, retries) =
            check_require_tool_guards world.interpolate config.guards run.called_tools
              run.guard_retries in
          veto-Ends (told F world config text) output (record run { guard_retries = retries }) d c
            (λ silent.
              let nothing =
                told-none config.guards run.called_tools run.guard_retries speaks silent in
              let (same, all) =
                check_require_none world.interpolate config.guards run.called_tools
                  run.guard_retries nothing in
              rw same all)

      answer_text-Ends :
          (content : String) (run : Run F)
          → Ends config.guards (answer_text F world config content run)
      answer_text-Ends content run =
          let first =
            check_guard world.interpolate "text_response" config.guards run.guard_retries in
          let (text, retries) = or_required F world config first run in
          reprompt-Ends (told F world config text) content (record run { guard_retries = retries })

      respond-Ends :
          (step : ℕ) (ctx : StepContext F) (response : Option Response) (run : Run F)
          → Ends config.guards (respond F world config step ctx response run)
      respond-Ends step ctx none run = tt
      respond-Ends step ctx (some response) run =
          let received = receive F world config step response run in
          let acting = act F world config step response received in
          let closed =
            handle_calls-IsClosed step 1 response.tool_calls
              (record {
                run = say F (assistant_message F world config response.tool_calls) received;
                step_outcomes = [];
                names = [];
                findings_from_done = none;
              })
              tt in
          either (is_empty_list F world config response.tool_calls) _ _
            (answer_text-Ends response.content received)
            (close_step-Ends step acting.findings_from_done
              (note_step F world config step response.usage ctx acting)
              (IsClosed-same acting.findings_from_done acting.run _ refl refl closed))

      react_step-Ends :
          (tools : List Tool) (step : ℕ) (run : Run F)
          → Ends config.guards (react_step F world config tools step run)
      unfolding react_step
      react_step-Ends tools step run =
          let (ctx, asking) = prepare F world config tools step run in
          either (exhausted F (world.now step) run.state) _ _ tt
            (respond-Ends step ctx (world.llm step ctx.messages ctx.current_tools) asking)

      go_on-Returns :
          (turn : Turn F) (later : Run F → Ending F)
          → Ends config.guards turn
          → ((next : Run F) → Returns config.guards (later next))
          → Returns config.guards (go_on F world config turn later)
      go_on-Returns (continues next) later h again = again next
      go_on-Returns (breaks last) later h again = tt
      go_on-Returns (returns output last) later h again = h

      react_loop-Returns :
          (tools : List Tool) (left step : ℕ) (run : Run F)
          → Returns config.guards (react_loop F world config tools left step run)
      unfolding react_loop
      react_loop-Returns tools zero step run = tt
      react_loop-Returns tools (suc left) step run =
          go_on-Returns (react_step F world config tools step run) _
            (react_step-Ends tools step run) (react_loop-Returns tools left (step + 1))

    -- If no guard's message is empty once it is filled in, then a run that `done` or `answer` ends returns the output that the call
    -- set, counts as done, and has called the tool of every `require_tool` guard, or has been told of it
    -- twice.
    pub react_loop_guards :
        (tools : List Tool) (left step : ℕ) (run last : Run F) (output : String)
        → Speaks config.guards
        → react_loop F world config tools left step run ≡ returned output last
        → (last.done_output ≡ some output)
          × (last.done_called ≡ true)
          × All (λ guard. passes guard.0 last.called_tools last.guard_retries ≡ true) config.guards
    react_loop_guards tools left step run last output speaks e =
        subst (Returns config.guards) e (react_loop-Returns speaks tools left step run)
