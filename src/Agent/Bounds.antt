-- ===== src/Agent/Bounds.antt =====
-- A run ends: how often it asks the model, and how often it repeats itself.
use diff_graph.Agent.{
  AgentConfig, AgentResult, Bool, BudgetTracker, CondensationConfig, List, Message, Option,
  Response, Run, String, Tool, World, [], agent_done, agent_forced_done, emit, say, ℕ,
}
use diff_graph.Agent.Answers.{handle_calls-settled}
use diff_graph.Agent.Conclusion.{
  ask_done, conclude_run, force_done, forced_reason, new_run, result, run_react,
}
use diff_graph.Agent.Guards.{check_guard, check_require_tool_guards, max_guard_retries}
use diff_graph.Agent.Loop.{
  Ending, Turn, act, answer_calls, answer_text, assistant_message, breaks, broken, close_step,
  condensed, continues, go_on, is_empty_list, note_step, or_required, prepare, react_loop,
  react_step, receive, reprompt, respond, returned, returns, told, veto,
}
use diff_graph.Agent.Retries.{IsBounded, check_guard-IsBounded, check_require-IsBounded}
use diff_graph.Base.{
  All, Bool, Bool-cases, List, Option, String, [], ap, arith, false, if◌then◌else◌, inl, inr,
  keep_if, length, length-snoc, none, refl, some, subst, suc, sym, true, zero, ℕ, ◌*◌, ◌+◌, ◌∙◌,
  ◌∷◌, ◌≡◌, ◌≤◌,
}
use diff_graph.Budget.Context.{StepContext, Tool, is_tool}
use diff_graph.Budget.State.{exhausted}
use diff_graph.Budget.Tracker.{BudgetTracker}
use diff_graph.Condense.{CondensationConfig, requests_bound}
use diff_graph.Floats.{Float}
use diff_graph.Messages.{Message, user_message}

module _ (F : Float) where
  abbrev turn_run : Turn F → Run F
  turn_run (continues run) = run
  turn_run (breaks run) = run
  turn_run (returns output run) = run

  -- The counts at the end of a step, where the history may be summarised, with the guards' retries in their bound.
  abbrev Steady : Run F → Run F → Type 0
  Steady run next =
      (next.calls ≤ run.calls + 1)
      × (length next.steps ≡ length run.steps)
      × IsBounded next.guard_retries

  module _ (world : World F) (config : AgentConfig) where
    condensed-Steady :
        (cfg : Option CondensationConfig) (step : ℕ) (run : Run F)
        → IsBounded run.guard_retries
        → Steady run (condensed F world config cfg step run)
    condensed-Steady none step run b = (omega arith, refl, b)
    condensed-Steady (some cfg) step run b = ground (arith, b, requests_bound cfg run.messages)

    reprompt-Steady :
        (text : Option String) (content : String) (run : Run F)
        → IsBounded run.guard_retries
        → Steady run (turn_run (reprompt F world config text content run))
    reprompt-Steady none content run b = (omega arith, refl, b)
    reprompt-Steady (some text) content run b = (omega arith, refl, b)

    or_required-IsBounded :
        (first : Option String × List (String × ℕ)) (run : Run F)
        → IsBounded first.1
        → IsBounded (or_required F world config first run).1
    or_required-IsBounded (none, retries) run b =
        check_require-IsBounded world.interpolate config.guards run.called_tools retries b
    or_required-IsBounded (some text, retries) run b = b

    answer_text-Steady :
        (content : String) (run : Run F)
        → IsBounded run.guard_retries
        → Steady run (turn_run (answer_text F world config content run))
    answer_text-Steady content run b =
        let first = check_guard world.interpolate "text_response" config.guards run.guard_retries in
        let (text, retries) = or_required F world config first run in
        let again = or_required-IsBounded first run (
          check_guard-IsBounded world.interpolate "text_response" config.guards run.guard_retries
            b) in
        reprompt-Steady (told F world config text) content (record run { guard_retries = retries })
          again

    veto-Steady :
        (text : Option String) (output : String) (run : Run F)
        → IsBounded run.guard_retries
        → Steady run (turn_run (veto F world config text output run))
    veto-Steady none output run b = (omega arith, refl, b)
    veto-Steady (some text) output run b = (omega arith, refl, b)

    close_step-Steady :
        (step : ℕ) (output : Option String) (run : Run F)
        → IsBounded run.guard_retries
        → Steady run (turn_run (close_step F world config step output run))
    close_step-Steady step none run b = condensed-Steady config.condensation step run b
    close_step-Steady step (some output) run b =
        let (text, retries) =
          check_require_tool_guards world.interpolate config.guards run.called_tools
            run.guard_retries in
        veto-Steady (told F world config text) output (record run { guard_retries = retries })
          (check_require-IsBounded world.interpolate config.guards run.called_tools
            run.guard_retries b)

    -- A step asks the model at most once for its answer and once for a summary, and records at most one step.
    abbrev Advances : Run F → Run F → Type 0
    Advances run next =
        (next.calls ≤ run.calls + 2)
        × (length next.steps ≤ length run.steps + 1)
        × IsBounded next.guard_retries

    answer_calls-Advances :
        (step : ℕ) (ctx : StepContext F) (response : Response) (run : Run F)
        → IsBounded run.guard_retries
        → ((turn_run (answer_calls F world config step ctx response run)).calls ≤ run.calls + 1)
          × (length (turn_run (answer_calls F world config step ctx response run)).steps
              ≡ length run.steps + 1)
          × IsBounded (turn_run (answer_calls F world config step ctx response run)).guard_retries
    answer_calls-Advances step ctx response run b =
        let acting = act F world config step response run in
        let same = handle_calls-settled F world step 1 response.tool_calls (record {
          run = say F (assistant_message F world config response.tool_calls) run;
          step_outcomes = [];
          names = [];
          findings_from_done = none;
        }) in
        let recorded = note_step F world config step response.usage ctx acting in
        let kept : IsBounded recorded.guard_retries =
          subst IsBounded (sym (ap (λ s. s.3) same)) b in
        let ended = close_step-Steady step acting.findings_from_done recorded kept in
        (
          omega (arith, ended.0, ap (λ s. s.1) same),
          ended.1 ∙ length-snoc acting.run.steps _ ∙ ap (λ s. length s.2 + 1) same,
          ended.2,
        )

    respond-Advances :
        (step : ℕ) (ctx : StepContext F) (response : Option Response) (run : Run F)
        → IsBounded run.guard_retries
        → ((turn_run (respond F world config step ctx response run)).calls ≤ run.calls + 1)
          × (length (turn_run (respond F world config step ctx response run)).steps
              ≤ length run.steps + 1)
          × IsBounded (turn_run (respond F world config step ctx response run)).guard_retries
    respond-Advances step ctx none run b = (omega arith, omega arith, b)
    respond-Advances step ctx (some response) run b =
        let received = receive F world config step response run in
        elim (Bool-cases (is_empty_list F world config response.tool_calls)) [
          | inl empty ↦
              let (calls, steps, bounded) = answer_text-Steady response.content received b in
              rw empty (calls, omega (arith, steps), bounded)
          | inr acts ↦
              let (calls, steps, bounded) = answer_calls-Advances step ctx response received b in
              rw acts (calls, omega (arith, steps), bounded)
        ]

    react_step-Advances :
        (tools : List Tool) (step : ℕ) (run : Run F)
        → IsBounded run.guard_retries
        → Advances run (turn_run (react_step F world config tools step run))
    unfolding react_step
    react_step-Advances tools step run b =
        let (ctx, asking) = prepare F world config tools step run in
        let response = world.llm step ctx.messages ctx.current_tools in
        let (calls, steps, bounded) = respond-Advances step ctx response asking b in
        elim (Bool-cases (exhausted F (world.now step) run.state)) [
          | inl spent ↦ rw spent (omega arith, omega arith, b)
          | inr going ↦ rw going (omega (arith, calls), steps, bounded)
        ]

    abbrev pub ending_run : Ending F → Run F
    ending_run (broken run) = run
    ending_run (returned output run) = run

    -- The same over a number of steps.
    abbrev Within : ℕ → Run F → Run F → Type 0
    Within left run next =
        (next.calls ≤ run.calls + 2 * left)
        × (length next.steps ≤ length run.steps + left)
        × IsBounded next.guard_retries

    go_on-Within :
        (left : ℕ) (run : Run F) (turn : Turn F) (later : Run F → Ending F)
        → Advances run (turn_run turn)
        → ((next : Run F)
            → IsBounded next.guard_retries
            → Within left next (ending_run (later next)))
        → Within (suc left) run (ending_run (go_on F world config turn later))
    go_on-Within left run (continues next) later (calls, steps, bounded) again =
        let (calls', steps', bounded') = again next bounded in
        (omega (arith, calls, calls'), omega (arith, steps, steps'), bounded')
    go_on-Within left run (breaks last) later (calls, steps, bounded) again =
        (omega (arith, calls), omega (arith, steps), bounded)
    go_on-Within left run (returns output last) later (calls, steps, bounded) again =
        (omega (arith, calls), omega (arith, steps), bounded)

    react_loop-Within :
        (tools : List Tool) (left step : ℕ) (run : Run F)
        → IsBounded run.guard_retries
        → Within left run (ending_run (react_loop F world config tools left step run))
    unfolding react_loop
    react_loop-Within tools zero step run b = (omega arith, omega arith, b)
    react_loop-Within tools (suc left) step run b =
        go_on-Within left run (react_step F world config tools step run) _
          (react_step-Advances tools step run b)
          (λ next bounded. react_loop-Within tools left (step + 1) next bounded)

    -- What `_force_done` does to the counts.
    abbrev Asks : Run F → Run F → Type 0
    Asks run next =
        (next.calls ≤ run.calls + 1)
        × (next.steps ≡ run.steps)
        × (next.guard_retries ≡ run.guard_retries)

    ask_done-Asks :
        (done_tools : List Tool) (run : Run F) → Asks run (ask_done F world config done_tools run).1
    ask_done-Asks [] run = (omega arith, refl, refl)
    ask_done-Asks (t ∷ done_tools) run = (omega arith, refl, refl)

    either :
        (run : Run F) (b : Bool) (x y : AgentResult F)
        → Asks run x.run
        → Asks run y.run
        → Asks run (if b then x else y).run
    either run true x y h k = h
    either run false x y h k = k

    conclude_run-Asks :
        (tools : List Tool) (ending : Ending F)
        → Asks (ending_run ending) (conclude_run F world config tools ending).run
    unfolding force_done
    conclude_run-Asks tools (returned output run) = (omega arith, refl, refl)
    conclude_run-Asks tools (broken run) =
        let reason =
          forced_reason F world config (exhausted F (world.now config.max_steps) run.state) in
        let asked =
          say F (user_message world.step_limit_text) (emit F (agent_forced_done reason) run) in
        let asks = ask_done-Asks (keep_if (is_tool "done") tools) asked in
        either run run.natural_stop (result F world config none (emit F (agent_done none) run)) _
          (omega arith, refl, refl) asks

    -- A run of the agent ends whatever the model answers, and asks it at most twice for each step that the budget
    -- allows, for the step's answer and for a summary of the history, and once more for the final `done`, where
    -- a call with its retries counts once. No more steps than the budget allows are recorded, and no guard has fired
    -- more than twice.
    pub run_react_bounds :
        (tools : List Tool) (tracker : BudgetTracker F) (now : F.Real) (messages : List Message)
        → ((run_react F world config tools tracker now messages).run.calls
            ≤ 2 * config.max_steps + 1)
          × (length (run_react F world config tools tracker now messages).run.steps
              ≤ config.max_steps)
          × All
              (λ entry. entry.1 ≤ max_guard_retries)
              (run_react F world config tools tracker now messages).run.guard_retries
    unfolding run_react
    run_react_bounds tools tracker now messages =
        let run = new_run F world config tracker now messages in
        let ending = react_loop F world config tools config.max_steps 0 run in
        let (calls, steps, bounded) = react_loop-Within tools config.max_steps 0 run tt in
        let (asked, same, kept) = conclude_run-Asks tools ending in
        (
          omega (arith, calls, asked),
          omega (arith, steps, ap length same),
          subst IsBounded (sym kept) bounded,
        )
