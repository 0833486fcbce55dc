-- ===== src/Tools/Calls/Malformed.antt =====
-- What becomes of a call whose arguments are not JSON.
use Prim.Native.Char.{Char, code}
use diff_graph.Agent.{AgentConfig, Response, Run, World}
use diff_graph.Agent.Calls.{handle_calls}
use diff_graph.Agent.Guards.{check_require_tool_guards}
use diff_graph.Agent.Loop.{Turn, answer_calls, breaks, continues, returns as returned}
use diff_graph.Base.{
  Bool-cases, List, Option, String, [], ap, arith, eq_iff, false, if◌then◌else◌, inl, inr, ltb,
  none, not, refl, some, str_eq, subst, suc, sym, true, zero, ℕ, ◌&&◌, ◌<>◌, ◌==◌, ◌∙◌, ◌∷◌, ◌≡◌,
}
use diff_graph.Budget.Context.{StepContext}
use diff_graph.Dict.{get?, set_key}
use diff_graph.Floats.{Float}
use diff_graph.Json.{Json, dict, str}
use diff_graph.Messages.{ToolCall, take_chars}
use diff_graph.Text.{chars}
use diff_graph.Tools.{
  Libraries, Memory, RepairHandler, ToolDef, ToolRegistry, chars, clip, format_result, get,
  limit_of, syntax_error,
}
use diff_graph.Tools.Calls.{
  CallState, ToolMocks, args_or_none, dispatch_tools, dispatched, handle_by, handle_each,
  handle_real, handle_response, handle_tool_call, is_dispatched, is_mocked, parse_args, says,
}
use diff_graph.Tools.Chain.{
  is_empty_chain, is_missing_required, malformed, or_braces, refused, settle, validate_args,
  walk_chain,
}
use diff_graph.Tools.Dispatch.{dispatch, returns}
use diff_graph.Tools.Mocks.{ToolMocks}
use diff_graph.Tools.Repair.{default_qwen3_chain}
use diff_graph.Tools.Semantic.{Judge}
use text.Mathlib.Text.{starts_with}
use text.Mathlib.TextEquality.{starts_with_iff}
use text.Mathlib.TextLemmas.{cons-append, head-eq_of_cons-eq}

module _ (libs : Libraries) where
  -- Without the text no handler of the chain has a repair for empty arguments.
  default_declines :
      (schema : Json) (error : String)
      → walk_chain libs (default_qwen3_chain libs) none (dict []) schema error ≡ none
  unfolding walk_chain
  default_declines schema error = refl

  settle_default :
      (schema : Json) (error : String)
      → validate_args libs (dict []) schema ≡ some error
      → is_missing_required error ≡ true
      → settle libs (default_qwen3_chain libs) none (dict []) schema ≡ refused error
  unfolding settle
  settle_default schema error v m = rw (v, m, default_declines schema error) refl

  malformed_empty :
      (raw msg line column : String)
      → libs.loads (or_braces raw) ≡ syntax_error msg line column
      → parse_args libs raw ≡ dict []
  malformed_empty raw msg line column e = ap args_or_none e

  -- The error of a text that is not JSON, where nothing repairs it.
  settle-malformed :
      (chain : List RepairHandler) (raw msg line column : String) (schema : Json) (error : String)
      → libs.loads (or_braces raw) ≡ syntax_error msg line column
      → validate_args libs (dict []) schema ≡ some error
      → is_missing_required error ≡ true
      → walk_chain libs chain (some raw) (dict []) schema error ≡ none
      → settle libs chain (some raw) (dict []) schema
        ≡ refused (malformed (syntax_error msg line column) error)
  unfolding settle
  settle-malformed chain raw msg line column schema error bad v m out =
      let off : (not (is_empty_chain chain) && not (is_missing_required error)) ≡ false =
        ground (arith, m) in
      rw (v, off, out, bad) refl

-- A text with another first letter is no validation error.
first_differs :
    (c : Char) (rest : String)
    → (code c == b'v') ≡ false
    → starts_with (String.◌∷◌ c rest) "validation error" ≡ false
first_differs c rest other =
    elim (Bool-cases (starts_with (String.◌∷◌ c rest) "validation error")) [
      | inl e ↦
          let (u, p) = (starts_with_iff (String.◌∷◌ c rest) "validation error").0 e in
          let same : Path Char "v" c =
            head-eq_of_cons-eq (sym (cons-append "v" "alidation error" u) ∙ p) in
          let no : code c ≡ b'v' = ap code (sym same) in absurd (ground (arith, other, no))
      | inr e ↦ e
    ]

clipped_differs :
    (S : Type 0) (limit : ℕ) (rest : String)
    → starts_with (clip S limit (String.◌∷◌ "e" rest)) "validation error" ≡ false
clipped_differs S limit rest = elim (Bool-cases (ltb limit (chars (String.◌∷◌ "e" rest)))) [
  | inl long ↦
      subst
        (λ b.
          starts_with
            (if b
              then take_chars limit (String.◌∷◌ "e" rest) <> "\n... (truncated)"
              else String.◌∷◌ "e" rest)
            "validation error"
          ≡ false)
        (sym long) (cut limit)
  | inr short ↦
      subst
        (λ b.
          starts_with
            (if b
              then take_chars limit (String.◌∷◌ "e" rest) <> "\n... (truncated)"
              else String.◌∷◌ "e" rest)
            "validation error"
          ≡ false)
        (sym short) (first_differs "e" rest refl)
]
  where
    cut :
        (n : ℕ)
        → starts_with (take_chars n (String.◌∷◌ "e" rest) <> "\n... (truncated)") "validation error"
          ≡ false
    cut zero = first_differs "\n" "... (truncated)" refl
    cut (suc n) =
        subst (λ s. starts_with s "validation error" ≡ false)
          (sym (cons-append "e" (take_chars n rest) "\n... (truncated)"))
          (first_differs "e" (take_chars n rest <> "\n... (truncated)") refl)

-- What a turn of the loop returns from the run.
abbrev pub turn_output : {F : Float} → Turn F → Option String
turn_output (continues run) = none
turn_output (breaks run) = none
turn_output (returned output run) = some output

module _ (S : Type 0) (judge : Judge) (libs : Libraries) (registry : ToolRegistry S)
    (td : ToolDef S) where
  -- A call without mocks or an earlier result, whose arguments are refused.
  refused_call :
      (tc : ToolCall) (mocks : Option (ToolMocks judge)) (memory : Memory S) (o : Option Json)
      (text : String)
      → is_mocked S judge tc.name mocks ≡ false
      → get S registry tc.name ≡ some td
      → handle_real S judge libs registry tc o mocks memory
        ≡ (says (clip S td.result_limit text), record { mocks = mocks; memory = memory })
      → (results : List (String × Json)) → get? tc.id results ≡ o
      → handle_by S judge libs registry results tc mocks memory
        ≡ (says (clip S td.result_limit text), record { mocks = mocks; memory = memory })
  refused_call tc none memory o text free found said results e =
      ap (λ r. handle_real S judge libs registry tc r none memory) e ∙ said
  refused_call tc (some mocks) memory o text free found said results e =
      rw free (ap (λ r. handle_real S judge libs registry tc r (some mocks) memory) e ∙ said)

  dispatch_refused :
      (name text : String) (args : Json) (raw : Option String) (memory : Memory S)
      → get S registry name ≡ some td
      → settle libs registry.arg_repair_handlers raw args td.parameters ≡ refused text
      → dispatch S libs registry name args raw memory ≡ (returns (str text), memory)
  unfolding dispatch
  dispatch_refused name text args raw memory found refusal = rw (found, refusal) refl

  format_found :
      (name text : String)
      → get S registry name ≡ some td
      → format_result S libs registry name (str text) ≡ clip S td.result_limit text
  format_found name text found = ap (λ o. clip S (limit_of S o) text) found

  unmocked :
      (mocks : Option (ToolMocks judge)) (tc : ToolCall)
      → is_dispatched S judge mocks tc ≡ true
      → is_mocked S judge tc.name mocks ≡ false
  unmocked mocks tc h = elim (Bool-cases (is_mocked S judge tc.name mocks)) [
    | inl e ↦ let no : false ≡ true = ground (arith, e, h) in cc
    | inr e ↦ e
  ]

  own_result : (id : String) (v : Json) → get? id (set_key id v []) ≡ some v
  unfolding get? set_key
  own_result id v = ground (arith, eq_iff id id)

  -- With the default chain, a response that is one call of a registered domain tool that is not mocked, whose
  -- arguments are not JSON and whose schema finds a required one missing where there are none, is answered with that
  -- validation error, cut to the tool's limit, whatever the text of the arguments is: the dispatch before the others
  -- does not get the text, so that neither the three repairs of a text nor the error of malformed JSON apply.
  pub dispatched_malformed :
      (tc : ToolCall) (state : CallState S judge) (msg line column error : String)
      → is_dispatched S judge state.mocks tc ≡ true
      → get S registry tc.name ≡ some td
      → registry.arg_repair_handlers ≡ default_qwen3_chain libs
      → libs.loads (or_braces tc.arguments) ≡ syntax_error msg line column
      → validate_args libs (dict []) td.parameters ≡ some error
      → is_missing_required error ≡ true
      → handle_response S judge libs registry
          (dispatched S judge state.mocks (tc ∷ []))
          (tc ∷ [])
          state
        ≡ (says (clip S td.result_limit error) ∷ [], state)
  unfolding handle_response dispatch_tools handle_each handle_tool_call
  dispatched_malformed tc state msg line column error d found chain bad v m =
      let no : settle libs registry.arg_repair_handlers none (parse_args libs tc.arguments)
            td.parameters
          ≡ refused error =
        subst (λ c. settle libs c none (parse_args libs tc.arguments) td.parameters ≡ refused error)
          (sym chain)
          (subst (λ a. settle libs (default_qwen3_chain libs) none a td.parameters ≡ refused error)
            (sym (malformed_empty libs tc.arguments msg line column bad))
            (settle_default libs td.parameters error v m)) in
      let first =
        dispatch_refused tc.name error (parse_args libs tc.arguments) none state.memory found no in
      let said =
        refused_call tc state.mocks state.memory (some (str error)) error
          (unmocked state.mocks tc d) found
          (ap (λ t. (says t, record { mocks = state.mocks; memory = state.memory }))
            (format_found tc.name error found))
          (set_key tc.id (str error) []) (own_result tc.id (str error)) in
      rw (d, first, said) refl

  -- A registered `done` that is not mocked and is the only call of a response, whose arguments are not JSON and are not
  -- repaired, and whose schema finds a required one missing where there are none: it is answered with the error of
  -- malformed JSON, cut to the tool's limit. In a step that hears this answer the run returns the findings of the text
  -- of the arguments, if these are not null and no required tool is missing: the answer does not begin with
  -- "validation error", which alone keeps the run open.
  pub done_malformed :
      (F : Float) (world : World F) (config : AgentConfig) (step : ℕ) (ctx : StepContext F)
      (response : Response) (run : Run F) (tc : ToolCall) (results : List (String × Json))
      (state : CallState S judge) (msg line column error output : String)
      → tc.name ≡ "done"
      → is_mocked S judge tc.name state.mocks ≡ false
      → get? tc.id results ≡ none
      → get S registry tc.name ≡ some td
      → libs.loads (or_braces tc.arguments) ≡ syntax_error msg line column
      → validate_args libs (dict []) td.parameters ≡ some error
      → is_missing_required error ≡ true
      → walk_chain libs registry.arg_repair_handlers
          (some tc.arguments)
          (dict [])
          td.parameters
          error
        ≡ none
      → world.handle step 1 tc run.state
        ≡ (clip S td.result_limit (malformed (syntax_error msg line column) error), run.state)
      → response.tool_calls ≡ tc ∷ []
      → world.findings tc.arguments ≡ some output
      → (check_require_tool_guards world.interpolate config.guards run.called_tools
          run.guard_retries).0
        ≡ none
      → let content = clip S td.result_limit (malformed (syntax_error msg line column) error) in
        (handle_tool_call S judge libs registry results tc state ≡ (says content, state))
        × (turn_output (answer_calls F world config step ctx response run) ≡ some output)
  unfolding handle_tool_call handle_calls
  done_malformed F world config step ctx response run tc results state msg line column error output
        named free fresh found bad v m out handled single given silent =
      let text = malformed (syntax_error msg line column) error in
      let rest =
        msg <> " (line " <> line <> " col " <> column <> "); re-emit the call with valid JSON" in
      let no : settle libs registry.arg_repair_handlers (some tc.arguments)
            (parse_args libs tc.arguments) td.parameters
          ≡ refused text =
        subst
          (λ a.
            settle libs registry.arg_repair_handlers (some tc.arguments) a td.parameters
            ≡ refused text)
          (sym (malformed_empty libs tc.arguments msg line column bad))
          (settle-malformed libs registry.arg_repair_handlers tc.arguments msg line column
            td.parameters error bad v m out) in
      let last =
        dispatch_refused tc.name text (parse_args libs tc.arguments) (some tc.arguments)
          state.memory found no in
      let done_name : str_eq tc.name "done" ≡ true = (eq_iff tc.name "done").1 named in
      let differs : starts_with (clip S td.result_limit text) "validation error" ≡ false =
        subst (λ s. starts_with (clip S td.result_limit s) "validation error" ≡ false)
          (sym (cons-append "e" "rror: malformed JSON in arguments — " rest))
          (clipped_differs S td.result_limit ("rror: malformed JSON in arguments — " <> rest)) in
      (
        refused_call tc state.mocks state.memory none text free found
            (rw (last, format_found tc.name text found) refl) results fresh,
        rw (single, handled, done_name, differs, given, silent) refl,
      )
