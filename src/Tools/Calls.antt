-- ===== src/Tools/Calls.antt =====
-- The tool calls of one step of an agent (orchestra/agent.py): `_dispatch_tools` and `_handle_tool_call`, over
-- the registry and the mocks.
--
-- `_dispatch_tools` runs the calls of a pool of threads; here they run one after the other, in an order that is
-- given. The event of a mocked call is left out.
pub mod Effects
pub mod Lengths
pub mod Malformed
use diff_graph.Base.{
  Bool, List, Option, String, [], false, if◌then◌else◌, keep_if, none, not, some, str_eq, true,
  ◌&&◌, ◌<>◌, ◌||◌, ◌∷◌,
}
use diff_graph.Dict.{get?, set_key}
use diff_graph.Json.{Dict, Json, dict, str}
use diff_graph.Messages.{ToolCall}
use diff_graph.Tools.{Libraries, Loaded, Memory, ToolRegistry, format_result, loaded, syntax_error}
use diff_graph.Tools.Chain.{or_braces}
use diff_graph.Tools.Dispatch.{Reply, dispatch, raises, returns}
use diff_graph.Tools.Mocks.{
  Consumed, MockEntry, MockError, ToolMocks, consume, failure, gives, has, render_mock_result,
}
use diff_graph.Tools.Semantic.{Judge}

-- `json.loads(raw or "{}")`, and no arguments where the text is not JSON.
abbrev pub args_or_none : Loaded → Json
args_or_none (loaded v) = v
args_or_none (syntax_error msg line column) = dict []

abbrev pub parse_args : Libraries → String → Json
parse_args libs raw = args_or_none (libs.loads (or_braces raw))

-- A call's content, or the exception that leaves the step.
pub data CallReply : Type 0 where
  says : String → CallReply
  fails : MockError → CallReply

module _ (S : Type 0) where
  -- What the future of a call has: its result, or its exception in words.
  abbrev pub result_of : Reply → Json
  result_of (returns v) = v
  result_of (raises why) = str ("error: " <> why)

  unfoldable pub dispatch_tools :
      Libraries
      → ToolRegistry S
      → List ToolCall
      → List (String × Json)
      → Memory S
      → List (String × Json) × Memory S
  dispatch_tools libs registry [] results memory = (results, memory)
  dispatch_tools libs registry (tc ∷ calls) results memory =
      let (reply, after) =
        dispatch S libs registry tc.name (parse_args libs tc.arguments) none memory in
      dispatch_tools libs registry calls (set_key tc.id (result_of reply) results) after

  module _ (judge : Judge) where
    -- The mocks, if there are any, and the registry's memory.
    pub record CallState : Type 0 where
      pub mocks : Option (ToolMocks judge)
      pub memory : Memory S

    abbrev pub is_mocked : String → Option (ToolMocks judge) → Bool
    is_mocked name none = false
    is_mocked name (some mocks) = has judge name mocks

    -- The classification of a response's calls: whether a call is dispatched before the others are handled.
    abbrev pub is_dispatched : Option (ToolMocks judge) → ToolCall → Bool
    is_dispatched mocks tc =
        not (str_eq tc.name "done" || str_eq tc.name "reflect" || str_eq tc.name "agent_spawn")
        && not (is_mocked tc.name mocks)

    -- `dispatch_tcs`.
    abbrev pub dispatched : Option (ToolMocks judge) → List ToolCall → List ToolCall
    dispatched mocks calls = keep_if (is_dispatched mocks) calls

    abbrev pub say_result : Libraries → ToolRegistry S → String → Option Json → CallReply
    say_result libs registry name none = fails (failure "AttributeError")
    say_result libs registry name (some v) = says (format_result S libs registry name v)

    abbrev pub say_mock : Libraries → ToolRegistry S → ToolCall → Consumed → CallReply
    say_mock libs registry tc (Consumed.raises error) = fails error
    say_mock libs registry tc (gives e) =
        say_result libs registry tc.name
          (render_mock_result libs tc.name e (parse_args libs tc.arguments))

    abbrev pub handle_mocked :
        Libraries → ToolRegistry S → ToolCall → ToolMocks judge → Memory S → CallReply × CallState
    handle_mocked libs registry tc mocks memory =
        let (consumed, after) = consume judge libs tc.name (parse_args libs tc.arguments) mocks in
        (say_mock libs registry tc consumed, record { mocks = some after; memory = memory })

    abbrev pub say_reply : Libraries → ToolRegistry S → String → Reply → CallReply
    say_reply libs registry name (returns v) = says (format_result S libs registry name v)
    say_reply libs registry name (raises why) = fails (failure why)

    abbrev pub handle_real :
        Libraries
        → ToolRegistry S
        → ToolCall
        → Option Json
        → Option (ToolMocks judge)
        → Memory S
        → CallReply × CallState
    handle_real libs registry tc (some v) mocks memory =
        (says (format_result S libs registry tc.name v), record { mocks = mocks; memory = memory })
    handle_real libs registry tc none mocks memory =
        let (reply, after) =
          dispatch S libs registry tc.name (parse_args libs tc.arguments) (some tc.arguments)
            memory in
        (say_reply libs registry tc.name reply, record { mocks = mocks; memory = after })

    abbrev pub handle_by :
        Libraries
        → ToolRegistry S
        → List (String × Json)
        → ToolCall
        → Option (ToolMocks judge)
        → Memory S
        → CallReply × CallState
    handle_by libs registry results tc none memory =
        handle_real libs registry tc (get? tc.id results) none memory
    handle_by libs registry results tc (some mocks) memory =
        if has judge tc.name mocks
        then handle_mocked libs registry tc mocks memory
        else handle_real libs registry tc (get? tc.id results) (some mocks) memory

    unfoldable pub handle_tool_call :
        Libraries
        → ToolRegistry S
        → List (String × Json)
        → ToolCall
        → CallState
        → CallReply × CallState
    handle_tool_call libs registry results tc state =
        handle_by libs registry results tc state.mocks state.memory

    -- An exception leaves the loop over the calls.
    abbrev pub add_reply :
        CallReply → CallState → List CallReply × CallState → List CallReply × CallState
    add_reply (says text) after later = (says text ∷ later.0, later.1)
    add_reply (fails error) after later = (fails error ∷ [], after)

    -- The loop over the calls of a response.
    unfoldable pub handle_each :
        Libraries
        → ToolRegistry S
        → List (String × Json)
        → List ToolCall
        → CallState
        → List CallReply × CallState
    handle_each libs registry results [] state = ([], state)
    handle_each libs registry results (tc ∷ calls) state =
        let (reply, after) = handle_tool_call libs registry results tc state in
        add_reply reply after (handle_each libs registry results calls after)

    -- The calls of a response: the dispatched ones before, in the order in which they ran, and then each in turn.
    unfoldable pub handle_response :
        Libraries
        → ToolRegistry S
        → (ran calls : List ToolCall) → CallState
        → List CallReply × CallState
    handle_response libs registry ran calls state =
        let (results, memory) = dispatch_tools libs registry ran [] state.memory in
        handle_each libs registry results calls (record state { memory = memory })
