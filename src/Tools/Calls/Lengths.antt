-- ===== src/Tools/Calls/Lengths.antt =====
-- The length of what a call's message holds.
use diff_graph.Base.{
  Bool-cases, List, Option, String, ap, arith, inl, inr, ltb, none, some, ℕ, ◌+◌, ◌<>◌, ◌∙◌, ◌≡◌,
  ◌≤◌,
}
use diff_graph.Dict.{get?}
use diff_graph.Json.{Json}
use diff_graph.Messages.{ToolCall, take_chars}
use diff_graph.Text.{chars}
use diff_graph.Text.Laws.{chars-take_chars}
use diff_graph.Tools.{Libraries, Memory, ToolRegistry, clip, format_result, get, limit_of, render}
use diff_graph.Tools.Calls.{
  CallReply, CallState, fails, handle_by, handle_real, handle_tool_call, parse_args, say_mock,
  say_reply, say_result, says,
}
use diff_graph.Tools.Dispatch.{Reply, dispatch, raises, returns}
use diff_graph.Tools.Mocks.{Consumed, ToolMocks, consume, gives, has, render_mock_result}
use diff_graph.Tools.Semantic.{Judge}
use text.Mathlib.TextLemmas.{cons-append, nil-append}

chars-append : (s t : String) → chars (s <> t) ≡ chars s + chars t
chars-append String.[] t = ap chars (nil-append t) ∙ omega arith
chars-append (String.◌∷◌ c s) t = ap chars (cons-append c s t) ∙ omega (arith, chars-append s t)

module _ (S : Type 0) where
  pub chars-clip : (limit : ℕ) (text : String) → chars (clip S limit text) ≤ limit + 16
  chars-clip limit text = elim (Bool-cases (ltb limit (chars text))) [
    | inl e ↦
        let cut : chars (take_chars limit text <> "\n... (truncated)") ≤ limit + 16 = omega (
          arith,
          chars-append (take_chars limit text) "\n... (truncated)",
          chars-take_chars limit text,
        ) in
        rw e cut
    | inr e ↦ let short : chars text ≤ limit + 16 = ground (arith, e) in rw e short
  ]

  module _ (judge : Judge) (libs : Libraries) (registry : ToolRegistry S) where
    abbrev pub limit_for : String → ℕ
    limit_for name = limit_of S (get S registry name)

    -- A content keeps to the limit of its tool, and an exception has none.
    abbrev pub Fits : String → CallReply → Type 0
    Fits name (says text) = chars text ≤ limit_for name + 16
    Fits name (fails error) = Unit

    formatted : (name : String) (v : Json) → Fits name (says (format_result S libs registry name v))
    formatted name v = chars-clip (limit_for name) (render libs v)

    say_result-Fits :
        (name : String) (o : Option Json) → Fits name (say_result S judge libs registry name o)
    say_result-Fits name none = tt
    say_result-Fits name (some v) = formatted name v

    say_mock-Fits :
        (tc : ToolCall) (c : Consumed) → Fits tc.name (say_mock S judge libs registry tc c)
    say_mock-Fits tc (Consumed.raises error) = tt
    say_mock-Fits tc (gives e) =
        say_result-Fits tc.name (render_mock_result libs tc.name e (parse_args libs tc.arguments))

    say_reply-Fits :
        (name : String) (r : Reply) → Fits name (say_reply S judge libs registry name r)
    say_reply-Fits name (returns v) = formatted name v
    say_reply-Fits name (raises why) = tt

    real-Fits :
        (tc : ToolCall) (o : Option Json) (mocks : Option (ToolMocks judge)) (memory : Memory S)
        → Fits tc.name (handle_real S judge libs registry tc o mocks memory).0
    real-Fits tc (some v) mocks memory = formatted tc.name v
    real-Fits tc none mocks memory =
        say_reply-Fits tc.name
          (dispatch S libs registry tc.name (parse_args libs tc.arguments) (some tc.arguments)
            memory).0

    by-Fits :
        (results : List (String × Json)) (tc : ToolCall) (mocks : Option (ToolMocks judge))
        (memory : Memory S)
        → Fits tc.name (handle_by S judge libs registry results tc mocks memory).0
    by-Fits results tc none memory = real-Fits tc (get? tc.id results) none memory
    by-Fits results tc (some mocks) memory = elim (Bool-cases (has judge tc.name mocks)) [
      | inl e ↦
          rw e
            (say_mock-Fits tc (consume judge libs tc.name (parse_args libs tc.arguments) mocks).0)
      | inr e ↦ rw e (real-Fits tc (get? tc.id results) (some mocks) memory)
    ]

    -- The content of a tool's message is at most 16 characters longer than the tool's limit (6000 for a tool that is not
    -- registered), whether a mock, an earlier dispatch or a handler gave the result.
    pub handle_tool_call-Fits :
        (results : List (String × Json)) (tc : ToolCall) (state : CallState S judge)
        → Fits tc.name (handle_tool_call S judge libs registry results tc state).0
    unfolding handle_tool_call
    handle_tool_call-Fits results tc state = by-Fits results tc state.mocks state.memory
