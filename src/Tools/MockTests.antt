-- ===== src/Tools/MockTests.antt =====
-- The mocks and the calls of a response on small inputs, with the registry of Tests.antt.
use diff_graph.Agent.{AgentConfig, Response, World}
use diff_graph.Agent.Loop.{answer_calls, step_context}
use diff_graph.Agent.Tests.{F, first_run, world}
use diff_graph.Base.{
  Bool-cases, List, String, [], arith, false, inl, inr, leb, none, refl, some, str_eq, subst, true,
  ℕ, ◌∷◌, ◌≡◌,
}
use diff_graph.Dict.{get?, has_key, only}
use diff_graph.Json.{Dict, Json, array, cons, dict, nil, str}
use diff_graph.Messages.{ToolCall}
use diff_graph.Tools.{Libraries, Memory, ToolDef, ToolRegistry, answered, clip, get, syntax_error}
use diff_graph.Tools.Calls.{
  CallState, dispatched, handle_response, handle_tool_call, is_mocked, says,
}
use diff_graph.Tools.Calls.Effects.{handle_response_keeps}
use diff_graph.Tools.Calls.Lengths.{Fits, handle_tool_call-Fits}
use diff_graph.Tools.Calls.Malformed.{dispatched_malformed, done_malformed, turn_output}
use diff_graph.Tools.Chain.{walk_chain}
use diff_graph.Tools.Dispatch.{Keeps}
use diff_graph.Tools.Mocks.{
  Consumed, MockEntry, ToolMocks, canned, consume_semantic, exhausted, gives, has, raises,
}
use diff_graph.Tools.Mocks.Chosen.{IsChosen, consume_semantic-IsChosen}
use diff_graph.Tools.Mocks.Fixture.{from_dict, parsed}
use diff_graph.Tools.Mocks.Replay.{answers, answers-replay}
use diff_graph.Tools.Repair.{default_qwen3_chain}
use diff_graph.Tools.Semantic.{Judge, SemanticConfig}
use diff_graph.Tools.Tests.{
  done_tool, libs, malformed_text, memory, path_error, path_invalid, path_missing, path_schema,
  reader, registry,
}
use mathlib.Core.List.{Perm}
use mathlib.Core.List.Perm.{refl as perm_refl}

-- A judge that answers no JSON, with natural numbers for floats.
abbrev judge : Judge
judge = record {
  Real = ℕ;
  zero_real = 0;
  default_threshold = 6;
  ge = λ a b. leb b a;
  int_of = λ v. none;
  float_of = λ v. none;
  int_overflows = λ v. false;
  float_overflows = λ v. false;
  repr_text = λ s. s;
  llm_caller = some (λ prompt model. some "nothing");
}

abbrev entry : String → MockEntry
entry s = record { when = []; return_data = str s; sticky = false }

-- Two tools, one of them with an entry that stays.
abbrev mocks : ToolMocks judge
mocks = record {
  by_tool =
      ("read_file", entry "first" ∷ canned (str "then") ∷ []) ∷ ("search", entry "found" ∷ []) ∷ [];
  semantic_by_tool = [];
  source_path = "";
  consumed = [];
}

abbrev mixed : List (String × Json)
mixed =
    ("read_file", dict [])
    ∷ ("search", dict [])
    ∷ ("read_file", dict [])
    ∷ ("search", dict [])
    ∷ ("read_file", dict [])
    ∷ []

read_listed : get? "read_file" mocks.by_tool ≡ some (entry "first" ∷ canned (str "then") ∷ [])
unfolding get?
read_listed = refl

read_ordinal : get? "read_file" mocks.semantic_by_tool ≡ none
unfolding get?
read_ordinal = refl

read_fresh : get? "read_file" mocks.consumed ≡ none
unfolding get?
read_fresh = refl

answers-replay_example :
    answers judge libs "read_file" mixed mocks
    ≡ gives (entry "first") ∷ gives (canned (str "then")) ∷ gives (canned (str "then")) ∷ []
answers-replay_example =
    answers-replay judge libs "read_file" (entry "first") (canned (str "then") ∷ []) mixed mocks
      read_listed read_ordinal read_fresh

abbrev cfg : SemanticConfig judge
cfg = record {
  strategy = "llm_judge";
  fixtures = record { examples = "pricing" ∷ []; return_data = str "a price" } ∷ [];
  model = none;
  on_arg = "focus";
  threshold = 6;
  on_no_match = "stub";
}

consume_semantic-IsChosen_example :
    IsChosen judge cfg
      (consume_semantic judge libs cfg "agent_spawn" (dict (("focus", str "price") ∷ [])))
consume_semantic-IsChosen_example =
    consume_semantic-IsChosen judge cfg libs "agent_spawn" (dict (("focus", str "price") ∷ []))

-- A fixture with the short form and with a list.
abbrev fixture : Dict
fixture =
    ("set_review_status", str "disabled")
    ∷ ("search", array (cons (dict (("return", str "found") ∷ [])) nil))
    ∷ []

abbrev fixture_mocks : ToolMocks judge
fixture_mocks = record {
  by_tool =
      ("set_review_status", canned (str "disabled") ∷ []) ∷ ("search", entry "found" ∷ []) ∷ [];
  semantic_by_tool = [];
  source_path = "mocks.yaml";
  consumed = [];
}

fixture_parsed : from_dict judge libs fixture "mocks.yaml" ≡ parsed fixture_mocks
unfolding from_dict diff_graph.Tools.Mocks.Fixture.from_items get? diff_graph.Dict.set_key
fixture_parsed = refl

fixture_distinct :
    has_key "set_review_status"
      (("search", array (cons (dict (("return", str "found") ∷ [])) nil)) ∷ [])
    ≡ false
unfolding get?
fixture_distinct = refl

search_alone : has_key {V = Json} "search" [] ≡ false
unfolding get?
search_alone = refl

abbrev bad_read : ToolCall
bad_read = record {
  id = "c1";
  name = "read_file";
  arguments = "{\"path\": \"a\", \"parent\": None}";
}

abbrev bad_done : ToolCall
bad_done = record { id = "c2"; name = "done"; arguments = "{path}" }

abbrev state : CallState ℕ judge
state = record { mocks = none; memory = memory }

all_ran : (calls : List ToolCall) → Perm calls calls
all_ran calls = perm_refl calls

-- The reading tool, which would count a call, is mocked, and a tool that changes nothing is not.
abbrev quiet_tool : ToolDef ℕ
quiet_tool = record done_tool { handler = λ args n. (answered (str "done"), n) }

abbrev quiet_registry : ToolRegistry ℕ
quiet_registry = record registry { tools = ("read_file", reader) ∷ ("done", quiet_tool) ∷ [] }

abbrev read_mocks : ToolMocks judge
read_mocks = record mocks { by_tool = ("read_file", entry "first" ∷ []) ∷ [] }

abbrev mocked_state : CallState ℕ judge
mocked_state = record { mocks = some read_mocks; memory = memory }

quiet_found :
    (name : String) (td : ToolDef ℕ)
    → is_mocked ℕ judge name (some read_mocks) ≡ false
    → get ℕ quiet_registry name ≡ some td
    → quiet_tool ≡ td
unfolding get?
quiet_found name td free found = elim (Bool-cases (str_eq "read_file" name)) [
  | inl e ↦ let never : true ≡ false = rw e at free in cc
  | inr e ↦ elim (Bool-cases (str_eq "done" name)) [
    | inl d ↦ ground (arith, rw (e, d) at found)
    | inr d ↦ let absent : none ≡ some td = rw (e, d) at found in cc
  ]
]

quiet-Keeps : (td : ToolDef ℕ) → quiet_tool ≡ td → Keeps ℕ (λ n. n ≡ 7) libs td
quiet-Keeps td same args d n e v h =
    subst (λ t. ((t.handler d n).1 ≡ 7) × ((t.handler (only t.signature d) n).1 ≡ 7)) same (h, h)

handle_response_keeps_example :
    (handle_response ℕ judge libs quiet_registry
      (dispatched ℕ judge (some read_mocks) (bad_read ∷ bad_done ∷ []))
      (bad_read ∷ bad_done ∷ [])
      mocked_state).1.memory.world
    ≡ 7
handle_response_keeps_example =
    handle_response_keeps ℕ judge (λ n. n ≡ 7) libs quiet_registry
      (dispatched ℕ judge (some read_mocks) (bad_read ∷ bad_done ∷ [])) (bad_read ∷ bad_done ∷ [])
      mocked_state (λ name td free found. quiet-Keeps td (quiet_found name td free found))
      (all_ran (dispatched ℕ judge (some read_mocks) (bad_read ∷ bad_done ∷ []))) refl

handle_tool_call-Fits_example :
    Fits ℕ judge libs registry "read_file"
      (handle_tool_call ℕ judge libs registry [] bad_read state).0
handle_tool_call-Fits_example = handle_tool_call-Fits ℕ judge libs registry [] bad_read state

bad_read_found : get ℕ registry "read_file" ≡ some reader
unfolding get?
bad_read_found = refl

-- The text is valid Python, which the third repair would read.
dispatched_malformed_example :
    handle_response ℕ judge libs registry
      (dispatched ℕ judge none (bad_read ∷ []))
      (bad_read ∷ [])
      state
    ≡ (says "validation error: 'path' is a required p\n... (truncated)" ∷ [], state)
dispatched_malformed_example =
    dispatched_malformed ℕ judge libs registry reader bad_read state "Expecting value" "1" "1"
      path_error refl bad_read_found refl refl path_invalid path_missing

bad_done_found : get ℕ registry "done" ≡ some done_tool
unfolding get?
bad_done_found = refl

nothing_repairs :
    walk_chain libs
      (default_qwen3_chain libs)
      (some "{path}")
      (dict [])
      (dict path_schema)
      path_error
    ≡ none
unfolding walk_chain diff_graph.Text.strip_end diff_graph.Text.skip_space diff_graph.Text.is_space
    diff_graph.Tools.Truncated.repair_passes diff_graph.Tools.Truncated.sub_from
    diff_graph.Tools.Truncated.empty_key diff_graph.Text.contains
nothing_repairs = refl

no_result : get? {V = Json} "c2" [] ≡ none
unfolding get?
no_result = refl

-- An agent without guards, and a world that answers as the registry does.
abbrev no_guards : AgentConfig
no_guards = record {
  name = "reviewer";
  agent_id = "a1";
  event_bus = none;
  max_steps = 5;
  guards = [];
  condensation = none;
}

abbrev clipping_world : World F
clipping_world = record world { handle = λ step seq tc s. (clip ℕ 40 malformed_text, s) }

abbrev says_done : Response
says_done = record { content = ""; tool_calls = bad_done ∷ []; usage = none }

done_malformed_example :
    let content = clip ℕ 40 malformed_text in
    (handle_tool_call ℕ judge libs registry [] bad_done state ≡ (says content, state))
    × (turn_output (
          answer_calls F clipping_world no_guards 0
            (step_context F clipping_world no_guards [] first_run)
            says_done
            first_run)
        ≡ some "{path}")
done_malformed_example =
    done_malformed ℕ judge libs registry done_tool F clipping_world no_guards 0
      (step_context F clipping_world no_guards [] first_run) says_done first_run bad_done [] state
      "Expecting value" "1" "1" path_error "{path}" refl refl no_result bad_done_found refl
      path_invalid path_missing nothing_repairs refl refl refl refl
