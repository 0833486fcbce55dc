-- ===== src/Tools/Mocks.antt =====
-- orchestra/tool_mocks.py: canned results in place of a tool's calls. The fixture's parsing and the theorems on
-- a run of calls are in the children.
pub mod Fixture
pub mod Replay
pub mod Chosen
use diff_graph.Base.{
  Bool, List, Option, String, [], any, false, if◌then◌else◌, is_some, length, none, some, str_eq,
  suc, true, zero, ℕ, ◌&&◌, ◌++◌, ◌+◌, ◌<>◌, ◌==◌, ◌>>=◌, ◌||◌, ◌∷◌,
}
use diff_graph.Dict.{get?, has_key, set_key, without}
use diff_graph.Json.{Dict, Json, as_dict, as_str, boolean, dict, is_truthy, null, number, str}
use diff_graph.Messages.{take_chars}
use diff_graph.Tools.{Libraries, str_of}
use diff_graph.Tools.Semantic.{
  Judge, Judged, MatchResult, SemanticConfig, SemanticFixture, crashes, matched, or_default,
  semantic_match,
}

pub record MockEntry : Type 0 where
  pub when : Dict
  pub return_data : Json
  pub sticky : Bool

-- `MockExhaustedError`, by what its text says, and the other exceptions.
pub data MockError : Type 0 where
  no_mocks : String → MockError
  exhausted : String → (called listed : ℕ) → MockError
  no_match : String → MockError
  index_error : MockError
  failure : String → MockError

pub data Consumed : Type 0 where
  gives : MockEntry → Consumed
  raises : MockError → Consumed

abbrev pub no_match_stub : String
no_match_stub =
    "{\"status\":\"spawned\",\"child_id\":\"<no-match-stub>\",\"mode\":\"semantic\",\"note\":\"no fixture matched this focus\"}"

-- `entries[i]`, `none` for an `IndexError`.
unfoldable pub get_elem? {ℓ} : {A : Type ℓ} → ℕ → List A → Option A
get_elem? n [] = none
get_elem? zero (x ∷ xs) = some x
get_elem? (suc n) (x ∷ xs) = get_elem? n xs

-- `set.add`.
abbrev pub add_index : ℕ → List ℕ → List ℕ
add_index i indices = if any (λ j. j == i) indices then indices else indices ++ i ∷ []

abbrev pub canned : Json → MockEntry
canned v = record { when = []; return_data = v; sticky = true }

module _ (judge : Judge) where
  -- The consumed indices stay with their tool; a set is a list without repetitions.
  pub record ToolMocks : Type 0 where
    pub by_tool : List (String × List MockEntry)
    pub semantic_by_tool : List (String × SemanticConfig judge)
    pub source_path : String
    pub consumed : List (String × List ℕ)

  abbrev pub has : String → ToolMocks → Bool
  has name mocks = has_key name mocks.by_tool || has_key name mocks.semantic_by_tool

  abbrev pub no_fixture : SemanticConfig judge → String → Consumed
  no_fixture cfg name =
      if str_eq cfg.on_no_match "error"
      then raises (no_match name)
      else gives (canned (str no_match_stub))

  abbrev pub fixture_entry : Option SemanticFixture → Consumed
  fixture_entry none = raises index_error
  fixture_entry (some f) = gives (canned f.return_data)

  abbrev pub choose : SemanticConfig judge → String → Option ℕ → judge.Real → Consumed
  choose cfg name none confidence = no_fixture cfg name
  choose cfg name (some i) confidence =
      if judge.ge confidence cfg.threshold
      then fixture_entry (get_elem? i cfg.fixtures)
      else no_fixture cfg name

  abbrev pub on_match : SemanticConfig judge → String → Judged judge → Consumed
  on_match cfg name (crashes why) = raises (failure why)
  on_match cfg name (matched r) = choose cfg name r.index r.confidence

  -- `str(args.get(cfg.on_arg, ""))`; arguments that are no dictionary have no `get`.
  abbrev pub consume_for : Libraries → SemanticConfig judge → String → Option Dict → Consumed
  consume_for libs cfg name none = raises (failure "AttributeError")
  consume_for libs cfg name (some args) =
      let actual = str_of libs (or_default judge (str "") (get? cfg.on_arg args)) in
      on_match cfg name (semantic_match judge libs actual cfg)

  unfoldable pub consume_semantic : Libraries → SemanticConfig judge → String → Json → Consumed
  consume_semantic libs cfg name args = consume_for libs cfg name (as_dict args)

  abbrev pub put_consumed : String → List ℕ → ToolMocks → ToolMocks
  put_consumed name indices mocks = record mocks { consumed = set_key name indices mocks.consumed }

  -- The critical section: `setdefault`, the next entry, and the index, which a sticky entry does not use up.
  abbrev pub take_entry :
      String → List MockEntry → List ℕ → Option MockEntry → ToolMocks → Consumed × ToolMocks
  take_entry name entries indices none mocks = (
    raises (exhausted name (length indices + 1) (length entries)),
    put_consumed name indices mocks,
  )
  take_entry name entries indices (some e) mocks = (
    gives e,
    put_consumed name (if e.sticky then indices else add_index (length indices) indices) mocks,
  )

  abbrev pub consume_next : String → List MockEntry → ToolMocks → Consumed × ToolMocks
  consume_next name entries mocks =
      let indices = or_default judge [] (get? name mocks.consumed) in
      take_entry name entries indices (get_elem? (length indices) entries) mocks

  abbrev pub consume_ordinal : String → Option (List MockEntry) → ToolMocks → Consumed × ToolMocks
  consume_ordinal name none mocks = (raises (no_mocks name), mocks)
  consume_ordinal name (some []) mocks = (raises (no_mocks name), mocks)
  consume_ordinal name (some (e ∷ entries)) mocks = consume_next name (e ∷ entries) mocks

  abbrev pub consume_by :
      Libraries → String → Json → Option (SemanticConfig judge) → ToolMocks → Consumed × ToolMocks
  consume_by libs name args (some cfg) mocks = (consume_semantic libs cfg name args, mocks)
  consume_by libs name args none mocks = consume_ordinal name (get? name mocks.by_tool) mocks

  unfoldable pub consume : Libraries → String → Json → ToolMocks → Consumed × ToolMocks
  consume libs name args mocks = consume_by libs name args (get? name mocks.semantic_by_tool) mocks

-- What the mocked child of `agent_spawn` reports.
abbrev pub envelope : Libraries → Json → String → String → Json
envelope libs agent output sgr_summary = str (
    libs.dumps_indented (
      dict (
        ("status", str "completed")
        ∷ ("agent_id", str "mock")
        ∷ ("agent_name", agent)
        ∷ ("output", str output)
        ∷ ("sgr_summary", str sgr_summary)
        ∷ ("steps", number "0")
        ∷ ("tokens", number "0")
        ∷ ("mocked", boolean true)
        ∷ [])))

abbrev pub text_or_dump : Libraries → Json → String
text_or_dump libs v = elim (as_str v) [ none ↦ libs.dumps v | some s ↦ s ]

abbrev pub output_of : Libraries → Dict → String
output_of libs ret = elim (get? "output" ret) [
  | some out ↦ text_or_dump libs out
  | none ↦ elim (get? "findings" ret) [
    | some findings ↦ libs.dumps (dict (("findings", findings) ∷ []))
    | none ↦ libs.dumps (dict (without "sgr_summary" ret))
  ]
]

-- `str(ret.get("sgr_summary", "") or "")`.
abbrev pub given_summary : Libraries → Option Json → String
given_summary libs none = ""
given_summary libs (some v) = if is_truthy v then str_of libs v else ""

abbrev pub learned_of : Libraries → Option Json → String
learned_of libs none = "(mocked)"
learned_of libs (some v) = take_chars 300 (str_of libs v)

abbrev pub summary_of : Libraries → Dict → String
summary_of libs ret =
    let given = given_summary libs (get? "sgr_summary" ret) in
    if str_eq given ""
    then elim (get? "confidence" ret) [
      | none ↦ given
      | some confidence ↦
          "confidence="
          <> str_of libs confidence
          <> ", learned: "
          <> learned_of libs (get? "learned" ret)
    ]
    else given

abbrev pub as_mapping : Option Dict → Dict
as_mapping none = []
as_mapping (some d) = d

abbrev pub spawned : Libraries → Json → Json → Json
spawned libs content agent = elim (as_str content) [
  | some s ↦ envelope libs agent s ""
  | none ↦
      let ret = as_mapping (as_dict content) in
      envelope libs agent (output_of libs ret) (summary_of libs ret)
]

-- `str(args.get("agent", ""))`.
abbrev pub agent_of : Libraries → Dict → Json
agent_of libs args = elim (get? "agent" args) [ none ↦ str "" | some v ↦ str (str_of libs v) ]

-- `none` is the exception of arguments that are no dictionary.
unfoldable pub render_mock_result : Libraries → String → MockEntry → Json → Option Json
render_mock_result libs name entry args =
    if str_eq name "agent_spawn"
    then (as_dict args >>= λ d. some (spawned libs entry.return_data (agent_of libs d)))
    else some entry.return_data
