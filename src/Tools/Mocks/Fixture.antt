-- ===== src/Tools/Mocks/Fixture.antt =====
-- `ToolMocks.from_dict` and `_parse_semantic_block`: a fixture, as YAML gives it, becomes the mocks.
pub mod Keys
use diff_graph.Base.{
  Bool, List, Option, String, [], false, if◌then◌else◌, map, none, not, some, str_eq, true, ℕ, ◌&&◌,
  ◌+◌, ◌||◌, ◌∷◌,
}
use diff_graph.Dict.{get?, set_key}
use diff_graph.Json.{Dict, Json, Props, as_dict, as_list, as_str, dict, elems, is_truthy, str}
use diff_graph.Tools.{Libraries, str_of}
use diff_graph.Tools.Mocks.{MockEntry, ToolMocks, canned}
use diff_graph.Tools.Semantic.{Judge, SemanticConfig, SemanticFixture, or_default}

-- A `ValueError`, by what its text says, and that of `float`.
pub data FixtureError : Type 0 where
  not_entries match_not_mapping no_fixtures bad_no_match bad_threshold : String → FixtureError
  entry_not_mapping entry_without_return : String → ℕ → FixtureError
  fixture_not_mapping no_examples fixture_without_return : String → ℕ → FixtureError

pub data Parsing {ℓ} (A : Type ℓ) : Type ℓ where
  parsed : A → Parsing A
  value_error : FixtureError → Parsing A

infixl 40 ◌>>=◌
abbrev pub ◌>>=◌ {ℓ κ} : {A : Type ℓ} {B : Type κ} → Parsing A → (A → Parsing B) → Parsing B
(parsed a) >>= f = f a
(value_error e) >>= f = value_error e

-- A test that raises where there is nothing.
abbrev pub required {ℓ} : {A : Type ℓ} → FixtureError → Option A → Parsing A
required error none = value_error error
required error (some a) = parsed a

-- `v or default`.
abbrev pub or_else_value : Json → Option Json → Json
or_else_value default none = default
or_else_value default (some v) = if is_truthy v then v else default

-- `isinstance(v, list)`, with the elements.
abbrev pub list_of : Json → Option (List Json)
list_of Json.null = none
list_of (Json.boolean b) = none
list_of (Json.number r) = none
list_of (Json.str s) = none
list_of (Json.array vs) = some (elems vs)
list_of (Json.object ps) = none

abbrev pub nonempty : Option (List Json) → Option (List Json)
nonempty none = none
nonempty (some []) = none
nonempty (some (v ∷ vs)) = some (v ∷ vs)

abbrev pub empty_list : Json
empty_list = Json.array diff_graph.Json.nil

abbrev pub capture_stub : String
capture_stub = "{\"status\":\"spawned\",\"child_id\":\"<test-stub>\",\"mode\":\"capture_only\"}"

module _ (judge : Judge) (libs : Libraries) where
  -- The entries of a tool, in one of the two maps.
  pub data Mock : Type 0 where
    ordinal : List MockEntry → Mock
    semantic : SemanticConfig judge → Mock

  -- `{examples: […], return: …}`.
  abbrev pub parse_semantic_fixture : String → ℕ → Json → Parsing SemanticFixture
  parse_semantic_fixture name i v = do
    fx ← required (fixture_not_mapping name i) (as_dict v)
    examples ←
        required (no_examples name i)
          (nonempty (list_of (or_else_value empty_list (get? "examples" fx))))
    result ← required (fixture_without_return name i) (get? "return" fx)
    parsed (record { examples = map (str_of libs) examples; return_data = result })

  abbrev pub parse_semantic_fixtures : String → ℕ → List Json → Parsing (List SemanticFixture)
  parse_semantic_fixtures name i [] = parsed []
  parse_semantic_fixtures name i (v ∷ vs) = do
    fixture ← parse_semantic_fixture name i v
    fixtures ← parse_semantic_fixtures name (i + 1) vs
    parsed (fixture ∷ fixtures)

  -- `str(d.get(key, default))`.
  abbrev pub text_at : String → String → Dict → String
  text_at key default d = str_of libs (or_default judge (str default) (get? key d))

  abbrev pub check_no_match : String → String → Parsing String
  check_no_match name on_no_match =
      if str_eq on_no_match "stub" || str_eq on_no_match "error"
      then parsed on_no_match
      else value_error (bad_no_match name)

  abbrev pub threshold_at : Option Json → Option judge.Real
  threshold_at none = some judge.default_threshold
  threshold_at (some v) = judge.float_of v

  abbrev pub model_at : Option Json → Option String
  model_at none = none
  model_at (some v) = as_str v

  unfoldable pub parse_semantic_block : String → Dict → Parsing (SemanticConfig judge)
  parse_semantic_block name raw = do
    spec ← required (match_not_mapping name) (as_dict (or_else_value (dict []) (get? "match" raw)))
    raw_fixtures ←
        required (no_fixtures name)
          (nonempty (list_of (or_else_value empty_list (get? "fixtures" raw))))
    fixtures ← parse_semantic_fixtures name 0 raw_fixtures
    on_no_match ← check_no_match name (text_at "on_no_match" "stub" spec)
    threshold ← required (bad_threshold name) (threshold_at (get? "threshold" spec))
    parsed (record {
      strategy = text_at "strategy" "llm_judge" spec;
      fixtures = fixtures;
      model = model_at (get? "model" spec);
      on_arg = text_at "on_arg" "focus" spec;
      threshold = threshold;
      on_no_match = on_no_match;
    })

  -- `bool(entry.get("sticky", False))`.
  abbrev pub sticky_at : Option Json → Bool
  sticky_at none = false
  sticky_at (some v) = is_truthy v

  abbrev pub parse_entry : String → ℕ → Json → Parsing MockEntry
  parse_entry name i v = do
    entry ← required (entry_not_mapping name i) (as_dict v)
    result ← required (entry_without_return name i) (get? "return" entry)
    parsed (record { when = []; return_data = result; sticky = sticky_at (get? "sticky" entry) })

  abbrev pub parse_entries : String → ℕ → List Json → Parsing (List MockEntry)
  parse_entries name i [] = parsed []
  parse_entries name i (v ∷ vs) = do
    entry ← parse_entry name i v
    entries ← parse_entries name (i + 1) vs
    parsed (entry ∷ entries)

  abbrev pub text_value : Option Json → Option String
  text_value none = none
  text_value (some v) = as_str v

  abbrev pub has_mode : String → Dict → Bool
  has_mode mode raw = elim (text_value (get? "mode" raw)) [ none ↦ false | some s ↦ str_eq s mode ]

  abbrev pub parse_mapping : String → Dict → Parsing Mock
  parse_mapping name raw =
      if has_mode "capture_only" raw
      then parsed (ordinal (canned (str capture_stub) ∷ []))
      else if has_mode "semantic" raw
      then (parse_semantic_block name raw >>= λ cfg. parsed (semantic cfg))
      else value_error (not_entries name)

  -- The body of the loop over the fixture's items.
  abbrev pub parse_tool : String → Json → Parsing Mock
  parse_tool name (Json.str s) = parsed (ordinal (canned (str s) ∷ []))
  parse_tool name (Json.object ps) = parse_mapping name (diff_graph.Json.props ps)
  parse_tool name (Json.array vs) =
      parse_entries name 0 (elems vs) >>= λ entries. parsed (ordinal entries)
  parse_tool name Json.null = value_error (not_entries name)
  parse_tool name (Json.boolean b) = value_error (not_entries name)
  parse_tool name (Json.number r) = value_error (not_entries name)

  abbrev pub put_mock : String → Mock → ToolMocks judge → ToolMocks judge
  put_mock name (ordinal entries) mocks = record mocks {
    by_tool = set_key name entries mocks.by_tool;
  }
  put_mock name (semantic cfg) mocks = record mocks {
    semantic_by_tool = set_key name cfg mocks.semantic_by_tool;
  }

  unfoldable pub from_items : Dict → ToolMocks judge → Parsing (ToolMocks judge)
  from_items [] mocks = parsed mocks
  from_items ((name, v) ∷ items) mocks = do
    mock ← parse_tool name v
    from_items items (put_mock name mock mocks)

  unfoldable pub from_dict : Dict → String → Parsing (ToolMocks judge)
  from_dict fixture source_path =
      from_items fixture
        (record { by_tool = []; semantic_by_tool = []; source_path = source_path; consumed = [] })
