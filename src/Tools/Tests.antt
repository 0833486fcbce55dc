-- ===== src/Tools/Tests.antt =====
-- Runs of the registry, the repairs and the mocks on small inputs.
use diff_graph.Base.{
  Bool-cases, List, String, [], ap, arith, false, if◌then◌else◌, inl, inr, none, refl, some, str_eq,
  subst, sym, true, ℕ, ◌+◌, ◌<>◌, ◌∷◌, ◌≡◌, ◌≤◌,
}
use diff_graph.Dict.{get?, has_key, only, set_key}
use diff_graph.Json.{Dict, Json, array, as_dict, cons, dict, nil, null, str}
use diff_graph.Text.{contains, unescape_quotes}
use diff_graph.Tools.{
  Attempt, Function, Libraries, Literal, Loaded, Memory, RepairHandler, ToolDef, ToolRegistry,
  Verdict, answered, clip, clone, get, invalid, literal_dict, loaded, not_literal, syntax_error,
  valid,
}
use diff_graph.Tools.Caching.{Dispatching, dispatch_all, dispatch_cached}
use diff_graph.Tools.Chain.{
  accepted, is_missing_required, refused, settle, validate_args, walk_chain,
}
use diff_graph.Tools.Dispatch.{Keeps, call_handler, dispatch, dispatch_keeps, returns}
use diff_graph.Tools.Repair.{
  default_qwen3_chain, missing_from, repair_over_escaped_keys, repair_stringified_args, required_of,
}
use diff_graph.Tools.Schema.{
  Parameter, a_class, annotated, infer_fields, no_fields, no_hint, not_a_class, or_none,
  parse_tool_arguments,
}
use diff_graph.Tools.Truncated.{repair_truncated_json}

-- Libraries for the tests: a few texts are JSON, and a schema asks for its required keys only.
abbrev first_missing : List String → Verdict
first_missing [] = valid
first_missing (k ∷ missing) = invalid "" ("'" <> k <> "' is a required property")

abbrev check : Json → Json → Verdict
check v schema = elim (as_dict v) [
  | none ↦ invalid "" "not of type 'object'"
  | some d ↦ elim (as_dict schema) [
    | none ↦ Verdict.failed
    | some s ↦ first_missing (missing_from d (required_of s))
  ]
]

abbrev read_text : String → Loaded
read_text s =
    if str_eq s "{}"
    then loaded (dict [])
    else if str_eq s "{\"path\": \"a\"}"
    then loaded (dict (("path", str "a") ∷ []))
    else if str_eq s "{\"path\": \"a\", \"parent\": null}"
    then loaded (dict (("path", str "a") ∷ ("parent", null) ∷ []))
    else syntax_error "Expecting value" "1" "1"

abbrev read_literal : String → Literal
read_literal s =
    if str_eq s "{\"path\": \"a\", \"parent\": None}"
    then literal_dict (some "{\"path\": \"a\", \"parent\": null}")
    else not_literal

abbrev pub libs : Libraries
libs = record {
  loads = read_text;
  dumps_text = λ s. "\"" <> s <> "\"";
  dumps_indented = λ v. "(indented)";
  dumps = λ v. "(dumped)";
  repr = λ v. "(repr)";
  literal_eval = read_literal;
  validate = check;
}

abbrev pub path_schema : Dict
path_schema = ("required", array (cons (str "path") nil)) ∷ []

-- A tool that counts its calls.
abbrev count_call : Dict → ℕ → Attempt × ℕ
count_call args s = (answered (str "read"), s + 1)

abbrev pub reader : ToolDef ℕ
reader = record {
  ident = 0;
  name = "read_file";
  description = "Read a file.";
  parameters = dict path_schema;
  handler = count_call;
  signature = λ k. str_eq k "path";
  result_limit = 40;
  is_builtin = false;
  cache = true;
}

abbrev pub done_tool : ToolDef ℕ
done_tool = record reader { ident = 1; name = "done"; cache = false; is_builtin = true }

abbrev pub registry : ToolRegistry ℕ
registry = record {
  tools = ("read_file", reader) ∷ ("done", done_tool) ∷ [];
  arg_repair_handlers = default_qwen3_chain libs;
}

abbrev pub memory : Memory ℕ
memory = record { world = 7; cached = λ i. none; next = 2 }

-- The three repairs of a text.
truncated_inner : repair_truncated_json "{\"path\": \"a\", \"parent\": }" ≡ "{\"path\": \"a\"}"
unfolding diff_graph.Tools.Truncated.repair_passes diff_graph.Tools.Truncated.sub_from
    diff_graph.Tools.Truncated.empty_key diff_graph.Text.skip_space diff_graph.Text.is_space
    diff_graph.Tools.Truncated.past_quote
truncated_inner = refl

truncated_leading : repair_truncated_json "{\"parent\": , \"path\": \"a\"}" ≡ "{\"path\": \"a\"}"
unfolding diff_graph.Tools.Truncated.repair_passes diff_graph.Tools.Truncated.sub_from
    diff_graph.Tools.Truncated.empty_key diff_graph.Text.skip_space diff_graph.Text.is_space
    diff_graph.Tools.Truncated.past_quote
truncated_leading = refl

truncated_lonely : repair_truncated_json "{\"parent\": }" ≡ "{}"
unfolding diff_graph.Tools.Truncated.repair_passes diff_graph.Tools.Truncated.sub_from
    diff_graph.Tools.Truncated.empty_key diff_graph.Text.skip_space diff_graph.Text.is_space
    diff_graph.Tools.Truncated.past_quote
truncated_lonely = refl

unescaped : repair_over_escaped_keys "{\\\"path\\\": 1}" ≡ "{\"path\": 1}"
unfolding contains diff_graph.Text.unescape_from
unescaped = refl

-- A second pass finds what the first has left of two backslashes.
unescaped_twice : repair_over_escaped_keys (repair_over_escaped_keys "\\\\\"") ≡ "\""
unfolding contains diff_graph.Text.unescape_from
unescaped_twice = refl

-- Every call of the counting tools leaves a later number.
abbrev pub Counts : ℕ → Type 0
Counts n = 7 ≤ n

pub counting : (td : ToolDef ℕ) → td.handler ≡ count_call → Keeps ℕ Counts libs td
counting td same args d s e v h = (
  subst (λ f. Counts (f d s).1) (sym same) (omega (arith, h)),
  subst (λ f. Counts (f (only td.signature d) s).1) (sym same) (omega (arith, h)),
)

-- The tools of the registry are the two.
pub found_handler :
    (name : String) (td : ToolDef ℕ) → get ℕ registry name ≡ some td → td.handler ≡ count_call
unfolding get?
found_handler name td h = elim (Bool-cases (str_eq "read_file" name)) [
  | inl e ↦ let same : reader ≡ td = ground (arith, rw e at h) in ap (λ t. t.handler) (sym same)
  | inr e ↦ elim (Bool-cases (str_eq "done" name)) [
    | inl d ↦
        let same : done_tool ≡ td = ground (arith, rw (e, d) at h) in ap (λ t. t.handler) (sym same)
    | inr d ↦ let absent : none ≡ some td = rw (e, d) at h in cc
  ]
]

dispatch_keeps_example :
    Counts
      (dispatch ℕ libs registry "read_file" (dict (("path", str "a") ∷ [])) none memory).1.world
dispatch_keeps_example =
    dispatch_keeps ℕ Counts libs registry "read_file" (dict (("path", str "a") ∷ [])) none memory
      (λ td h. counting td (found_handler "read_file" td h)) (omega arith)

abbrev pub path_error : String
path_error = "validation error: 'path' is a required property"

abbrev pub malformed_text : String
malformed_text =
    "error: malformed JSON in arguments — Expecting value (line 1 col 1); re-emit the call with valid JSON"

pub path_invalid : validate_args libs (dict []) (dict path_schema) ≡ some path_error
unfolding validate_args get?
path_invalid = refl

pub path_missing : is_missing_required path_error ≡ true
unfolding is_missing_required contains
path_missing = refl

path_refused :
    settle libs (default_qwen3_chain libs) (some "{path}") (dict []) (dict path_schema)
    ≡ refused malformed_text
unfolding settle validate_args get? is_missing_required contains walk_chain
    diff_graph.Text.strip_end diff_graph.Text.skip_space diff_graph.Text.is_space
    diff_graph.Tools.Truncated.repair_passes diff_graph.Tools.Truncated.sub_from
    diff_graph.Tools.Truncated.empty_key
path_refused = refl

path_accepted :
    settle libs (default_qwen3_chain libs) none (dict (("path", str "a") ∷ [])) (dict path_schema)
    ≡ accepted (dict (("path", str "a") ∷ []))
unfolding settle validate_args get?
path_accepted = refl

pub reader_found : get ℕ registry "read_file" ≡ some reader
unfolding get?
reader_found = refl

read_answer : (call_handler ℕ reader (dict (("path", str "a") ∷ [])) 7).0 ≡ answered (str "read")
unfolding call_handler
read_answer = refl

-- The path packed into another argument's text.
abbrev packed : Dict
packed = ("text", str "{\"path\": \"a\"}") ∷ []

packed_repaired :
    repair_stringified_args libs (some packed) (some path_schema) ≡ some (("path", str "a") ∷ [])
unfolding get? diff_graph.Text.ends_with diff_graph.Text.strip_end diff_graph.Text.skip_space
    diff_graph.Text.is_space diff_graph.Dict.update_keys set_key diff_graph.Dict.without
packed_repaired = refl

-- Neither the empty arguments nor a text without a repair give a path.
abbrev reading : Dispatching ℕ
reading = record {
  registry = registry;
  name = "read_file";
  args = dict (("path", str "a") ∷ []);
  raw = none;
}

-- The second call, by a clone, is answered from the cache, with a call of `done` in between.
dispatch_cached_example :
    let after = dispatch_all ℕ libs (reading ∷ record reading { name = "done" } ∷ []) memory in
    dispatch ℕ libs (clone ℕ registry) "read_file" (dict (("path", str "a") ∷ [])) none after
    ≡ (returns (str "read"), after)
dispatch_cached_example =
    dispatch_cached ℕ libs reading (record reading { registry = clone ℕ registry })
      (record reading { name = "done" } ∷ []) reader (dict (("path", str "a") ∷ []))
      (dict (("path", str "a") ∷ [])) (str "read") memory refl refl reader_found reader_found
      path_accepted path_accepted read_answer

-- `def read(self, path: str, lines: list[str], start: Optional[int], end: int = 0)`.
abbrev params : List Parameter
params =
    record { name = "self"; hint = no_hint; has_default = false }
    ∷ record { name = "path"; hint = annotated (a_class "str"); has_default = false }
    ∷ record { name = "lines"; hint = annotated not_a_class; has_default = false }
    ∷ record { name = "start"; hint = or_none (a_class "int" ∷ []); has_default = false }
    ∷ record { name = "end"; hint = annotated (a_class "int"); has_default = true }
    ∷ []

-- A parameter that is annotated with `list[str]` is described as a text.
lines_type :
    get? "lines" (infer_fields params no_fields).properties
    ≡ some (dict (("type", str "string") ∷ []))
unfolding get? set_key
lines_type = refl

python_arguments :
    parse_tool_arguments libs true "{\"path\": \"a\", \"parent\": None}"
    ≡ ("path", str "a") ∷ ("parent", null) ∷ []
unfolding parse_tool_arguments diff_graph.Tools.Truncated.repair_passes
    diff_graph.Tools.Truncated.sub_from diff_graph.Tools.Truncated.empty_key
    diff_graph.Text.skip_space diff_graph.Text.is_space diff_graph.Tools.Truncated.past_quote
    contains diff_graph.Text.strip_end
python_arguments = refl
