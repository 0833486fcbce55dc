-- ===== src/Tools/Repair.antt =====
-- orchestra/tools/arg_repair.py: the four handlers of `default_qwen3_chain`, with the repairs of
-- orchestra/tools/registry.py that they call.
pub mod Lifted
use diff_graph.Base.{
  Bool, List, Option, String, [], false, if◌then◌else◌, keep_if, none, not, or_else, some, str_eq,
  true, ◌<>◌, ◌>>=◌, ◌||◌, ◌∷◌,
}
use diff_graph.Dict.{get?, has_key, update_keys, without}
use diff_graph.Json.{Dict, Json, as_dict, as_list, as_str, is_truthy, texts}
use diff_graph.Text.{contains, ends_with, inner_chars, is_empty_text, strip, unescape_quotes}
use diff_graph.Tools.{
  Libraries, Literal, Loaded, Proposal, RepairHandler, declines, literal_dict, literal_other,
  loaded, not_literal, proposes, syntax_error,
}
use diff_graph.Tools.Truncated.{repair_truncated_json}
use text.Mathlib.Text.{starts_with}

abbrev pub repair_over_escaped_keys : String → String
repair_over_escaped_keys raw =
    if is_empty_text raw
    then raw
    else if not (contains raw "\\\"")
    then raw
    else unescape_quotes raw

-- Where the dump of the literal fails, and where there is no dictionary, the text stays.
abbrev pub dumped : String → Literal → String
dumped raw not_literal = raw
dumped raw (literal_dict none) = raw
dumped raw (literal_dict (some s)) = s
dumped raw literal_other = raw

abbrev pub repair_python_literals : Libraries → String → String
repair_python_literals libs raw =
    if is_empty_text (strip raw) then raw else dumped raw (libs.literal_eval raw)

-- `json.loads` where an exception gives nothing.
abbrev pub value_of : Loaded → Option Json
value_of (loaded v) = some v
value_of (syntax_error msg line column) = none

abbrev pub load_dict : Libraries → String → Option Dict
load_dict libs s = value_of (libs.loads s) >>= as_dict

abbrev pub proposal : Option Dict → Proposal
proposal none = declines
proposal (some d) = proposes d

-- What the three handlers of a raw text share: they want empty arguments and a text that the repair changes.
abbrev pub repair_raw : Libraries → (String → String) → Option String → Json → Proposal
repair_raw libs repair none args = declines
repair_raw libs repair (some raw) args =
    if is_truthy args || is_empty_text (strip raw)
    then declines
    else let repaired = repair raw in
      if str_eq repaired raw then declines else proposal (load_dict libs repaired)

abbrev pub truncated_json : Libraries → RepairHandler
truncated_json libs = record {
  name = "truncated_json";
  try_repair = λ raw args schema error. repair_raw libs repair_truncated_json raw args;
}

-- The test for an escaped quote comes first here; where it fails the repair changes nothing.
abbrev pub repair_escaped : Libraries → Option String → Json → Proposal
repair_escaped libs none args = declines
repair_escaped libs (some raw) args =
    if not (contains raw "\\\"")
    then declines
    else repair_raw libs repair_over_escaped_keys (some raw) args

abbrev pub over_escaped_keys : Libraries → RepairHandler
over_escaped_keys libs = record {
  name = "over_escaped_keys";
  try_repair = λ raw args schema error. repair_escaped libs raw args;
}

abbrev pub python_literals : Libraries → RepairHandler
python_literals libs = record {
  name = "python_literals";
  try_repair = λ raw args schema error. repair_raw libs (repair_python_literals libs) raw args;
}

-- `schema.get("required") or []`. A schema with another `required` is none, and does not get here.
abbrev pub required_of : Dict → List String
required_of schema = elim (get? "required" schema) [ none ↦ [] | some v ↦ texts (as_list v) ]

abbrev pub missing_from : Dict → List String → List String
missing_from args required = keep_if (λ k. not (has_key k args)) required

-- The texts that may be the object that the model meant: the value itself, or the value behind its key.
abbrev pub candidates : Libraries → String → String → List String
candidates libs key s =
    if starts_with s "{"
    then s ∷ []
    else ("{" <> libs.dumps_text key <> ": " <> s)
      ∷ ("{" <> libs.dumps_text key <> ": \"" <> unescape_quotes (inner_chars (libs.dumps_text s)))
      ∷ []

abbrev pub covers : List String → Dict → Bool
covers [] lifted = true
covers (k ∷ names) lifted = if has_key k lifted then covers names lifted else false

abbrev pub covering : List String → Option Dict → Option Dict
covering missing none = none
covering missing (some lifted) = if covers missing lifted then some lifted else none

-- The first candidate that is an object with every missing key.
abbrev pub first_lifted : Libraries → List String → List String → Option Dict
first_lifted libs missing [] = none
first_lifted libs missing (c ∷ cs) =
    or_else (covering missing (load_dict libs c)) (first_lifted libs missing cs)

abbrev pub lift_text : Libraries → List String → String → String → Option Dict
lift_text libs missing key text =
    let s = strip text in
    if not (ends_with s "}") then none else first_lifted libs missing (candidates libs key s)

abbrev pub lift_value : Libraries → List String → String → Option String → Option Dict
lift_value libs missing key none = none
lift_value libs missing key (some text) = lift_text libs missing key text

-- The arguments without the value that was lifted, and the lifted ones over them.
abbrev pub merged : Dict → String → Option Dict → Option Dict
merged args key none = none
merged args key (some lifted) = some (update_keys (without key args) lifted)

-- The loop over `args.items()`.
abbrev pub lift_from : Libraries → List String → Dict → Dict → Option Dict
lift_from libs missing args [] = none
lift_from libs missing args ((key, v) ∷ items) =
    or_else (merged args key (lift_value libs missing key (as_str v)))
      (lift_from libs missing args items)

abbrev pub lift_missing : Libraries → Dict → List String → Option Dict
lift_missing libs args [] = none
lift_missing libs args (k ∷ missing) = lift_from libs (k ∷ missing) args args

abbrev pub repair_stringified_args : Libraries → Option Dict → Option Dict → Option Dict
repair_stringified_args libs none schema = none
repair_stringified_args libs (some args) none = none
repair_stringified_args libs (some args) (some schema) =
    lift_missing libs args (missing_from args (required_of schema))

abbrev pub stringified_args : Libraries → RepairHandler
stringified_args libs = record {
  name = "stringified_args";
  try_repair = λ raw args schema error.
      if is_truthy args
      then proposal (repair_stringified_args libs (as_dict args) (as_dict schema))
      else declines;
}

abbrev pub default_qwen3_chain : Libraries → List RepairHandler
default_qwen3_chain libs =
    truncated_json libs ∷ over_escaped_keys libs ∷ python_literals libs ∷ stringified_args libs ∷ []
