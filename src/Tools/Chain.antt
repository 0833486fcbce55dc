-- ===== src/Tools/Chain.antt =====
-- The first half of `ToolRegistry.dispatch`: the arguments are validated, a chain of handlers may repair them,
-- and a refusal is put into words.
pub mod Laws
use diff_graph.Base.{
  Bool, List, Option, String, [], false, if◌then◌else◌, is_some, none, not, or_else, some, str_eq,
  true, ◌&&◌, ◌<>◌, ◌||◌, ◌∷◌,
}
use diff_graph.Json.{Dict, Json, dict, is_truthy}
use diff_graph.Text.{contains, is_empty_text}
use diff_graph.Tools.{
  Libraries, Loaded, Proposal, RepairHandler, Verdict, breaks_down, declines, failed, invalid,
  loaded, proposes, syntax_error, valid,
}

abbrev pub located : String → String
located path = if is_empty_text path then "" else " at '" <> path <> "'"

-- An exception that is no `ValidationError` counts as no error.
abbrev pub error_of : Verdict → Option String
error_of valid = none
error_of (invalid path message) = some ("validation error" <> located path <> ": " <> message)
error_of failed = none

unfoldable pub validate_args : Libraries → Json → Json → Option String
validate_args libs args schema = error_of (libs.validate args schema)

-- `re.search` of `is a required property|required property|is required`.
unfoldable pub is_missing_required : String → Bool
is_missing_required error =
    contains error "is a required property"
    || contains error "required property"
    || contains error "is required"

-- What becomes of the arguments: they go to the handler, or a text goes back to the model.
pub data Settled : Type 0 where
  accepted : Json → Settled
  refused : String → Settled

-- `_validate_args(candidate, schema) is None`, for what a handler proposes.
abbrev pub revalidated : Libraries → Json → Proposal → Option Json
revalidated libs schema declines = none
revalidated libs schema (proposes d) =
    if is_some (validate_args libs (dict d) schema) then none else some (dict d)
revalidated libs schema breaks_down = none

-- The loop over the chain. Every handler sees the original arguments.
unfoldable pub walk_chain :
    Libraries → List RepairHandler → Option String → Json → Json → String → Option Json
walk_chain libs [] raw args schema error = none
walk_chain libs (h ∷ chain) raw args schema error =
    or_else (revalidated libs schema (h.try_repair raw args schema error))
      (walk_chain libs chain raw args schema error)

-- `raw_args or "{}"`.
abbrev pub or_braces : String → String
or_braces raw = if is_empty_text raw then "{}" else raw

abbrev pub malformed : Loaded → String → String
malformed (loaded v) error = error
malformed (syntax_error msg line column) error =
    "error: malformed JSON in arguments — " <> msg <> " (line " <> line <> " col " <> column
    <> "); re-emit the call with valid JSON"

-- The error that is surfaced: of empty arguments, that their text is no JSON, if that is so.
abbrev pub surfaced : Libraries → Option String → Json → String → String
surfaced libs none args error = error
surfaced libs (some raw) args error =
    if is_truthy args then error else malformed (libs.loads (or_braces raw)) error

abbrev pub is_empty_chain : List RepairHandler → Bool
is_empty_chain [] = true
is_empty_chain (h ∷ chain) = false

abbrev pub unless_repaired : Libraries → Option Json → Option String → Json → String → Settled
unless_repaired libs none raw args error = refused (surfaced libs raw args error)
unless_repaired libs (some candidate) raw args error = accepted candidate

abbrev pub on_error :
    Libraries → List RepairHandler → Option String → Json → Json → Option String → Settled
on_error libs chain raw args schema none = accepted args
on_error libs chain raw args schema (some error) =
    if not (is_empty_chain chain) && not (is_missing_required error)
    then refused error
    else unless_repaired libs (walk_chain libs chain raw args schema error) raw args error

unfoldable pub settle : Libraries → List RepairHandler → Option String → Json → Json → Settled
settle libs chain raw args schema =
    on_error libs chain raw args schema (validate_args libs args schema)
