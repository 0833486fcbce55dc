-- ===== src/Tools/Meta.antt =====
-- Meta dispatch (orchestra/tools/meta.py): the two tools through which a model reaches the tools of a run. The set of
-- allowed names is a list; a name that the model gives is any JSON value.
pub mod Boundary
use Prim.Native.Nat.{Ordering}
use Prim.Native.String.{compare}
use diff_graph.Base.{
  Bool, List, Option, String, [], any, false, if◌then◌else◌, keep_if, map, none, not, some, str_eq,
  true, ℕ, ◌&&◌, ◌++◌, ◌<>◌, ◌||◌, ◌∷◌,
}
use diff_graph.Dict.{get?, has_key}
use diff_graph.Json.{
  Dict, Elems, Json, as_dict, as_list, as_str, dict, is_null, is_truthy, str, texts,
}
use diff_graph.Text.{contains}
use diff_graph.Tools.{
  Attempt, Function, Libraries, Loaded, Memory, ToolDef, ToolRegistry, answered, get, loaded,
  new_tool, raised, str_of, syntax_error, type_error,
}
use diff_graph.Tools.Repair.{missing_from, required_of}

-- `str.lower`, `repr` of a text, and the text of the `JSONDecodeError` that a text gives.
pub record MetaTexts : Type 0 where
  pub lower : String → String
  pub quote : String → String
  pub decode_error : String → String

abbrev pub to_elems : List Json → Elems
to_elems [] = Elems.nil
to_elems (v ∷ vs) = Elems.cons v (to_elems vs)

abbrev pub is_before : String → String → Bool
is_before a b = elim (compare a b) [ Ordering.gt ↦ false | _ ↦ true ]

abbrev pub insert_text : String → List String → List String
insert_text a [] = a ∷ []
insert_text a (b ∷ bs) =
    let rest = insert_text a bs in if is_before a b then a ∷ b ∷ bs else b ∷ rest

-- `sorted(texts)`.
unfoldable pub sort_texts : List String → List String
sort_texts [] = []
sort_texts (a ∷ rest) = insert_text a (sort_texts rest)

abbrev pub meta_error : (error detail : String) → Json
meta_error error detail = dict (("error", str error) ∷ ("detail", str detail) ∷ [])

abbrev pub meta_error_with : (error detail : String) → Json → Json
meta_error_with error detail schema =
    dict (("error", str error) ∷ ("detail", str detail) ∷ ("schema", schema) ∷ [])

-- `_missing_required`; parameters that are no dictionary have no `required`.
abbrev pub missing_required : Json → Dict → List String
missing_required parameters args = elim (as_dict parameters) [
  | none ↦ []
  | some schema ↦ missing_from args (required_of schema)
]

-- `type(v).__name__`.
abbrev pub type_name : Json → String
type_name Json.null = "NoneType"
type_name (Json.boolean b) = "bool"
type_name (Json.number r) =
    if contains r "." || contains r "e" || contains r "n" then "float" else "int"
type_name (Json.str s) = "str"
type_name (Json.array vs) = "list"
type_name (Json.object ps) = "dict"

-- The arguments: an object, or the error that is returned.
pub data Arguments : Type 0 where
  ready_args : Dict → Arguments
  refused_args : Json → Arguments

abbrev pub object_args : Json → Arguments
object_args v = elim (as_dict v) [
  | some d ↦ ready_args d
  | none ↦
      if is_null v
      then ready_args []
      else refused_args
          (meta_error "args_not_object" ("args must be an object, got " <> type_name v))
]

abbrev pub loaded_args : MetaTexts → String → Loaded → Arguments
loaded_args words text (loaded v) = object_args v
loaded_args words text (syntax_error msg line column) =
    refused_args
      (meta_error "args_not_json" ("args is not valid JSON: " <> words.decode_error text))

-- A text is read as JSON, the empty one as no arguments.
unfoldable pub read_args : Libraries → MetaTexts → Json → Arguments
read_args libs words (Json.str String.[]) = ready_args []
read_args libs words (Json.str (String.◌∷◌ c s)) =
    loaded_args words (String.◌∷◌ c s) (libs.loads (String.◌∷◌ c s))
read_args libs words Json.null = object_args Json.null
read_args libs words (Json.boolean b) = object_args (Json.boolean b)
read_args libs words (Json.number r) = object_args (Json.number r)
read_args libs words (Json.array vs) = object_args (Json.array vs)
read_args libs words (Json.object ps) = object_args (Json.object ps)

abbrev pub is_member : String → List String → Bool
is_member name names = any (str_eq name) names

abbrev pub quoted_list : Libraries → List String → String
quoted_list libs names = libs.repr (Json.array (to_elems (map str (sort_texts names))))

module _ (S : Type 0) (libs : Libraries) (words : MetaTexts) (registry : ToolRegistry S) where
  open words use {lower, quote}

  abbrev pub matches_query : ToolDef S → String → Bool
  matches_query td query =
      if str_eq query ""
      then true
      else contains (lower td.name) (lower query) || contains (lower td.description) (lower query)

  abbrev pub descriptor : ToolDef S → Json
  descriptor td = dict (
      ("name", str td.name)
      ∷ ("description", str td.description)
      ∷ ("parameters", td.parameters)
      ∷ [])

  abbrev pub describe : String → Option (ToolDef S) → List Json
  describe query none = []
  describe query (some td) = if matches_query td query then descriptor td ∷ [] else []

  abbrev pub describe_all : String → List String → List Json
  describe_all query [] = []
  describe_all query (name ∷ names) =
      describe query (get S registry name) ++ describe_all query names

  -- `_list_tools`.
  unfoldable pub list_tools : List String → String → Json
  list_tools allowed query =
      str (libs.dumps_indented (Json.array (to_elems (describe_all query (sort_texts allowed)))))

  abbrev pub not_allowed : List String → String → Json
  not_allowed allowed shown = meta_error "tool_not_allowed" (
      "tool "
      <> shown
      <> " is not in this run's allowed set. Available: "
      <> quoted_list libs allowed)

  -- A `TypeError` of the handler is an answer.
  abbrev pub answer_mismatch : ToolDef S → Attempt × S → Attempt × S
  answer_mismatch td (answered v, s) = (answered v, s)
  answer_mismatch td (type_error why, s) =
      (answered (meta_error_with "args_signature_mismatch" why td.parameters), s)
  answer_mismatch td (raised why, s) = (raised why, s)

  abbrev pub absent_args : ToolDef S → List String → Json
  absent_args td missing =
      meta_error_with "missing_required_args"
        ("required arg(s) absent: " <> libs.repr (Json.array (to_elems (map str missing))))
        td.parameters

  abbrev pub call_checked : ToolDef S → Dict → List String → S → Attempt × S
  call_checked td args [] s = answer_mismatch td (td.handler args s)
  call_checked td args (name ∷ missing) s = (answered (absent_args td (name ∷ missing)), s)

  abbrev pub call_given : ToolDef S → Arguments → S → Attempt × S
  call_given td (refused_args error) s = (answered error, s)
  call_given td (ready_args args) s = call_checked td args (missing_required td.parameters args) s

  abbrev pub call_found : String → Option (ToolDef S) → Json → S → Attempt × S
  call_found name none args s = (
    answered (
        meta_error "tool_not_registered" (
          "tool "
          <> quote name
          <> " is allowed but no handler is registered. Likely a missing extra_tools entry.")),
    s,
  )
  call_found name (some td) args s = call_given td (read_args libs words args) s

  abbrev pub call_named : List String → String → Json → S → Attempt × S
  call_named allowed name args s =
      if is_member name allowed
      then call_found name (get S registry name) args s
      else (answered (not_allowed allowed (quote name)), s)

  -- A name that is true. A list or a dictionary cannot be looked up in a set.
  abbrev pub call_truthy : List String → (name args : Json) → S → Attempt × S
  call_truthy allowed Json.null args s = (answered (not_allowed allowed (str_of libs Json.null)), s)
  call_truthy allowed (Json.boolean b) args s =
      (answered (not_allowed allowed (str_of libs (Json.boolean b))), s)
  call_truthy allowed (Json.number r) args s =
      (answered (not_allowed allowed (str_of libs (Json.number r))), s)
  call_truthy allowed (Json.str text) args s = call_named allowed text args s
  call_truthy allowed (Json.array vs) args s = (type_error "unhashable type: 'list'", s)
  call_truthy allowed (Json.object ps) args s = (type_error "unhashable type: 'dict'", s)

  -- `_call_tool`.
  unfoldable pub call_meta_tool : List String → (name args : Json) → S → Attempt × S
  call_meta_tool allowed name args s =
      if is_truthy name
      then call_truthy allowed name args s
      else (answered (meta_error "missing_name" "call_tool requires a `name` argument."), s)

  abbrev pub names_nothing : List Json → Bool
  names_nothing [] = true
  names_nothing (v ∷ vs) = false

  -- `query.lower()` of a value that is no text raises, if there is a tool to compare it with.
  abbrev pub list_by : List String → Option Json → S → Attempt × S
  list_by allowed none s = (answered (list_tools allowed ""), s)
  list_by allowed (some v) s = elim (as_str v) [
    | some query ↦ (answered (list_tools allowed query), s)
    | none ↦
        if is_truthy v && not (names_nothing (describe_all "" (sort_texts allowed)))
        then (raised "AttributeError", s)
        else (answered (list_tools allowed ""), s)
  ]

  abbrev pub given_value : Option Json → Json → Json
  given_value none default = default
  given_value (some v) default = v

  -- The two handlers with their keyword arguments; another keyword is a `TypeError`.
  abbrev pub list_handler : List String → Dict → S → Attempt × S
  list_handler allowed args s =
      if any (λ e. not (str_eq e.0 "query")) args
      then (type_error "unexpected keyword argument", s)
      else list_by allowed (get? "query" args) s

  abbrev pub call_handler_of : List String → Dict → S → Attempt × S
  call_handler_of allowed args s =
      if any (λ e. not (is_member e.0 ("name" ∷ "args" ∷ []))) args
      then (type_error "unexpected keyword argument", s)
      else call_meta_tool allowed (given_value (get? "name" args) (str ""))
          (given_value (get? "args" args) Json.null) s

  -- `build_meta_tools`, with the descriptions and the parameters that the two tools show to the model.
  unfoldable pub build_meta_tools :
      (list_description call_description : String) (list_params call_params : Json)
      → List String
      → Memory S
      → (ToolDef S × ToolDef S) × Memory S
  build_meta_tools list_description call_description list_params call_params allowed memory =
      let (list_td, memory') =
        new_tool S
          (record {
            name = "list_tools";
            description = list_description;
            parameters = list_params;
            handler = list_handler allowed;
            signature = str_eq "query";
          })
          6000 true false memory in
      let (call_td, memory'') =
        new_tool S
          (record {
            name = "call_tool";
            description = call_description;
            parameters = call_params;
            handler = call_handler_of allowed;
            signature = λ k. is_member k ("name" ∷ "args" ∷ []);
          })
          6000 true false memory' in
      ((list_td, call_td), memory'')
