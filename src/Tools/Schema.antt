-- ===== src/Tools/Schema.antt =====
-- How the registry comes by its tools' schemas: `_infer_schema`, `_yaml_params_to_schema`,
-- `register_from_yaml`, the constructor, and `_parse_tool_arguments`.
pub mod WellFormed
use diff_graph.Base.{
  Bool, List, Option, String, [], false, if◌then◌else◌, map, none, not, or_else, some, str_eq, true,
  ℕ, ◌&&◌, ◌++◌, ◌+◌, ◌<>◌, ◌>>=◌, ◌||◌, ◌∷◌,
}
use diff_graph.Dict.{get?, set_key}
use diff_graph.Json.{Dict, Elems, Json, array, as_dict, cons, dict, is_truthy, nil, str}
use diff_graph.Text.{is_empty_text}
use diff_graph.Tools.{
  Attempt, Function, Libraries, Loaded, Memory, RepairHandler, ToolDef, ToolRegistry, answered,
  loaded, new_tool, register_tool_def, str_of, syntax_error,
}
use diff_graph.Tools.Chain.{or_braces}
use diff_graph.Tools.Repair.{
  default_qwen3_chain, load_dict, repair_over_escaped_keys, repair_python_literals,
}
use diff_graph.Tools.Truncated.{repair_truncated_json}

-- An annotation: a class by its name, or another one such as `list[str]`.
pub data Annotation : Type 0 where
  a_class : String → Annotation
  not_a_class : Annotation

-- What `get_type_hints` gives for a parameter; a union with None has the other members.
pub data Hint : Type 0 where
  no_hint : Hint
  annotated : Annotation → Hint
  or_none : List Annotation → Hint

pub record Parameter : Type 0 where
  pub name : String
  pub hint : Hint
  pub has_default : Bool

-- `_TYPE_MAP.get(hint, "string")`.
abbrev pub class_type : String → String
class_type c =
    if str_eq c "int"
    then "integer"
    else if str_eq c "float"
    then "number"
    else if str_eq c "bool"
    then "boolean"
    else if str_eq c "list"
    then "array"
    else if str_eq c "dict"
    then "object"
    else "string"

abbrev pub annotation_type : Annotation → String
annotation_type (a_class c) = class_type c
annotation_type not_a_class = "string"

abbrev pub json_type : Hint → String
json_type no_hint = "string"
json_type (annotated a) = annotation_type a
json_type (or_none []) = "string"
json_type (or_none (a ∷ more)) = annotation_type a

abbrev pub allows_none : Hint → Bool
allows_none no_hint = false
allows_none (annotated a) = false
allows_none (or_none more) = true

-- The two dictionaries that the loops over the parameters fill.
pub record Fields : Type 0 where
  pub properties : Dict
  pub required : List String

abbrev pub add_required : Bool → String → List String → List String
add_required is_required name names = if is_required then names ++ name ∷ [] else names

abbrev pub add_field : String → Dict → Bool → Fields → Fields
add_field name property is_required fields = record {
  properties = set_key name (dict property) fields.properties;
  required = add_required is_required name fields.required;
}

abbrev pub is_self : String → Bool
is_self name = str_eq name "self" || str_eq name "cls"

abbrev pub infer_parameter : Parameter → Fields → Fields
infer_parameter p fields =
    if is_self p.name
    then fields
    else add_field p.name (("type", str (json_type p.hint)) ∷ [])
        (not (allows_none p.hint || p.has_default)) fields

abbrev pub infer_fields : List Parameter → Fields → Fields
infer_fields [] fields = fields
infer_fields (p ∷ ps) fields = infer_fields ps (infer_parameter p fields)

abbrev pub no_fields : Fields
no_fields = record { properties = []; required = [] }

abbrev pub to_elems : List String → Elems
to_elems [] = nil
to_elems (s ∷ names) = cons (str s) (to_elems names)

-- `if required: schema["required"] = required`.
abbrev pub required_entry : List String → Dict
required_entry [] = []
required_entry (k ∷ names) = ("required", array (to_elems (k ∷ names))) ∷ []

abbrev pub schema_of : Fields → Dict
schema_of fields =
    ("type", str "object") ∷ ("properties", dict fields.properties) ∷ required_entry fields.required

unfoldable pub infer_schema : List Parameter → Dict
infer_schema params = schema_of (infer_fields params no_fields)

-- `if pconf.get(key): prop[key] = pconf[key]`.
abbrev pub given_entry : String → Dict → Dict
given_entry key pconf = elim (get? key pconf) [
  | none ↦ []
  | some v ↦ if is_truthy v then (key, v) ∷ [] else []
]

abbrev pub is_given : String → Dict → Bool
is_given key pconf = elim (get? key pconf) [ none ↦ false | some v ↦ is_truthy v ]

abbrev pub or_value : Json → Option Json → Json
or_value default none = default
or_value default (some v) = v

abbrev pub yaml_property : Dict → Dict
yaml_property pconf =
    ("type", or_value (str "string") (get? "type" pconf)) ∷ given_entry "description" pconf
    ++ given_entry "enum" pconf

abbrev pub yaml_parameter : String → Option Dict → Fields → Fields
yaml_parameter name none fields = add_field name (("type", str "string") ∷ []) false fields
yaml_parameter name (some pconf) fields =
    add_field name (yaml_property pconf) (is_given "required" pconf) fields

abbrev pub yaml_fields : Dict → Fields → Fields
yaml_fields [] fields = fields
yaml_fields ((name, v) ∷ params) fields =
    yaml_fields params (yaml_parameter name (as_dict v) fields)

unfoldable pub yaml_params_to_schema : Dict → Dict
yaml_params_to_schema params = schema_of (yaml_fields params no_fields)

module _ (S : Type 0) where
  abbrev pub noop_handler : Dict → S → Attempt × S
  noop_handler args s = (answered (str "(no handler configured)"), s)

  -- A handler by its dotted path, with the names of its parameters.
  abbrev pub Imported : Type 0
  Imported = (Dict → S → Attempt × S) × (String → Bool)

  abbrev pub imported : Libraries → (String → Option Imported) → Json → Option Imported
  imported libs import path =
      if is_truthy path
      then import (str_of libs path)
      else some (noop_handler, λ k. str_eq k "kwargs")

  -- The entry of a tool: a dictionary, whose `parameters` are one, and a limit.
  pub record ToolConfig : Type 0 where
    pub handler : Json
    pub description : Option String
    pub parameters : Dict
    pub result_limit : Option ℕ

  abbrev pub or_given {ℓ} : {A : Type ℓ} → A → Option A → A
  or_given default none = default
  or_given default (some a) = a

  abbrev pub yaml_tool : String → ToolConfig → Imported → ℕ → ToolDef S
  yaml_tool name tconf (handler, signature) ident = record {
    ident = ident;
    name = name;
    description = or_given name tconf.description;
    parameters = dict (yaml_params_to_schema tconf.parameters);
    handler = handler;
    signature = signature;
    result_limit = or_given 6000 tconf.result_limit;
    is_builtin = false;
    cache = false;
  }

  -- The loop over the configuration; an import that raises ends it, and the tools before it stay.
  abbrev pub register_from_yaml :
      Libraries
      → (String → Option Imported)
      → List (String × ToolConfig)
      → ToolRegistry S
      → Memory S
      → ToolRegistry S × Memory S
  register_from_yaml libs import [] registry memory = (registry, memory)
  register_from_yaml libs import ((name, tconf) ∷ config) registry memory =
      elim (imported libs import tconf.handler) [
        | none ↦ (registry, memory)
        | some found ↦
            register_from_yaml libs import config
              (register_tool_def S (yaml_tool name tconf found memory.next) registry)
              (record memory { next = memory.next + 1 })
      ]

  abbrev pub chosen_chain : Libraries → Bool → Option (List RepairHandler) → List RepairHandler
  chosen_chain libs fix (some handlers) = handlers
  chosen_chain libs fix none = if fix then default_qwen3_chain libs else []

  -- `ToolRegistry.__init__`.
  abbrev pub new_registry : Libraries → Bool → Option (List RepairHandler) → ToolRegistry S
  new_registry libs fix handlers = record {
    tools = [];
    arg_repair_handlers = chosen_chain libs fix handlers;
  }

-- One repair of `_parse_tool_arguments`, on the original text.
abbrev pub repaired_dict : Libraries → (String → String) → String → Option Dict
repaired_dict libs repair s =
    let repaired = repair s in if str_eq repaired s then none else load_dict libs repaired

abbrev pub object_or_empty : Option Dict → Dict
object_or_empty none = []
object_or_empty (some d) = d

abbrev pub parse_loaded : Libraries → Bool → String → Loaded → Dict
parse_loaded libs fix s (loaded v) = object_or_empty (as_dict v)
parse_loaded libs fix s (syntax_error msg line column) =
    if fix
    then object_or_empty (
        or_else (repaired_dict libs repair_truncated_json s) (
          or_else (repaired_dict libs repair_over_escaped_keys s)
            (repaired_dict libs (repair_python_literals libs) s)))
    else []

unfoldable pub parse_tool_arguments : Libraries → Bool → String → Dict
parse_tool_arguments libs fix raw = let s = or_braces raw in parse_loaded libs fix s (libs.loads s)
