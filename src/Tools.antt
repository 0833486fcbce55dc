-- ===== src/Tools.antt =====
-- The tools of an agent (orchestra/tools/registry.py): `ToolDef` and `ToolRegistry`. The repairs of arguments,
-- the dispatch and the mocks (orchestra/tool_mocks.py) are in the children.
--
-- A handler is not under the source's control: it is a function of the keyword arguments and of `S`, all that
-- handlers read and write. A `ToolDef` is an object that a clone of the registry shares, so the two cache fields
-- are kept by its identity, in `Memory`.
pub mod Truncated
pub mod Repair
pub mod Chain
pub mod Dispatch
pub mod Schema
pub mod Caching
pub mod Mocks
pub mod Semantic
pub mod Calls
pub mod Meta
pub mod Names
pub mod Tests
mod MockTests
mod MetaTests
use Prim.Native.Char.{Char}
use diff_graph.Base.{
  Bool, List, Option, String, [], if◌then◌else◌, is_some, ltb, map, none, some, str_eq, ℕ, ◌+◌,
  ◌<>◌, ◌==◌, ◌∷◌,
}
use diff_graph.Dict.{get?, keys, set_key}
use diff_graph.Json.{Dict, Json, as_str, dict, props, str}
use diff_graph.Messages.{take_chars}
use diff_graph.Text.{chars}

-- How `json.loads` leaves: a value, or a `JSONDecodeError` with its message, line and column.
pub data Loaded : Type 0 where
  loaded : Json → Loaded
  syntax_error : (msg line column : String) → Loaded

-- What `ast.literal_eval` makes of a text, and for a dictionary what `json.dumps` gives, `none` for an exception.
pub data Literal : Type 0 where
  not_literal : Literal
  literal_dict : Option String → Literal
  literal_other : Literal

-- What `jsonschema.validate` says: a `ValidationError` has its path, joined by dots, and its message; any other
-- exception is a schema that is none, or a missing library.
pub data Verdict : Type 0 where
  valid : Verdict
  invalid : (path message : String) → Verdict
  failed : Verdict

-- The libraries that the tools call.
pub record Libraries : Type 0 where
  pub loads : String → Loaded
  -- `json.dumps` of a text.
  pub dumps_text : String → String
  -- `json.dumps(v, ensure_ascii=False, indent=2)`.
  pub dumps_indented : Json → String
  -- `json.dumps(v, ensure_ascii=False)`.
  pub dumps : Json → String
  -- `str(v)` of a list or a dictionary.
  pub repr : Json → String
  pub literal_eval : String → Literal
  pub validate : Json → Json → Verdict

-- How a handler ends: with a result, a `TypeError`, or another exception.
pub data Attempt : Type 0 where
  answered : Json → Attempt
  type_error : String → Attempt
  raised : String → Attempt

-- A proposal of an argument-repair handler: none, arguments, or an exception.
pub data Proposal : Type 0 where
  declines : Proposal
  proposes : Dict → Proposal
  breaks_down : Proposal

-- `ArgRepairHandler`: the raw text, the arguments, the schema and the error.
pub record RepairHandler : Type 0 where
  pub name : String
  pub try_repair : Option String → Json → Json → String → Proposal

module _ (S : Type 0) where
  pub record ToolDef : Type 0 where
    -- The object's identity.
    pub ident : ℕ
    pub name : String
    pub description : String
    pub parameters : Json
    pub handler : Dict → S → Attempt × S
    -- The names of the handler's parameters, as `inspect.signature` gives them.
    pub signature : String → Bool
    pub result_limit : ℕ
    pub is_builtin : Bool
    pub cache : Bool

  pub record ToolRegistry : Type 0 where
    pub tools : List (String × ToolDef)
    pub arg_repair_handlers : List RepairHandler

  -- The handlers' world, the cached results by the identity of their tool, and the next identity.
  pub record Memory : Type 0 where
    pub world : S
    pub cached : ℕ → Option Json
    pub next : ℕ

  -- What `register` reads of a function and its options: `name or func.__name__`, the description and the
  -- parameters, inferred where they are not given.
  pub record Function : Type 0 where
    pub name : String
    pub description : String
    pub parameters : Json
    pub handler : Dict → S → Attempt × S
    pub signature : String → Bool

  -- A new object, whose cache is empty.
  abbrev pub new_tool : Function → ℕ → (is_builtin cache : Bool) → Memory → ToolDef × Memory
  new_tool fn limit is_builtin cache memory = (
    record {
      ident = memory.next;
      name = fn.name;
      description = fn.description;
      parameters = fn.parameters;
      handler = fn.handler;
      signature = fn.signature;
      result_limit = limit;
      is_builtin = is_builtin;
      cache = cache;
    },
    record memory { next = memory.next + 1 },
  )

  abbrev pub register_tool_def : ToolDef → ToolRegistry → ToolRegistry
  register_tool_def td registry = record registry { tools = set_key td.name td registry.tools }

  abbrev pub register :
      Function → ℕ → (is_builtin cache : Bool) → ToolRegistry → Memory → ToolRegistry × Memory
  register fn limit is_builtin cache registry memory =
      let (td, after) = new_tool fn limit is_builtin cache memory in
      (register_tool_def td registry, after)

  -- `_capture`: the arguments come back.
  abbrev pub capture : Dict → S → Attempt × S
  capture args s = (answered (dict (("status", str "received") ∷ ("args", dict args) ∷ [])), s)

  abbrev pub register_capture_tool :
      (name description : String) → Json → ToolRegistry → Memory → ToolRegistry × Memory
  register_capture_tool name description parameters registry memory =
      register
        (record {
          name = name;
          description = description;
          parameters = parameters;
          handler = capture;
          signature = λ k. str_eq k "args";
        })
        6000 Bool.false Bool.false registry memory

  abbrev pub get : ToolRegistry → String → Option ToolDef
  get registry name = get? name registry.tools

  abbrev pub has : ToolRegistry → String → Bool
  has registry name = is_some (get registry name)

  abbrev pub names : ToolRegistry → List String
  names registry = keys registry.tools

  abbrev add_tool : Option ToolDef → List ToolDef → List ToolDef
  add_tool none tds = tds
  add_tool (some td) tds = td ∷ tds

  abbrev pub get_many : ToolRegistry → List String → List ToolDef
  get_many registry [] = []
  get_many registry (name ∷ wanted) = add_tool (get registry name) (get_many registry wanted)

  -- The registry's tools and handlers in a registry of its own.
  abbrev pub clone : ToolRegistry → ToolRegistry
  clone registry = record {
    tools = registry.tools;
    arg_repair_handlers = registry.arg_repair_handlers;
  }

  abbrev function_schema : ToolDef → Json
  function_schema td = dict (
      ("type", str "function")
      ∷ (
        "function",
        dict (
            ("name", str td.name)
            ∷ ("description", str td.description)
            ∷ ("parameters", td.parameters)
            ∷ []),
      )
      ∷ [])

  abbrev pub to_openai_schema : ToolRegistry → List String → List Json
  to_openai_schema registry wanted = map function_schema (get_many registry wanted)

  abbrev pub limit_of : Option ToolDef → ℕ
  limit_of none = 6000
  limit_of (some td) = td.result_limit

  -- `text[:limit] + "\n... (truncated)"` where the text is longer.
  abbrev pub clip : ℕ → String → String
  clip limit text =
      if ltb limit (chars text) then take_chars limit text <> "\n... (truncated)" else text

-- `str(v)`, with a text for a list or a dictionary.
abbrev pub shown_text : (Json → String) → Json → String
shown_text dump Json.null = "None"
shown_text dump (Json.boolean Bool.true) = "True"
shown_text dump (Json.boolean Bool.false) = "False"
shown_text dump (Json.number r) = r
shown_text dump (Json.str s) = s
shown_text dump (Json.array vs) = dump (Json.array vs)
shown_text dump (Json.object ps) = dump (Json.object ps)

-- The dump of a list or a dictionary, and `str(v)` of any other value.
abbrev pub render : Libraries → Json → String
render libs v = shown_text libs.dumps_indented v

abbrev pub str_of : Libraries → Json → String
str_of libs v = shown_text libs.repr v

module _ (S : Type 0) where
  abbrev pub format_result : Libraries → ToolRegistry S → String → Json → String
  format_result libs registry name result =
      clip S (limit_of S (get S registry name)) (render libs result)
