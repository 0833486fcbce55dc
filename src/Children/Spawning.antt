-- ===== src/Children/Spawning.antt =====
-- The spawning of a child (orchestra/agent.py): the arguments of `agent_spawn`, its guards, and what a child takes over from
-- its parent. Of an agent there is here what these read.
pub mod Depth
pub mod Scope
use diff_graph.Base.{
  Bool, List, Option, String, [], false, if◌then◌else◌, is_some, leb, map, none, not, or_else, some,
  str_eq, true, ℕ, ◌&&◌, ◌+◌, ◌<>◌, ◌∷◌,
}
use diff_graph.Dict.{get?, has_key, set_key, update_keys}
use diff_graph.Json.{Dict, Json, as_dict, as_str, is_null, is_truthy, str}
use diff_graph.Text.{strip}
use diff_graph.Tools.{Libraries, str_of}

-- A configuration, as far as spawning reads it.
pub record SpawnConfig : Type 0 where
  pub name : String
  pub max_depth : ℕ

pub record Spawner : Type 0 where
  pub config : SpawnConfig
  pub depth : ℕ
  pub data_scope : Dict

pub record SpawnSpec : Type 0 where
  pub agent_name : String
  pub focus : Json
  pub spec_data : Dict
  pub context_handoff : Json
  pub is_async : Bool
  pub callback : Bool

-- `args.get(key, "")`.
abbrev pub arg_or_blank : String → Dict → Json
arg_or_blank key args = elim (get? key args) [ none ↦ str "" | some v ↦ v ]

-- `args.get("data", {}) or {}`; another value that is true has no `items`.
abbrev pub data_arg : Option Json → Option Dict
data_arg none = some []
data_arg (some v) = if is_truthy v then as_dict v else some []

abbrev pub is_false : Option Json → Bool
is_false none = false
is_false (some Json.null) = false
is_false (some (Json.boolean b)) = not b
is_false (some (Json.number r)) = false
is_false (some (Json.str s)) = false
is_false (some (Json.array vs)) = false
is_false (some (Json.object ps)) = false

-- `True if callback is None else bool(callback)`.
abbrev pub callback_arg : Option Json → Bool
callback_arg none = true
callback_arg (some v) = if is_null v then true else is_truthy v

-- How a call ends: one of the two errors, an exception, or a child with its specification.
pub data Spawning : Type 0 where
  unknown_agent : String → Spawning
  max_depth_reached : Spawning
  breaks_off : Spawning
  spawns_child : SpawnSpec → Spawner → Spawning

-- The compiled prompts come before the dictionary.
unfoldable pub resolve_agent_config :
    List (String × SpawnConfig) → List (String × SpawnConfig) → String → Option SpawnConfig
resolve_agent_config agent_registry agent_configs name =
    or_else (get? name agent_registry) (get? name agent_configs)

module _ (libs : Libraries) (lower : String → String) where
  -- A value that is false counts as the empty text.
  abbrev pub text_arg : Json → String
  text_arg v = if is_truthy v then str_of libs v else ""

  -- `sched`: a text that is neither empty nor `async` is no `async`; without one, `wait=False` is.
  unfoldable pub is_async_call : Dict → Bool
  is_async_call args =
      let sched = lower (strip (text_arg (arg_or_blank "sched" args))) in
      if str_eq sched "" then is_false (get? "wait" args) else str_eq sched "async"

  -- `_resolve_data_inheritance`.
  unfoldable pub resolve_data_inheritance : Dict → Dict
  resolve_data_inheritance [] = []
  resolve_data_inheritance ((key, v) ∷ items) =
      (key, str (str_of libs v)) ∷ resolve_data_inheritance items

  -- The child's `data_scope`.
  unfoldable pub resolved_data : Dict → SpawnSpec → Dict
  resolved_data scope spec =
      let merged = update_keys scope (resolve_data_inheritance spec.spec_data) in
      if is_truthy spec.focus && not (has_key "focus" merged)
      then set_key "focus" spec.focus merged
      else merged

  -- `_run_spawn`, up to the child that it builds.
  abbrev pub child_of : SpawnConfig → Spawner → SpawnSpec → Spawner
  child_of config parent spec = record {
    config = config;
    depth = parent.depth + 1;
    data_scope = resolved_data parent.data_scope spec;
  }

  abbrev pub spec_of : String → Dict → Dict → SpawnSpec
  spec_of name args data_items = record {
    agent_name = name;
    focus = arg_or_blank "focus" args;
    spec_data = data_items;
    context_handoff = arg_or_blank "context_handoff" args;
    is_async = is_async_call args;
    callback = callback_arg (get? "callback" args);
  }

  abbrev pub spawn_with : SpawnConfig → Spawner → String → Dict → Option Dict → Spawning
  spawn_with config parent name args none = breaks_off
  spawn_with config parent name args (some data_items) =
      let spec = spec_of name args data_items in spawns_child spec (child_of config parent spec)

  abbrev pub spawn_by : Option SpawnConfig → Spawner → String → Dict → Spawning
  spawn_by none parent name args = unknown_agent name
  spawn_by (some config) parent name args =
      if leb parent.config.max_depth parent.depth
      then max_depth_reached
      else spawn_with config parent name args (data_arg (get? "data" args))

  -- A name that is no text resolves to nothing.
  abbrev pub spawn_named :
      List (String × SpawnConfig)
      → List (String × SpawnConfig)
      → Spawner
      → Dict
      → Option String
      → Spawning
  spawn_named agent_registry agent_configs parent args none =
      unknown_agent (str_of libs (arg_or_blank "agent" args))
  spawn_named agent_registry agent_configs parent args (some name) =
      spawn_by (resolve_agent_config agent_registry agent_configs name) parent name args

  -- `_meta_agent_spawn` up to the child's run.
  unfoldable pub meta_agent_spawn :
      List (String × SpawnConfig) → List (String × SpawnConfig) → Spawner → Dict → Spawning
  meta_agent_spawn agent_registry agent_configs parent args =
      spawn_named agent_registry agent_configs parent args (as_str (arg_or_blank "agent" args))
