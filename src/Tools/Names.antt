-- ===== src/Tools/Names.antt =====
-- The tools of a run (orchestra/agent.py, `_build_tool_names`): those of the configuration that are registered, and those
-- that the front matter of the user's prompt adds.
pub mod Union
use diff_graph.Base.{
  Bool, List, Option, String, [], any, false, if◌then◌else◌, keep_if, leb, none, not, some, str_eq,
  true, ℕ, ◌&&◌, ◌++◌, ◌||◌, ◌∷◌,
}
use diff_graph.Json.{Json}
use diff_graph.Tools.{Libraries, Memory, ToolRegistry, has, register_tool_def}
use diff_graph.Tools.Meta.{MetaTexts, build_meta_tools, is_member}

-- What the front matter says of tools: the names of `extra_tools`, `tools` if it is a list, and `dispatch_mode`.
pub record Frontmatter : Type 0 where
  pub extra_tools : List String
  pub tools : Option (List String)
  pub is_meta : Bool

-- `for n in …: if n not in names: names.append(n)`.
unfoldable pub append_new : List String → List String → List String
append_new names [] = names
append_new names (n ∷ more) = append_new (if is_member n names then names else names ++ n ∷ []) more

-- `agent_spawn` is hidden from an agent at the greatest depth.
abbrev pub is_hidden : (depth max_depth : ℕ) → String → Bool
is_hidden depth max_depth name = leb max_depth depth && str_eq name "agent_spawn"

module _ (S : Type 0) (registry : ToolRegistry S) where
  abbrev pub registered : List String → List String
  registered names = keep_if (has S registry) names

  abbrev pub is_unknown : List String → String → Bool
  is_unknown pool name = not (is_member name pool) && not (has S registry name)

  -- `none` is the ValueError.
  abbrev pub joined_names : List String → List String → Option (List String) → Option (List String)
  joined_names default_names pool none = some default_names
  joined_names default_names pool (some wanted) =
      if any (is_unknown pool) wanted then none else some (append_new default_names wanted)

  abbrev pub shown_names : (depth max_depth : ℕ) → Option (List String) → Option (List String)
  shown_names depth max_depth none = none
  shown_names depth max_depth (some names) =
      some
        (if leb max_depth depth then keep_if (λ n. not (str_eq n "agent_spawn")) names else names)

  unfoldable pub native_names :
      List String → Frontmatter → (depth max_depth : ℕ) → Option (List String)
  native_names config_tools fm depth max_depth =
      let default_names = registered config_tools in
      let pool = default_names ++ registered fm.extra_tools in
      shown_names depth max_depth (joined_names default_names pool fm.tools)

  -- The texts of the two meta tools.
  pub record MetaShown : Type 0 where
    pub list_description : String
    pub call_description : String
    pub list_params : Json
    pub call_params : Json

  -- In meta dispatch the model sees the two tools, which reach the names.
  abbrev pub offer :
      Libraries
      → MetaTexts
      → MetaShown
      → Bool
      → Memory S
      → Option (List String)
      → Option (List String × ToolRegistry S × Memory S)
  offer libs words shown is_meta memory none = none
  offer libs words shown is_meta memory (some names) =
      let ((list_td, call_td), after) =
        build_meta_tools S libs words registry shown.list_description shown.call_description
          shown.list_params shown.call_params names memory in
      if is_meta
      then some (
        "list_tools" ∷ "call_tool" ∷ [],
        register_tool_def S call_td (register_tool_def S list_td registry),
        after,
      )
      else some (names, registry, memory)

  unfoldable pub build_tool_names :
      Libraries
      → MetaTexts
      → MetaShown
      → List String
      → Frontmatter
      → (depth max_depth : ℕ) → Memory S
      → Option (List String × ToolRegistry S × Memory S)
  build_tool_names libs words shown config_tools fm depth max_depth memory =
      offer libs words shown fm.is_meta memory (native_names config_tools fm depth max_depth)
