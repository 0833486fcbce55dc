-- ===== src/Agent/Guards.antt =====
-- The guards of an agent: `_check_guard` and `_check_require_tool_guards`. A guard that fires is told to the
-- model and may fire `max_retries` times in a run.
use Prim.Native.String.{len, slice}
use diff_graph.Base.{
  Bool, List, Option, String, [], any, if◌then◌else◌, leb, none, not, some, str_eq, ℕ, ◌+◌, ◌<>◌,
  ◌||◌, ◌∷◌,
}
use text.Mathlib.Text.{starts_with}

abbrev pub max_guard_retries : ℕ
max_guard_retries = 2

-- `retries.get(key, 0)` and `retries[key] = n`.
abbrev pub retries_of : String → List (String × ℕ) → ℕ
retries_of key [] = 0
retries_of key (entry ∷ retries) = if str_eq entry.0 key then entry.1 else retries_of key retries

abbrev pub set_retries : String → ℕ → List (String × ℕ) → List (String × ℕ)
set_retries key n [] = (key, n) ∷ []
set_retries key n (entry ∷ retries) =
    if str_eq entry.0 key then (entry.0, n) ∷ retries else entry ∷ set_retries key n retries

-- `key.split(":", 1)[1]` of a key that starts with `require_tool:`.
abbrev pub required_prefix : String
required_prefix = "require_tool:"

abbrev pub required_tool : String → String
required_tool key = slice key (len required_prefix) (len key)

abbrev pub is_called : String → List String → Bool
is_called name called_tools = any (str_eq name) called_tools

-- The entry of a dictionary, found by its key.
abbrev pub guard_text : String → List (String × String) → Option String
guard_text trigger [] = none
guard_text trigger (guard ∷ guards) =
    if str_eq guard.0 trigger then some guard.1 else guard_text trigger guards

-- Whether the loop goes on to the next guard.
abbrev pub passes : String → List String → List (String × ℕ) → Bool
passes key called_tools retries =
    let guard_key = required_prefix <> required_tool key in
    not (starts_with key required_prefix)
    || is_called (required_tool key) called_tools
    || leb max_guard_retries (retries_of guard_key retries)

module _ (interpolate : String → String) where
  abbrev pub fire_guard :
      String → Option String → List (String × ℕ) → Option String × List (String × ℕ)
  fire_guard trigger none retries = (none, retries)
  fire_guard trigger (some text) retries =
      if leb max_guard_retries (retries_of trigger retries)
      then (none, retries)
      else (some (interpolate text), set_retries trigger (retries_of trigger retries + 1) retries)

  abbrev pub check_guard :
      String → List (String × String) → List (String × ℕ) → Option String × List (String × ℕ)
  check_guard trigger guards retries = fire_guard trigger (guard_text trigger guards) retries

  abbrev pub check_require_tool_guards :
      List (String × String) → List String → List (String × ℕ) → Option String × List (String × ℕ)
  check_require_tool_guards [] called_tools retries = (none, retries)
  check_require_tool_guards (guard ∷ guards) called_tools retries =
      let rest = check_require_tool_guards guards called_tools retries in
      let key = required_prefix <> required_tool guard.0 in
      if passes guard.0 called_tools retries
      then rest
      else (some (interpolate guard.1), set_retries key (retries_of key retries + 1) retries)
