-- ===== src/Tools/Dispatch.antt =====
-- `ToolRegistry.dispatch`: the handler is called with the settled arguments, and its result may be cached.
use diff_graph.Base.{
  Option, String, false, if◌then◌else◌, none, refl, some, true, ℕ, ◌<>◌, ◌==◌, ◌≡◌,
}
use diff_graph.Dict.{only}
use diff_graph.Json.{Dict, Json, as_dict, str}
use diff_graph.Tools.{
  Attempt, Libraries, Memory, ToolDef, ToolRegistry, answered, get, raised, type_error,
}
use diff_graph.Tools.Chain.{Settled, accepted, refused, settle, validate_args}
use diff_graph.Tools.Chain.Laws.{settle_valid}

-- How `dispatch` leaves: with a value, or with an exception.
pub data Reply : Type 0 where
  returns : Json → Reply
  raises : String → Reply

module _ (S : Type 0) where
  -- After a `TypeError` the handler is called again, with the arguments that it names.
  abbrev pub call_again : ToolDef S → Dict → Attempt × S → Attempt × S
  call_again td args (answered v, s) = (answered v, s)
  call_again td args (type_error why, s) = td.handler (only td.signature args) s
  call_again td args (raised why, s) = (raised why, s)

  -- A value that is no dictionary has no `**args` and no `args.items()`.
  abbrev pub call_with : ToolDef S → Option Dict → S → Attempt × S
  call_with td none s = (raised "AttributeError", s)
  call_with td (some args) s = call_again td args (td.handler args s)

  unfoldable pub call_handler : ToolDef S → Json → S → Attempt × S
  call_handler td args s = call_with td (as_dict args) s

  abbrev pub reply_of : Attempt → Reply
  reply_of (answered v) = returns v
  reply_of (type_error why) = raises why
  reply_of (raised why) = raises why

  abbrev pub cache_at : ℕ → Json → (ℕ → Option Json) → ℕ → Option Json
  cache_at ident v cached i = if ident == i then some v else cached i

  -- `if td.cache: td._cached_result = result; td._cache_hit = True`.
  abbrev pub keep_result : ToolDef S → Attempt → Memory S → Memory S
  keep_result td (answered v) memory =
      if td.cache then record memory { cached = cache_at td.ident v memory.cached } else memory
  keep_result td (type_error why) memory = memory
  keep_result td (raised why) memory = memory

  abbrev pub call_anew : ToolDef S → Json → Memory S → Reply × Memory S
  call_anew td args memory =
      let (attempt, s) = call_handler td args memory.world in
      (reply_of attempt, keep_result td attempt (record memory { world = s }))

  abbrev pub hit : ToolDef S → Memory S → Option Json
  hit td memory = if td.cache then memory.cached td.ident else none

  abbrev pub or_cached : Option Json → Reply × Memory S → Memory S → Reply × Memory S
  or_cached none anew memory = anew
  or_cached (some v) anew memory = (returns v, memory)

  abbrev pub call_tool : ToolDef S → Settled → Memory S → Reply × Memory S
  call_tool td (accepted args) memory = or_cached (hit td memory) (call_anew td args memory) memory
  call_tool td (refused text) memory = (returns (str text), memory)

  abbrev pub dispatch_to :
      Libraries
      → ToolRegistry S
      → String
      → Json
      → Option String
      → Memory S
      → Option (ToolDef S)
      → Reply × Memory S
  dispatch_to libs registry name args raw memory none =
      (returns (str ("unknown tool: " <> name)), memory)
  dispatch_to libs registry name args raw memory (some td) =
      call_tool td (settle libs registry.arg_repair_handlers raw args td.parameters) memory

  unfoldable pub dispatch :
      Libraries → ToolRegistry S → String → Json → Option String → Memory S → Reply × Memory S
  dispatch libs registry name args raw memory =
      dispatch_to libs registry name args raw memory (get S registry name)

  -- `call_data_provider`.
  abbrev pub call_data_provider :
      Libraries → ToolRegistry S → String → Json → Memory S → Reply × Memory S
  call_data_provider libs registry name args memory = dispatch libs registry name args none memory

module _ (S : Type 0) (P : S → Type 0) where
  -- The handler keeps the world for arguments that validate, and for those of them that its signature names, with
  -- which it is called again after a `TypeError`.
  abbrev pub Keeps : Libraries → ToolDef S → Type 0
  Keeps libs td =
      (args : Json) (d : Dict) (s : S)
      → as_dict args ≡ some d
      → validate_args libs args td.parameters ≡ none
      → P s
      → P (td.handler d s).1 × P (td.handler (only td.signature d) s).1

  call_again_world :
      (td : ToolDef S) (d : Dict) (first : Attempt × S)
      → P first.1
      → ((s : S) → P s → P (td.handler (only td.signature d) s).1)
      → P (call_again S td d first).1
  call_again_world td d (answered v, s) h again = h
  call_again_world td d (type_error why, s) h again = again s h
  call_again_world td d (raised why, s) h again = h

  call_with_world :
      (td : ToolDef S) (o : Option Dict) (s : S)
      → P s
      → ((d : Dict) (t : S)
          → o ≡ some d
          → P t
          → P (td.handler d t).1 × P (td.handler (only td.signature d) t).1)
      → P (call_with S td o s).1
  call_with_world td none s h keeps = h
  call_with_world td (some d) s h keeps =
      call_again_world td d (td.handler d s) (keeps d s refl h).0 (λ t k. (keeps d t refl k).1)

  call_handler_world :
      (libs : Libraries) (td : ToolDef S) (args : Json) (s : S)
      → Keeps libs td
      → validate_args libs args td.parameters ≡ none
      → P s
      → P (call_handler S td args s).1
  unfolding call_handler
  call_handler_world libs td args s keeps v h =
      call_with_world td (as_dict args) s h (λ d t e k. keeps args d t e v k)

  keep_result_world :
      (td : ToolDef S) (a : Attempt) (memory : Memory S)
      → P memory.world
      → P (keep_result S td a memory).world
  keep_result_world td (answered v) memory h =
      elim td.cache
        as (λ b.
          P
            (if b
              then record memory { cached = cache_at S td.ident v memory.cached }
              else memory).world) [ true ↦ h | false ↦ h ]
  keep_result_world td (type_error why) memory h = h
  keep_result_world td (raised why) memory h = h

  or_cached_world :
      (o : Option Json) (anew : Reply × Memory S) (memory : Memory S)
      → P anew.1.world
      → P memory.world
      → P (or_cached S o anew memory).1.world
  or_cached_world none anew memory h k = h
  or_cached_world (some v) anew memory h k = k

  call_tool_world :
      (libs : Libraries) (td : ToolDef S) (settled : Settled) (memory : Memory S)
      → ((args : Json) → settled ≡ accepted args → validate_args libs args td.parameters ≡ none)
      → Keeps libs td
      → P memory.world
      → P (call_tool S td settled memory).1.world
  call_tool_world libs td (refused text) memory v keeps h = h
  call_tool_world libs td (accepted args) memory v keeps h =
      let (attempt, s) = call_handler S td args memory.world in
      or_cached_world (hit S td memory) (call_anew S td args memory) memory
        (keep_result_world td attempt (record memory { world = s })
          (call_handler_world libs td args memory.world keeps (v args refl) h))
        h

  dispatch_to_world :
      (libs : Libraries) (registry : ToolRegistry S) (name : String) (args : Json)
      (raw : Option String) (memory : Memory S) (o : Option (ToolDef S))
      → ((td : ToolDef S) → o ≡ some td → Keeps libs td)
      → P memory.world
      → P (dispatch_to S libs registry name args raw memory o).1.world
  dispatch_to_world libs registry name args raw memory none keeps h = h
  dispatch_to_world libs registry name args raw memory (some td) keeps h =
      let chain = registry.arg_repair_handlers in
      call_tool_world libs td (settle libs chain raw args td.parameters) memory
        (settle_valid libs raw args td.parameters chain) (keeps td refl) h

  -- Whatever a tool's handler keeps of the world when it is called with arguments that validate against the tool's
  -- schema, and when it is called with those of them that its signature names, as it is again after a `TypeError`,
  -- `dispatch` keeps for any arguments, with any chain of argument repairs and any cached results.
  pub dispatch_keeps :
      (libs : Libraries) (registry : ToolRegistry S) (name : String) (args : Json)
      (raw : Option String) (memory : Memory S)
      → ((td : ToolDef S) → get S registry name ≡ some td → Keeps libs td)
      → P memory.world
      → P (dispatch S libs registry name args raw memory).1.world
  unfolding dispatch
  dispatch_keeps libs registry name args raw memory keeps h =
      dispatch_to_world libs registry name args raw memory (get S registry name) keeps h
