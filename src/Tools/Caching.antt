-- ===== src/Tools/Caching.antt =====
-- The cache of a tool's result: `td.cache`, `_cached_result` and `_cache_hit`.
use diff_graph.Base.{
  Bool-cases, List, Option, String, [], ap, arith, if◌then◌else◌, inl, inr, none, refl, some, subst,
  sym, true, ℕ, ◌∙◌, ◌∷◌, ◌≡◌, ◌≢◌,
}
use diff_graph.Json.{Json}
use diff_graph.Tools.{
  Attempt, Libraries, Memory, ToolDef, ToolRegistry, answered, get, raised, type_error,
}
use diff_graph.Tools.Chain.{Settled, accepted, refused, settle}
use diff_graph.Tools.Dispatch.{
  Reply, cache_at, call_anew, call_handler, call_tool, dispatch, dispatch_to, hit, keep_result,
  or_cached, returns,
}

module _ (S : Type 0) where
  -- Calls of `dispatch` one after the other, each on a registry of its own: a clone has tools in common.
  pub record Dispatching : Type 0 where
    pub registry : ToolRegistry S
    pub name : String
    pub args : Json
    pub raw : Option String

  unfoldable pub dispatch_all : Libraries → List Dispatching → Memory S → Memory S
  dispatch_all libs [] memory = memory
  dispatch_all libs (d ∷ ds) memory =
      dispatch_all libs ds (dispatch S libs d.registry d.name d.args d.raw memory).1

  -- A tool that has a cached result is not called, so the result is not replaced by another.
  abbrev pub Has : ℕ → Json → Memory S → Type 0
  Has i v memory = memory.cached i ≡ some v

  keep_result_Has :
      (i : ℕ) (v : Json) (td : ToolDef S) (a : Attempt) (memory : Memory S)
      → hit S td memory ≡ none
      → Has i v memory
      → Has i v (keep_result S td a memory)
  keep_result_Has i v td (type_error why) memory free h = h
  keep_result_Has i v td (raised why) memory free h = h
  keep_result_Has i v td (answered w) memory free h = elim (Bool-cases td.cache) [
    | inl on ↦
        let other : td.ident ≢ i = λ e.
          let found : some v ≡ none = sym h ∙ ap memory.cached (sym e) ∙ (rw on at free) in cc in
        rw on (ground (arith, h, other))
    | inr off ↦ rw off h
  ]

  or_cached_Has :
      (i : ℕ) (v : Json) (td : ToolDef S) (args : Json) (memory : Memory S) (o : Option Json)
      → hit S td memory ≡ o
      → Has i v memory
      → Has i v (or_cached S o (call_anew S td args memory) memory).1
  or_cached_Has i v td args memory none e h =
      let (attempt, s) = call_handler S td args memory.world in
      keep_result_Has i v td attempt (record memory { world = s }) e h
  or_cached_Has i v td args memory (some w) e h = h

  call_tool_Has :
      (i : ℕ) (v : Json) (td : ToolDef S) (settled : Settled) (memory : Memory S)
      → Has i v memory
      → Has i v (call_tool S td settled memory).1
  call_tool_Has i v td (refused text) memory h = h
  call_tool_Has i v td (accepted args) memory h =
      or_cached_Has i v td args memory (hit S td memory) refl h

  dispatch_to_Has :
      (libs : Libraries) (d : Dispatching) (i : ℕ) (v : Json) (memory : Memory S)
      (o : Option (ToolDef S))
      → Has i v memory
      → Has i v (dispatch_to S libs d.registry d.name d.args d.raw memory o).1
  dispatch_to_Has libs d i v memory none h = h
  dispatch_to_Has libs d i v memory (some td) h =
      call_tool_Has i v td (settle libs d.registry.arg_repair_handlers d.raw d.args td.parameters)
        memory h

  pub dispatch_all_Has :
      (libs : Libraries) (ds : List Dispatching) (i : ℕ) (v : Json) (memory : Memory S)
      → Has i v memory
      → Has i v (dispatch_all libs ds memory)
  unfolding dispatch dispatch_all
  dispatch_all_Has libs [] i v memory h = h
  dispatch_all_Has libs (d ∷ ds) i v memory h =
      dispatch_all_Has libs ds i v (dispatch S libs d.registry d.name d.args d.raw memory).1
        (dispatch_to_Has libs d i v memory (get S d.registry d.name) h)

  cached_reply :
      (td : ToolDef S) (args v : Json) (memory : Memory S)
      → td.cache ≡ true
      → Has td.ident v memory
      → call_tool S td (accepted args) memory ≡ (returns v, memory)
  cached_reply td args v memory on h = rw (on, h) refl

  kept :
      (td : ToolDef S) (a : Attempt) (v : Json) (memory : Memory S)
      → td.cache ≡ true
      → a ≡ answered v
      → Has td.ident v (keep_result S td a memory)
  kept td (type_error why) v memory on e = cc
  kept td (raised why) v memory on e = cc
  kept td (answered w) v memory on e =
      let same : w ≡ v = cc in
      subst
        (λ b.
          (if b
              then record memory { cached = cache_at S td.ident w memory.cached }
              else memory).cached
            td.ident
          ≡ some v)
        (sym on) (ground (arith, same))

  anew_Has :
      (td : ToolDef S) (v : Json) (memory : Memory S) (anew : Reply × Memory S) (o : Option Json)
      → o ≡ none
      → Has td.ident v anew.1
      → Has td.ident v (or_cached S o anew memory).1
  anew_Has td v memory anew none e h = h
  anew_Has td v memory anew (some w) e h = cc

  -- The first call that a cached tool answers.
  first_Has :
      (td : ToolDef S) (args v : Json) (memory : Memory S)
      → td.cache ≡ true
      → memory.cached td.ident ≡ none
      → (call_handler S td args memory.world).0 ≡ answered v
      → Has td.ident v (call_tool S td (accepted args) memory).1
  first_Has td args v memory on free said =
      let (attempt, s) = call_handler S td args memory.world in
      let open_slot : hit S td memory ≡ none =
        subst (λ b. (if b then memory.cached td.ident else none) ≡ none) (sym on) free in
      anew_Has td v memory (call_anew S td args memory) (hit S td memory) open_slot
        (kept td attempt v (record memory { world = s }) on said)

  -- Once a cached tool has answered, every dispatch that reaches it with accepted arguments gives that answer and
  -- changes nothing, whatever is dispatched in between, by this registry or by a clone of it.
  pub dispatch_cached :
      (libs : Libraries) (first last : Dispatching) (ds : List Dispatching) (td : ToolDef S)
      (args args' v : Json) (memory : Memory S)
      → td.cache ≡ true
      → memory.cached td.ident ≡ none
      → get S first.registry first.name ≡ some td
      → get S last.registry last.name ≡ some td
      → settle libs first.registry.arg_repair_handlers first.raw first.args td.parameters
        ≡ accepted args
      → settle libs last.registry.arg_repair_handlers last.raw last.args td.parameters
        ≡ accepted args'
      → (call_handler S td args memory.world).0 ≡ answered v
      → let after = dispatch_all libs (first ∷ ds) memory in
        dispatch S libs last.registry last.name last.args last.raw after ≡ (returns v, after)
  unfolding dispatch dispatch_all
  dispatch_cached libs first last ds td args args' v memory on free found found' ok ok' said =
      let begun = (call_tool S td (accepted args) memory).1 in
      let same : (dispatch S libs first.registry first.name first.args first.raw memory).1 ≡ begun =
        rw (found, ok) refl in
      let has : Has td.ident v (dispatch_all libs (first ∷ ds) memory) =
        subst (λ m. Has td.ident v (dispatch_all libs ds m)) (sym same)
          (dispatch_all_Has libs ds td.ident v begun (first_Has td args v memory on free said)) in
      rw (found', ok') (cached_reply td args' v (dispatch_all libs (first ∷ ds) memory) on has)
