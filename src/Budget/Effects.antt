-- ===== src/Budget/Effects.antt =====
-- What a step's chain does to the tools and the event bus, and the order of the chain.
use diff_graph.Base.{
  Bool, List, Option, [], any, arith, false, if◌then◌else◌, keep_if, none, refl, some, true, ◌||◌,
  ◌∙◌, ◌∷◌, ◌≡◌,
}
use diff_graph.Budget.Context.{Custom, PusherAction, StepContext, Tool, is_tool}
use diff_graph.Budget.Handlers.{
  apply_action, apply_actions, apply_each, apply_type, narrow_to, narrowed, run_custom,
}
use diff_graph.Budget.State.{PusherType, custom, force_done, force_reflect, nudge}
use diff_graph.Floats.{Float}

abbrev is_force_done_type : PusherType → Bool
is_force_done_type force_done = true
is_force_done_type _ = false

module _ (F : Float) where
  abbrev pub is_force_done : PusherAction F → Bool
  is_force_done action = is_force_done_type action.type

  -- The tools that remain once some FORCE_DONE has been applied.
  abbrev pub only_done : List Tool → List Tool → List Tool
  only_done [] current = current
  only_done (t ∷ ts) current = t ∷ ts

  run_custom-tools :
      (handler : Option (Custom F)) (ctx : StepContext F)
      → ((run_custom F handler ctx).all_tools ≡ ctx.all_tools)
        × ((run_custom F handler ctx).current_tools ≡ ctx.current_tools)
  run_custom-tools none ctx = (refl, refl)
  run_custom-tools (some handler) ctx = (refl, refl)

  narrowed-tools :
      (tools : List Tool) (ctx : StepContext F)
      → ((narrowed F tools ctx).all_tools ≡ ctx.all_tools)
        × ((narrowed F tools ctx).current_tools ≡ only_done tools ctx.current_tools)
  narrowed-tools [] ctx = (refl, refl)
  narrowed-tools (t ∷ ts) ctx = (refl, refl)

  apply_type-tools :
      (type : PusherType) (action : PusherAction F) (ctx : StepContext F)
      → ((apply_type F type action ctx).all_tools ≡ ctx.all_tools)
        × ((apply_type F type action ctx).current_tools ≡ (
            if is_force_done_type type
            then only_done (keep_if (is_tool "done") ctx.all_tools) ctx.current_tools
            else ctx.current_tools))
  unfolding narrow_to
  apply_type-tools nudge action ctx = ground arith
  apply_type-tools force_reflect action ctx = (refl, refl)
  apply_type-tools force_done action ctx =
      narrowed-tools (keep_if (is_tool "done") ctx.all_tools) ctx
  apply_type-tools custom action ctx = run_custom-tools action.custom_handler ctx

  only_done_twice :
      (tools current : List Tool)
      → only_done tools (only_done tools current) ≡ only_done tools current
  only_done_twice [] current = refl
  only_done_twice (t ∷ ts) current = refl

  tools_merged :
      (b c : Bool) (found current : List Tool)
      → (if c
          then only_done found (if b then only_done found current else current)
          else (if b then only_done found current else current))
        ≡ (if b || c then only_done found current else current)
  tools_merged true true found current = only_done_twice found current
  tools_merged true false found current = refl
  tools_merged false true found current = refl
  tools_merged false false found current = refl

  tools_twice :
      (b c : Bool) {all all' current' : List Tool} (current : List Tool)
      → all' ≡ all
      → current' ≡ (if b then only_done (keep_if (is_tool "done") all) current else current)
      → (if c then only_done (keep_if (is_tool "done") all') current' else current')
        ≡ (if b || c then only_done (keep_if (is_tool "done") all) current else current)
  tools_twice b c {all = all} current h k =
      rw (h, k) (tools_merged b c (keep_if (is_tool "done") all) current)

  apply_each-tools :
      (actions : List (PusherAction F)) (ctx : StepContext F)
      → ((apply_each F actions ctx).all_tools ≡ ctx.all_tools)
        × ((apply_each F actions ctx).current_tools ≡ (
            if any is_force_done actions
            then only_done (keep_if (is_tool "done") ctx.all_tools) ctx.current_tools
            else ctx.current_tools))
  unfolding apply_each apply_action
  apply_each-tools [] ctx = (refl, refl)
  apply_each-tools (action ∷ actions) ctx =
      let first = apply_type-tools action.type action ctx in
      let rest = apply_each-tools actions (apply_action F action ctx) in
      (
        rest.0 ∙ first.0,
        rest.1
            ∙ tools_twice (is_force_done action) (any is_force_done actions) ctx.current_tools
                first.0 first.1,
      )

  -- The tools that the model is offered once the pending actions are applied: if one of them is a
  -- FORCE_DONE and there is a tool of the name done, the tools of that name; in every other case, a
  -- FORCE_REFLECT included, the tools offered before.
  pub apply_actions-tools :
      (ctx : StepContext F)
      → (apply_actions F ctx).current_tools ≡ (
          if any is_force_done ctx.actions
          then only_done (keep_if (is_tool "done") ctx.all_tools) ctx.current_tools
          else ctx.current_tools)
  unfolding apply_actions
  apply_actions-tools ctx = (apply_each-tools ctx.actions ctx).1
