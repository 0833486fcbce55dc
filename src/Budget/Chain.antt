-- ===== src/Budget/Chain.antt =====
-- The order of a tracker's chain, which every operation keeps, and what the chain traces.
use diff_graph.Base.{
  Bool, List, Option, String, [], any, arith, false, map, none, refl, some, true, ℕ, ◌∙◌, ◌∷◌, ◌≡◌,
}
use diff_graph.Budget.Context.{Custom, Event, StepContext}
use diff_graph.Budget.Escalation.{RatioEscalationPusher, climb_at, escalate, ratio_apply}
use diff_graph.Budget.Reflect.{
  FailedReflectGuard, Outcome, ReflectCadencePusher, cadence_apply, callback_apply, guard_apply,
}
use diff_graph.Budget.State.{read_axis}
use diff_graph.Budget.Tracker.{
  BudgetTracker, Handler, apply_handler, cadence_handler, callback_handler, counter_handler,
  escalation_handler, guard_handler, on_step_done, ratio_handler, run_chain, run_handler,
  trace_handler,
}
use diff_graph.Floats.{Float}

module _ (F : Float) where
  abbrev pub is_consumer : Handler F → Bool
  is_consumer apply_handler = true
  is_consumer trace_handler = true
  is_consumer _ = false

  -- The consumers are the two defaults, in their order, and none stands among the producers.
  abbrev pub IsChain : BudgetTracker F → Type 0
  IsChain tracker =
      (tracker.consumers ≡ apply_handler ∷ trace_handler ∷ [])
      × (any is_consumer tracker.producers ≡ false)

  -- What the producers leave alone.
  abbrev pub frame : StepContext F → List (Event F) × Option ℕ × String × String
  frame ctx = (ctx.events, ctx.event_bus, ctx.agent_id, ctx.agent_name)

  climb_at-frame :
      (p : RatioEscalationPusher F) (ctx : StepContext F) (ratio : Option F.Real)
      → frame (climb_at F p ctx ratio).1 ≡ frame ctx
  climb_at-frame p ctx none = refl
  climb_at-frame p ctx (some ratio) = refl

  callback_apply-frame :
      (pending : Option (List String)) (ctx : StepContext F)
      → frame (callback_apply F pending ctx).1 ≡ frame ctx
  unfolding callback_apply
  callback_apply-frame none ctx = refl
  callback_apply-frame (some pending) ctx = refl

  on_step_done-is_consumer :
      (outcomes : List Outcome) (h : Handler F)
      → is_consumer (on_step_done F outcomes h) ≡ is_consumer h
  unfolding on_step_done
  on_step_done-is_consumer outcomes (counter_handler _) = refl
  on_step_done-is_consumer outcomes (guard_handler _) = refl
  on_step_done-is_consumer outcomes (ratio_handler _) = refl
  on_step_done-is_consumer outcomes (escalation_handler _) = refl
  on_step_done-is_consumer outcomes (cadence_handler _) = refl
  on_step_done-is_consumer outcomes (callback_handler _) = refl
  on_step_done-is_consumer outcomes apply_handler = refl
  on_step_done-is_consumer outcomes trace_handler = refl

  pub notified :
      (outcomes : List Outcome) (hs : List (Handler F))
      → any is_consumer (map (on_step_done F outcomes) hs) ≡ any is_consumer hs
  notified outcomes [] = refl
  notified outcomes (h ∷ hs) =
      let same = on_step_done-is_consumer outcomes h in
      let rest = notified outcomes hs in rw (same, rest) refl

  module _ (msg : String → String → String) (fill : String → ℕ → String)
      (resolve : String → Option (Custom F)) where
    guard_apply-frame :
        (g : FailedReflectGuard) (ctx : StepContext F)
        → frame (guard_apply F msg fill g ctx).1 ≡ frame ctx
    unfolding guard_apply
    guard_apply-frame g ctx = ground arith

    cadence_apply-frame :
        (p : ReflectCadencePusher F) (ctx : StepContext F)
        → frame (cadence_apply F p ctx).1 ≡ frame ctx
    unfolding cadence_apply
    cadence_apply-frame p ctx = ground arith

    run_handler-is_consumer :
        (now : F.Real) (h : Handler F) (ctx : StepContext F)
        → is_consumer (run_handler F msg fill resolve now h ctx).0 ≡ is_consumer h
    unfolding run_handler
    run_handler-is_consumer now (counter_handler _) ctx = refl
    run_handler-is_consumer now (guard_handler _) ctx = refl
    run_handler-is_consumer now (ratio_handler _) ctx = refl
    run_handler-is_consumer now (escalation_handler _) ctx = refl
    run_handler-is_consumer now (cadence_handler _) ctx = refl
    run_handler-is_consumer now (callback_handler _) ctx = refl
    run_handler-is_consumer now apply_handler ctx = refl
    run_handler-is_consumer now trace_handler ctx = refl

    run_handler-frame :
        (now : F.Real) (h : Handler F) (ctx : StepContext F)
        → is_consumer h ≡ false
        → frame (run_handler F msg fill resolve now h ctx).1 ≡ frame ctx
    unfolding run_handler ratio_apply escalate
    run_handler-frame now (counter_handler _) ctx e = refl
    run_handler-frame now (guard_handler g) ctx e = guard_apply-frame g ctx
    run_handler-frame now (ratio_handler _) ctx e = refl
    run_handler-frame now (escalation_handler p) ctx e =
        climb_at-frame p ctx (read_axis F p.ratio_attr now ctx.state)
    run_handler-frame now (cadence_handler p) ctx e = cadence_apply-frame p ctx
    run_handler-frame now (callback_handler pending) ctx e = callback_apply-frame pending ctx
    run_handler-frame now apply_handler ctx e = ground (arith, e)
    run_handler-frame now trace_handler ctx e = ground (arith, e)

    pub run_chain-frame :
        (now : F.Real) (hs : List (Handler F)) (ctx : StepContext F)
        → any is_consumer hs ≡ false
        → (any is_consumer (run_chain F msg fill resolve now hs ctx).0 ≡ false)
          × (frame (run_chain F msg fill resolve now hs ctx).1 ≡ frame ctx)
    unfolding run_chain
    run_chain-frame now [] ctx e = (refl, refl)
    run_chain-frame now (h ∷ hs) ctx e =
        let run = run_handler F msg fill resolve now h ctx in
        let same = run_handler-is_consumer now h ctx in
        let first : is_consumer h ≡ false = ground (arith, e) in
        let others : any is_consumer hs ≡ false = ground (arith, e) in
        let rest = run_chain-frame now hs run.1 others in
        (ground arith, rest.1 ∙ run_handler-frame now h ctx first)
