-- ===== src/Budget/Pipeline.antt =====
-- A tracker's life as a sequence of its operations, and the events of a step.
use diff_graph.Base.{
  Bool, Bool-cases, List, Option, String, [], any-append, ap, arith, false, inl, inr, keep_if, map,
  none, refl, some, sym, true, ℕ, ◌++◌, ◌==◌, ◌∙◌, ◌∷◌, ◌≡◌,
}
use diff_graph.Budget.Chain.{IsChain, is_consumer, notified, run_chain-frame}
use diff_graph.Budget.Context.{Custom, Event, PusherAction, StepContext, Tool, is_tool}
use diff_graph.Budget.Handlers.{
  apply_action, apply_actions, apply_each, apply_type, narrow_to, narrowed, run_custom,
  threshold_hit, trace, trace_on,
}
use diff_graph.Budget.State.{BudgetConfig, PusherType, custom, force_done, force_reflect, nudge}
use diff_graph.Budget.Tracker.{
  BudgetTracker, Handler, add_producer, apply_handler, apply_handlers, cadence_handler, choose_bus,
  configure_reflect_pushers, new_tracker, notify_step_done, on_step_done, reflect_cadence,
  run_chain, run_handler, trace_handler,
}
use diff_graph.Floats.{Float}
use mathlib.Core.List.{append-nil}

module _ (F : Float) where
  -- The events of a list of actions, if there is a bus.
  abbrev pub hits : Option ℕ → String → String → List (PusherAction F) → List (Event F)
  hits none agent_id agent_name actions = []
  hits (some bus) agent_id agent_name actions =
      map (threshold_hit F bus agent_id agent_name) actions

  -- What the first consumer leaves alone.
  abbrev settled :
      StepContext F → List (PusherAction F) × List (Event F) × Option ℕ × String × String
  settled ctx = (ctx.actions, ctx.events, ctx.event_bus, ctx.agent_id, ctx.agent_name)

  run_custom-settled :
      (handler : Option (Custom F)) (ctx : StepContext F)
      → settled (run_custom F handler ctx) ≡ settled ctx
  run_custom-settled none ctx = refl
  run_custom-settled (some handler) ctx = refl

  narrowed-settled :
      (tools : List Tool) (ctx : StepContext F) → settled (narrowed F tools ctx) ≡ settled ctx
  narrowed-settled [] ctx = refl
  narrowed-settled (t ∷ ts) ctx = refl

  apply_type-settled :
      (type : PusherType) (action : PusherAction F) (ctx : StepContext F)
      → settled (apply_type F type action ctx) ≡ settled ctx
  unfolding narrow_to
  apply_type-settled nudge action ctx = ground arith
  apply_type-settled force_reflect action ctx = refl
  apply_type-settled force_done action ctx =
      narrowed-settled (keep_if (is_tool "done") ctx.all_tools) ctx
  apply_type-settled custom action ctx = run_custom-settled action.custom_handler ctx

  apply_each-settled :
      (actions : List (PusherAction F)) (ctx : StepContext F)
      → settled (apply_each F actions ctx) ≡ settled ctx
  unfolding apply_each apply_action
  apply_each-settled [] ctx = refl
  apply_each-settled (action ∷ actions) ctx =
      apply_each-settled actions (apply_action F action ctx)
      ∙ apply_type-settled action.type action ctx

  -- The events with those of the actions, by what a context holds.
  abbrev traced :
      List (PusherAction F) × List (Event F) × Option ℕ × String × String → List (Event F)
  traced s = s.1 ++ hits s.2 s.3 s.4 s.0

  trace_on-hits :
      (bus : Option ℕ) (ctx : StepContext F)
      → ((trace_on F bus ctx).events
          ≡ ctx.events ++ hits bus ctx.agent_id ctx.agent_name ctx.actions)
        × ((trace_on F bus ctx).actions ≡ ctx.actions)
  trace_on-hits none ctx = (sym (append-nil ctx.events), refl)
  trace_on-hits (some bus) ctx = (refl, refl)

  module _ (msg : String → String → String) (fill : String → ℕ → String)
      (resolve : String → Option (Custom F)) where
    -- One operation on a tracker. A producer that is added is no consumer.
    pub data Use : BudgetTracker F → BudgetTracker F → Type 0 where
      adds :
          {t : BudgetTracker F} (h : Handler F) (first : Bool)
          → is_consumer F h ≡ false
          → Use t (add_producer F t h first)
      configures :
          {t : BudgetTracker F} (interval : ℕ)
          → Use t (configure_reflect_pushers F msg fill resolve t interval)
      applies :
          {t : BudgetTracker F} (now : F.Real) (ctx : StepContext F)
          → Use t (apply_handlers F msg fill resolve now t ctx).0
      notifies : {t : BudgetTracker F} (ctx : StepContext F) → Use t (notify_step_done F t ctx)

    -- The trackers that a constructed one can become.
    pub data Reach : BudgetTracker F → Type 0 where
      created :
          (config : BudgetConfig F) (bus : Option ℕ)
          → Reach (new_tracker F msg fill resolve config bus)
      used : {t u : BudgetTracker F} → Reach t → Use t u → Reach u

    add_producer-IsChain :
        (t : BudgetTracker F) (h : Handler F) (first : Bool)
        → IsChain F t
        → is_consumer F h ≡ false
        → IsChain F (add_producer F t h first)
    unfolding add_producer
    add_producer-IsChain t h true k e = (k.0, ground (arith, k, e))
    add_producer-IsChain t h false k e =
        let split = any-append (is_consumer F) t.producers (h ∷ []) in
        (k.0, ground (arith, k, e, split))

    configure-IsChain :
        (t : BudgetTracker F) (interval : ℕ)
        → IsChain F t
        → IsChain F (configure_reflect_pushers F msg fill resolve t interval)
    unfolding configure_reflect_pushers
    configure-IsChain t interval k = elim (Bool-cases (interval == 0)) [
      | inl e ↦ rw e k
      | inr e ↦ rw e (
          add_producer-IsChain t (cadence_handler (reflect_cadence F msg fill resolve interval))
            false k refl)
    ]

    consumers_kept :
        (now : F.Real) (ctx : StepContext F) (hs : List (Handler F))
        → hs ≡ apply_handler ∷ trace_handler ∷ []
        → (run_chain F msg fill resolve now hs ctx).0 ≡ apply_handler ∷ trace_handler ∷ []
    unfolding run_chain run_handler
    consumers_kept now ctx hs h = ap (λ cs. (run_chain F msg fill resolve now cs ctx).0) h

    Use-IsChain : {t u : BudgetTracker F} → IsChain F t → Use t u → IsChain F u
    unfolding apply_handlers notify_step_done
    Use-IsChain {t = t} h (adds p first e) = add_producer-IsChain t p first h e
    Use-IsChain {t = t} h (configures interval) = configure-IsChain t interval h
    Use-IsChain {t = t} h (applies now ctx) =
        let bused = record ctx {
          event_bus = choose_bus F msg fill resolve ctx.event_bus t.event_bus;
        } in
        (
          consumers_kept now (run_chain F msg fill resolve now t.producers bused).1 t.consumers h.0,
          (run_chain-frame F msg fill resolve now t.producers bused h.1).0,
        )
    Use-IsChain {t = t} h (notifies ctx) = (
      ap (map (on_step_done F ctx.step_outcomes)) h.0,
      notified F ctx.step_outcomes t.producers ∙ h.1,
    )

    -- However a tracker has been used, its consumers are the apply handler and, after it, the trace
    -- handler, and no producer is one of them.
    pub Reach-IsChain : {t : BudgetTracker F} → Reach t → IsChain F t
    unfolding new_tracker
    Reach-IsChain (created config bus) = (refl, refl)
    Reach-IsChain (used r s) = Use-IsChain (Reach-IsChain r) s

    consumers_trace :
        (now : F.Real) (c : StepContext F) (hs : List (Handler F))
        → hs ≡ apply_handler ∷ trace_handler ∷ []
        → ((run_chain F msg fill resolve now hs c).1.events
            ≡ c.events ++ hits c.event_bus c.agent_id c.agent_name c.actions)
          × ((run_chain F msg fill resolve now hs c).1.actions ≡ c.actions)
    unfolding run_chain run_handler apply_actions trace
    consumers_trace now c hs h =
        let applied = apply_each F c.actions c in
        let same = apply_each-settled c.actions c in
        let end = trace_on-hits applied.event_bus applied in
        let run = ap (λ cs. (run_chain F msg fill resolve now cs c).1) h in
        (
          ap (λ x. x.events) run ∙ end.0 ∙ ap traced same,
          ap (λ x. x.actions) run ∙ end.1 ∙ ap (λ s. s.0) same,
        )

    -- A step of any tracker in use emits, on the context's bus or else the tracker's, one event for each
    -- action that the step leaves, in their order and with the action's type, kind, threshold and ratio,
    -- and nothing else; without a bus it emits nothing.
    pub apply_handlers-traced :
        (now : F.Real) {t : BudgetTracker F} (r : Reach t) (ctx : StepContext F)
        → (apply_handlers F msg fill resolve now t ctx).1.events
          ≡ ctx.events
            ++ hits
                (choose_bus F msg fill resolve ctx.event_bus t.event_bus)
                ctx.agent_id
                ctx.agent_name
                (apply_handlers F msg fill resolve now t ctx).1.actions
    unfolding apply_handlers
    apply_handlers-traced now {t = t} r ctx =
        let chain = Reach-IsChain r in
        let bused = record ctx {
          event_bus = choose_bus F msg fill resolve ctx.event_bus t.event_bus;
        } in
        let produced = run_chain F msg fill resolve now t.producers bused in
        let same = (run_chain-frame F msg fill resolve now t.producers bused chain.1).1 in
        let end = consumers_trace now produced.1 t.consumers chain.0 in
        end.0
        ∙ ap (λ s. s.0 ++ hits s.1 s.2 s.3 produced.1.actions) same
        ∙ ap (λ a. ctx.events ++ hits bused.event_bus ctx.agent_id ctx.agent_name a) (sym end.1)
