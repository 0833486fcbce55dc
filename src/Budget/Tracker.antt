-- ===== src/Budget/Tracker.antt =====
-- `BudgetTracker`: the chain of handlers and its two phases, the accounting of tokens and steps, and
-- the budgets of children. The clock is read once for a phase.
use diff_graph.Base.{
  Bool, List, Option, String, [], false, if◌then◌else◌, ltb, map, max, none, some, suc, ℕ, ◌++◌,
  ◌+◌, ◌-◌, ◌==◌, ◌∷◌,
}
use diff_graph.Budget.Context.{Custom, StepContext}
use diff_graph.Budget.Escalation.{
  EscalationClass, RatioEscalationPusher, context_budget_class, escalate, make_escalation, no_args,
  ratio_apply, step_budget_class, time_budget_class, token_budget_class,
}
use diff_graph.Budget.Handlers.{apply_actions, trace}
use diff_graph.Budget.Reflect.{
  FailedReflectGuard, Outcome, ReflectCadencePusher, cadence_apply, callback_apply, count_step,
  guard_apply, note_all, show_counter, steps_since_reflect_attr,
}
use diff_graph.Budget.State.{
  BudgetConfig, BudgetState, PusherConfig, compute_step_paid, steps_remaining, tokens_remaining,
}
use diff_graph.Floats.{Float, greatest, least, part, zero_float}

module _ (F : Float) where
  pub data Handler : Type 0 where
    counter_handler : ℕ → Handler
    guard_handler : FailedReflectGuard → Handler
    ratio_handler : List (PusherConfig F) → Handler
    escalation_handler : RatioEscalationPusher F → Handler
    cadence_handler : ReflectCadencePusher F → Handler
    callback_handler : Option (List String) → Handler
    apply_handler : Handler
    trace_handler : Handler

  pub record BudgetTracker : Type 0 where
    pub config : BudgetConfig F
    pub event_bus : Option ℕ
    pub producers : List Handler
    pub consumers : List Handler

  unfoldable pub handlers : BudgetTracker → List Handler
  handlers tracker = tracker.producers ++ tracker.consumers

  unfoldable pub add_producer : BudgetTracker → Handler → Bool → BudgetTracker
  add_producer tracker handler first = record tracker {
    producers = if first then handler ∷ tracker.producers else tracker.producers ++ handler ∷ [];
  }

  unfoldable pub start : F.Real → BudgetTracker → BudgetState F
  start now tracker = record {
    tokens_used = 0;
    tokens_in = 0;
    tokens_out = 0;
    tokens_cached = 0;
    steps_used = 0;
    wall_start = now;
    original_tokens = tracker.config.max_tokens;
    original_steps = tracker.config.max_steps;
    original_wall_time = tracker.config.max_wall_time;
    original_max_context = tracker.config.max_context;
    cache_discount = tracker.config.cache_discount;
    cumulative_paid = 0;
    prev_step_paid = 0;
    fired_pushers = [];
  }

  unfoldable pub record_step : BudgetState F → ℕ → ℕ → ℕ → BudgetState F
  record_step s tokens_in tokens_out tokens_cached = record s {
    steps_used = suc s.steps_used;
    tokens_in = tokens_in;
    tokens_out = tokens_out;
    tokens_cached = tokens_cached;
    tokens_used = tokens_in + tokens_out;
  }

  -- A step that costs less than the one before it counts in full.
  abbrev pub step_delta : ℕ → ℕ → ℕ
  step_delta current previous = if ltb current previous then current else current - previous

  unfoldable pub update_tokens : BudgetState F → ℕ → ℕ → ℕ → ℕ → BudgetState F
  unfolding compute_step_paid
  update_tokens s total_tokens tokens_in tokens_out tokens_cached =
      let used = record s {
        tokens_used = total_tokens;
        tokens_in = tokens_in;
        tokens_out = tokens_out;
        tokens_cached = tokens_cached;
      } in
      let paid = compute_step_paid F used in
      record used {
        cumulative_paid = s.cumulative_paid + step_delta paid s.prev_step_paid;
        prev_step_paid = paid;
      }

  abbrev child_wall : F.Real → F.Real → F.Real → Option F.Real → Option F.Real
  child_wall now effective wall_start none = none
  child_wall now effective wall_start (some limit) =
      some (F.mul (greatest F (zero_float F) (F.sub limit (F.sub now wall_start))) effective)

  unfoldable pub allocate_child : F.Real → BudgetTracker → BudgetState F → F.Real → BudgetConfig F
  allocate_child now tracker parent fraction =
      let effective = least F fraction tracker.config.max_children_budget in
      record {
        max_tokens = part F (tokens_remaining F parent) effective;
        max_steps = max 1 (part F (steps_remaining F parent) effective);
        max_wall_time = child_wall now effective parent.wall_start parent.original_wall_time;
        max_context = some 128_000;
        max_children_budget = tracker.config.max_children_budget;
        max_feedback_budget_delta = 10;
        cache_discount = F.ratio 10 100;
        pushers = tracker.config.pushers;
      }

  unfoldable pub debit_child : BudgetState F → BudgetState F → BudgetState F
  debit_child parent child = record parent { tokens_used = parent.tokens_used + child.tokens_used }

  unfoldable pub on_step_done : List Outcome → Handler → Handler
  on_step_done outcomes (counter_handler counter) = counter_handler (count_step counter outcomes)
  on_step_done outcomes (guard_handler g) = guard_handler (note_all g outcomes)
  on_step_done outcomes (ratio_handler pushers) = ratio_handler pushers
  on_step_done outcomes (escalation_handler p) = escalation_handler p
  on_step_done outcomes (cadence_handler p) = cadence_handler p
  on_step_done outcomes (callback_handler pending) = callback_handler pending
  on_step_done outcomes apply_handler = apply_handler
  on_step_done outcomes trace_handler = trace_handler

  unfoldable pub notify_step_done : BudgetTracker → StepContext F → BudgetTracker
  unfolding on_step_done
  notify_step_done tracker ctx = record tracker {
    producers = map (on_step_done ctx.step_outcomes) tracker.producers;
    consumers = map (on_step_done ctx.step_outcomes) tracker.consumers;
  }

  module _ (msg : String → String → String) (fill : String → ℕ → String)
      (resolve : String → Option (Custom F)) where
    unfoldable pub new_tracker : BudgetConfig F → Option ℕ → BudgetTracker
    new_tracker config bus =
        let escalation : EscalationClass F → Handler =
          λ c. escalation_handler (make_escalation F c (no_args F)) in
        record {
          config = config;
          event_bus = bus;
          producers =
              counter_handler 0
              ∷ ratio_handler config.pushers
              ∷ escalation (token_budget_class F msg)
              ∷ escalation (time_budget_class F msg)
              ∷ escalation (step_budget_class F msg)
              ∷ escalation (context_budget_class F msg)
              ∷ [];
          consumers = apply_handler ∷ trace_handler ∷ [];
        }

    abbrev pub reflect_cadence : ℕ → ReflectCadencePusher F
    reflect_cadence interval = record {
      kind = "reflect";
      threshold = F.ratio interval 1;
      counter_attr = steps_since_reflect_attr;
      nudge_template =
          msg "reflect.cadence.nudge"
            "You've taken {threshold:.0f} steps without calling reflect(). Pause and call reflect(confidence=…, learned=…, questions_remaining=[…]) — consolidate what you've learned, what's still open, and what's resolved. Then continue.";
      force_reflect_multiplier = none;
      nudged_in_cycle = false;
      forced_in_cycle = false;
      last_counter = zero_float F;
    }

    unfoldable pub configure_reflect_pushers : BudgetTracker → ℕ → BudgetTracker
    unfolding add_producer
    configure_reflect_pushers tracker interval =
        if interval == 0
        then tracker
        else add_producer tracker (cadence_handler (reflect_cadence interval)) false

    unfoldable pub run_handler : F.Real → Handler → StepContext F → Handler × StepContext F
    run_handler now (counter_handler counter) ctx =
        (counter_handler counter, show_counter F counter ctx)
    run_handler now (guard_handler g) ctx =
        let run = guard_apply F msg fill g ctx in (guard_handler run.0, run.1)
    run_handler now (ratio_handler pushers) ctx =
        (ratio_handler pushers, ratio_apply F resolve now pushers ctx)
    run_handler now (escalation_handler p) ctx =
        let run = escalate F now p ctx in (escalation_handler run.0, run.1)
    run_handler now (cadence_handler p) ctx =
        let run = cadence_apply F p ctx in (cadence_handler run.0, run.1)
    run_handler now (callback_handler pending) ctx =
        let run = callback_apply F pending ctx in (callback_handler run.0, run.1)
    run_handler now apply_handler ctx = (apply_handler, apply_actions F ctx)
    run_handler now trace_handler ctx = (trace_handler, trace F ctx)

    unfoldable pub run_chain : F.Real → List Handler → StepContext F → List Handler × StepContext F
    run_chain now [] ctx = ([], ctx)
    run_chain now (h ∷ hs) ctx =
        let run = run_handler now h ctx in
        let rest = run_chain now hs run.1 in (run.0 ∷ rest.0, rest.1)

    abbrev pub choose_bus : Option ℕ → Option ℕ → Option ℕ
    choose_bus none own = own
    choose_bus (some bus) own = some bus

    -- The chain is `handlers`: the producers, then the consumers.
    unfoldable pub apply_handlers :
        F.Real → BudgetTracker → StepContext F → BudgetTracker × StepContext F
    apply_handlers now tracker ctx =
        let bused = record ctx { event_bus = choose_bus ctx.event_bus tracker.event_bus } in
        let produced = run_chain now tracker.producers bused in
        let consumed = run_chain now tracker.consumers produced.1 in
        (record tracker { producers = produced.0; consumers = consumed.0 }, consumed.1)
