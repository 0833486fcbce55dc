-- ===== src/Budget/Escalation.antt =====
-- `RatioPusher` and `RatioEscalationPusher` with its four subclasses. `_levels` and `_fired` are one
-- list of rungs; the wordings of `orchestra/messages.py` are the argument `msg`, a key and a fallback.
use diff_graph.Base.{
  Bool, List, Option, String, [], any, false, if◌then◌else◌, none, some, str_eq, suc, true, ℕ, ◌++◌,
  ◌==◌, ◌∷◌,
}
use diff_graph.Budget.Context.{Custom, PusherAction, StepContext, push}
use diff_graph.Budget.State.{
  Axis, PusherConfig, PusherType, context_axis, force_done, force_reflect, max_ratio, nudge,
  read_axis, step_axis, token_axis, wall_axis,
}
use diff_graph.Floats.{Float}

abbrev first_given {ℓ} : {A : Type ℓ} → Option A → Option A → Option A
first_given none default = default
first_given (some a) default = some a

abbrev given {ℓ} : {A : Type ℓ} → Option A → A → A
given none default = default
given (some a) default = a

module _ (F : Float) where
  pub record Rung : Type 0 where
    pub at : F.Real
    pub type : PusherType
    pub message : String
    pub fired : Bool

  pub record RatioEscalationPusher : Type 0 where
    pub kind : String
    pub ratio_attr : Axis
    pub levels : List Rung

  -- The class attributes that a subclass may override.
  pub record EscalationClass : Type 0 where
    pub kind : String
    pub ratio_attr : Axis
    pub default_nudge_at : F.Real
    pub default_nudge_high_at : Option F.Real
    pub default_force_reflect_at : Option F.Real
    pub default_force_done_at : Option F.Real
    pub default_nudge_msg : String
    pub default_nudge_high_msg : String
    pub default_force_done_msg : String

  -- The keyword arguments of the constructor.
  pub record EscalationArgs : Type 0 where
    pub nudge_at : Option F.Real
    pub nudge_high_at : Option F.Real
    pub force_reflect_at : Option F.Real
    pub force_done_at : Option F.Real
    pub nudge_message : Option String
    pub nudge_high_message : Option String
    pub force_done_message : Option String

  abbrev pub no_args : EscalationArgs
  no_args = record {
    nudge_at = none;
    nudge_high_at = none;
    force_reflect_at = none;
    force_done_at = none;
    nudge_message = none;
    nudge_high_message = none;
    force_done_message = none;
  }

  -- The level at a threshold, if there is one.
  abbrev level : Option F.Real → PusherType → String → List Rung
  level none type message = []
  level (some at) type message =
      record { at = at; type = type; message = message; fired = false } ∷ []

  abbrev pub all_levels : EscalationClass → EscalationArgs → List Rung
  all_levels c a =
      level (some (given a.nudge_at c.default_nudge_at)) nudge
        (given a.nudge_message c.default_nudge_msg)
      ++ level (first_given a.nudge_high_at c.default_nudge_high_at) nudge
          (given a.nudge_high_message c.default_nudge_high_msg)
      ++ level (first_given a.force_done_at c.default_force_done_at) force_done
          (given a.force_done_message c.default_force_done_msg)
      ++ level (first_given a.force_reflect_at c.default_force_reflect_at) force_reflect ""

  -- `sorted(levels, key=…)`: stable, by inserting each level after its equals.
  unfoldable pub insert_level : Rung → List Rung → List Rung
  insert_level x [] = x ∷ []
  insert_level x (y ∷ ys) =
      let rest = insert_level x ys in if F.lt x.at y.at then x ∷ y ∷ ys else y ∷ rest

  unfoldable pub sort_levels : List Rung → List Rung → List Rung
  sort_levels done [] = done
  sort_levels done (x ∷ xs) = sort_levels (insert_level x done) xs

  unfoldable pub make_escalation : EscalationClass → EscalationArgs → RatioEscalationPusher
  make_escalation c a = record {
    kind = c.kind;
    ratio_attr = c.ratio_attr;
    levels = sort_levels [] (all_levels c a);
  }

  abbrev pub rung_action : String → F.Real → Rung → PusherAction F
  rung_action kind ratio r = record {
    type = r.type;
    message = r.message;
    custom_handler = none;
    kind = kind;
    threshold = r.at;
    ratio = ratio;
  }

  -- The loop of `apply`: the rungs with their latches, and the actions appended.
  unfoldable pub climb : String → F.Real → List Rung → List Rung × List (PusherAction F)
  climb kind ratio [] = ([], [])
  climb kind ratio (r ∷ rs) =
      let rest = climb kind ratio rs in
      if r.fired
      then (r ∷ rest.0, rest.1)
      else if F.lt ratio r.at
      then (r ∷ rest.0, rest.1)
      else (record r { fired = true } ∷ rest.0, rung_action kind ratio r ∷ rest.1)

  abbrev pub climb_at :
      RatioEscalationPusher → StepContext F → Option F.Real → RatioEscalationPusher × StepContext F
  climb_at p ctx none = (p, ctx)
  climb_at p ctx (some ratio) =
      let climbed = climb p.kind ratio p.levels in
      (record p { levels = climbed.0 }, push F ctx climbed.1)

  unfoldable pub escalate :
      F.Real → RatioEscalationPusher → StepContext F → RatioEscalationPusher × StepContext F
  escalate now p ctx = climb_at p ctx (read_axis F p.ratio_attr now ctx.state)

  module _ (msg : String → String → String) where
    -- The class attributes of `RatioEscalationPusher` itself, for a subclass's own.
    abbrev base_class : String → Axis → String → String → String → EscalationClass
    base_class kind axis nudge_msg high_msg done_msg = record {
      kind = kind;
      ratio_attr = axis;
      default_nudge_at = F.ratio 50 100;
      default_nudge_high_at = some (F.ratio 75 100);
      default_force_reflect_at = none;
      default_force_done_at = some (F.ratio 1 1);
      default_nudge_msg = nudge_msg;
      default_nudge_high_msg = high_msg;
      default_force_done_msg = done_msg;
    }

    abbrev pub token_budget_class : EscalationClass
    token_budget_class =
        base_class "token-budget" token_axis
          (msg "budget.token.nudge"
            "Half of your token budget is used. Plan what's left so you finish before it runs out.")
          (msg "budget.token.nudge_high" "Most of your token budget is used — wrap up soon.")
          (msg "budget.token.force_done" "Token budget exhausted. Submit your final output now.")

    abbrev pub time_budget_class : EscalationClass
    time_budget_class =
        base_class "time-budget" wall_axis
          (msg "budget.wall_time.nudge"
            "Half of your wall-clock budget is used. Plan what's left so you finish before it runs out.")
          (msg "budget.wall_time.nudge_high"
            "Most of your wall-clock budget is used — wrap up soon.")
          (msg "budget.wall_time.force_done"
            "Wall-clock budget exhausted. Submit your final output now.")

    abbrev pub context_budget_class : EscalationClass
    context_budget_class =
        record (base_class "context-budget" context_axis
          (msg "budget.context.nudge"
            "Conversation history fills 50% of this agent's LLM context window.")
          (msg "budget.context.nudge_high"
            "Conversation history fills 75% of this agent's LLM context window.")
          "") { default_force_done_at = none }

    abbrev pub step_budget_class : EscalationClass
    step_budget_class =
        record (base_class "step-budget" step_axis
          (msg "budget.steps.nudge"
            "Half of your step budget is used. Plan what's left so you finish before it runs out.")
          (msg "budget.steps.nudge_high" "Most of your step budget is used — wrap up soon.")
          (msg "budget.steps.force_done"
            "Step budget running low. Submit your final output now.")) {
              default_force_done_at = some (F.ratio 90 100);
            }

  -- `RatioPusher.apply`, from the pusher of index `idx` on: the indices fired and the actions
  -- appended. `resolve` is `_resolve_handler`.
  module _ (resolve : String → Option (Custom F)) where
    abbrev resolved : Option String → Option (Custom F)
    resolved none = none
    resolved (some path) = if str_eq path "" then none else resolve path

    abbrev config_action : F.Real → PusherConfig F → PusherAction F
    config_action ratio p = record {
      type = p.type;
      message = p.message;
      custom_handler = resolved p.handler;
      kind = "ratio";
      threshold = p.at;
      ratio = ratio;
    }

    unfoldable pub fire :
        F.Real → ℕ → List ℕ → List (PusherConfig F) → List ℕ × List (PusherAction F)
    fire ratio idx fired [] = (fired, [])
    fire ratio idx fired (p ∷ ps) =
        let skip = fire ratio (suc idx) fired ps in
        let hit = fire ratio (suc idx) (fired ++ idx ∷ []) ps in
        if any (λ i. i == idx) fired
        then skip
        else if F.lt ratio p.at
        then skip
        else (hit.0, config_action ratio p ∷ hit.1)

    unfoldable pub ratio_apply : F.Real → List (PusherConfig F) → StepContext F → StepContext F
    ratio_apply now pushers ctx =
        let fired = fire (max_ratio F now ctx.state) 0 ctx.state.fired_pushers pushers in
        push F (record ctx { state = record ctx.state { fired_pushers = fired.0 } }) fired.1
