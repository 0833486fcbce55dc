-- ===== src/Budget/Reflect.antt =====
-- The producers around the reflect tool and the transport of children's results:
-- `ReflectCadenceCounter`, `FailedReflectGuard`, `ReflectCadencePusher`, `AsyncChildCallbackPusher`.
use diff_graph.Base.{
  Bool, List, Option, String, [], any, count_if, false, if◌then◌else◌, keep_if, leb, map, none, not,
  some, str_eq, suc, true, ℕ, ◌&&◌, ◌++◌, ◌+◌, ◌||◌, ◌∷◌,
}
use diff_graph.Budget.Context.{PusherAction, StepContext, Tool, is_tool, push}
use diff_graph.Budget.State.{PusherType, force_reflect, nudge}
use diff_graph.Floats.{Float, reaches, zero_float}
use diff_graph.Messages.{user_message}

-- A tool that ran: its name and whether its arguments failed validation.
abbrev pub Outcome : Type 0
Outcome = String × Bool

unfoldable pub is_work : Outcome → Bool
is_work o = not (str_eq o.0 "reflect" || str_eq o.0 "done")

unfoldable pub is_reflection : Outcome → Bool
is_reflection o = str_eq o.0 "reflect" && not o.1

-- `ReflectCadenceCounter.on_step_done` on the counter.
unfoldable pub count_step : ℕ → List Outcome → ℕ
unfolding is_work is_reflection
count_step counter outcomes =
    let non_reflect = count_if is_work outcomes in
    if any is_reflection outcomes then non_reflect else counter + non_reflect

pub record FailedReflectGuard : Type 0 where
  pub threshold : ℕ
  pub consecutive_failed : ℕ
  pub latched : Bool
  pub nudge_injected : Bool

unfoldable pub new_guard : ℕ → FailedReflectGuard
new_guard threshold = record {
  threshold = threshold;
  consecutive_failed = 0;
  latched = false;
  nudge_injected = false;
}

-- `FailedReflectGuard.on_step_done`, one outcome.
unfoldable pub note : FailedReflectGuard → Outcome → FailedReflectGuard
note g o =
    if not (str_eq o.0 "reflect")
    then g
    else if o.1
    then record g {
      consecutive_failed = suc g.consecutive_failed;
      latched = g.latched || leb g.threshold (suc g.consecutive_failed);
    }
    else record g { consecutive_failed = 0 }

unfoldable pub note_all : FailedReflectGuard → List Outcome → FailedReflectGuard
note_all g [] = g
note_all g (o ∷ outcomes) = note_all (note g o) outcomes

abbrev pub without_reflect : List Tool → List Tool
without_reflect tools = keep_if (λ t. not (is_tool "reflect" t)) tools

-- The counter that a cadence reads, `_counter_attr`.
pub data CounterAttr : Type 0 where
  steps_since_reflect_attr seconds_since_reflect_attr : CounterAttr

module _ (F : Float) where
  -- `ReflectCadenceCounter.apply`.
  abbrev pub show_counter : ℕ → StepContext F → StepContext F
  show_counter counter ctx = record ctx { steps_since_reflect = counter }

  module _ (msg : String → String → String) (fill : String → ℕ → String) where
    abbrev locked_text : ℕ → String
    locked_text threshold =
        fill
          (msg "reflect.failed_guard.locked"
            "reflect() has failed schema validation {threshold} times in a row — your JSON output isn't matching the reflect schema (only the `learned` field is making it through). The tool is now hidden for the rest of this run. Use the remaining tools to make progress: post findings, reply in threads, or finish the run.")
          threshold

    -- `FailedReflectGuard.apply`.
    unfoldable pub guard_apply :
        FailedReflectGuard → StepContext F → FailedReflectGuard × StepContext F
    guard_apply g ctx =
        let hidden = record ctx { current_tools = without_reflect ctx.current_tools } in
        if not g.latched then (g, ctx) else if g.nudge_injected then (g, hidden) else (
          record g { nudge_injected = true },
          record hidden { messages = ctx.messages ++ user_message (locked_text g.threshold) ∷ [] },
        )

  abbrev pub read_counter : CounterAttr → StepContext F → F.Real
  read_counter steps_since_reflect_attr ctx = F.ratio ctx.steps_since_reflect 1
  read_counter seconds_since_reflect_attr ctx = ctx.seconds_since_reflect

  pub record ReflectCadencePusher : Type 0 where
    pub kind : String
    pub threshold : F.Real
    pub counter_attr : CounterAttr
    pub nudge_template : String
    pub force_reflect_multiplier : Option F.Real
    pub nudged_in_cycle : Bool
    pub forced_in_cycle : Bool
    pub last_counter : F.Real

  abbrev cadence_action : ReflectCadencePusher → F.Real → PusherType → String → PusherAction F
  cadence_action p counter type message = record {
    type = type;
    message = message;
    custom_handler = none;
    kind = p.kind;
    threshold = p.threshold;
    ratio = F.div counter p.threshold;
  }

  abbrev is_forcing : Option F.Real → F.Real → F.Real → Bool
  is_forcing none threshold counter = false
  is_forcing (some multiplier) threshold counter = reaches F counter (F.mul multiplier threshold)

  -- A drop of the counter re-arms the latches.
  unfoldable pub rearm : F.Real → ReflectCadencePusher → ReflectCadencePusher
  rearm counter p =
      let dropped = F.lt counter p.last_counter in
      record p {
        nudged_in_cycle = if dropped then false else p.nudged_in_cycle;
        forced_in_cycle = if dropped then false else p.forced_in_cycle;
        last_counter = counter;
      }

  unfoldable pub cadence_step :
      F.Real → ReflectCadencePusher → ReflectCadencePusher × List (PusherAction F)
  cadence_step counter p =
      if not p.forced_in_cycle && is_forcing p.force_reflect_multiplier p.threshold counter
      then (record p { forced_in_cycle = true }, cadence_action p counter force_reflect "" ∷ [])
      else if not p.nudged_in_cycle && reaches F counter p.threshold
      then (
        record p { nudged_in_cycle = true },
        cadence_action p counter nudge (F.format p.nudge_template p.threshold) ∷ [],
      )
      else (p, [])

  unfoldable pub cadence_apply :
      ReflectCadencePusher → StepContext F → ReflectCadencePusher × StepContext F
  cadence_apply p ctx =
      let counter = read_counter p.counter_attr ctx in
      let stepped = cadence_step counter (rearm counter p) in
      if reaches F (zero_float F) p.threshold then (p, ctx) else (stepped.0, push F ctx stepped.1)

  -- `AsyncChildCallbackPusher.apply`. The agent's `_drain_async_callbacks` is the pending texts, which
  -- it empties; `none` is an agent without one.
  abbrev callback_action : String → PusherAction F
  callback_action message = record {
    type = nudge;
    message = message;
    custom_handler = none;
    kind = "async-child-callback";
    threshold = zero_float F;
    ratio = zero_float F;
  }

  unfoldable pub callback_apply :
      Option (List String) → StepContext F → Option (List String) × StepContext F
  callback_apply none ctx = (none, ctx)
  callback_apply (some pending) ctx = (some [], push F ctx (map callback_action pending))
