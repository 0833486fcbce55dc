-- ===== src/Budget/State.antt =====
-- `BudgetConfig` and `BudgetState`. Token and step counts are naturals: a negative limit takes the
-- same branches as 0. `time.time()` is the argument `now`.
use diff_graph.Base.{Bool, List, Option, String, if◌then◌else◌, none, some, ℕ, ◌+◌, ◌-◌, ◌==◌}
use diff_graph.Floats.{Float, greatest, least, one_float, part, reaches, zero_float}

pub data PusherType : Type 0 where
  nudge force_reflect force_done custom : PusherType

pub data Axis : Type 0 where
  token_axis wall_axis context_axis step_axis : Axis

module _ (F : Float) where
  pub record PusherConfig : Type 0 where
    pub at : F.Real
    pub type : PusherType
    pub message : String
    pub handler : Option String

  pub record BudgetConfig : Type 0 where
    pub max_tokens : ℕ
    pub max_steps : ℕ
    pub max_wall_time : Option F.Real
    pub max_context : Option ℕ
    pub max_children_budget : F.Real
    pub max_feedback_budget_delta : ℕ
    pub cache_discount : F.Real
    pub pushers : List PusherConfig

  pub record BudgetState : Type 0 where
    pub tokens_used : ℕ
    pub tokens_in : ℕ
    pub tokens_out : ℕ
    pub tokens_cached : ℕ
    pub steps_used : ℕ
    pub wall_start : F.Real
    pub original_tokens : ℕ
    pub original_steps : ℕ
    pub original_wall_time : Option F.Real
    pub original_max_context : Option ℕ
    pub cache_discount : F.Real
    pub cumulative_paid : ℕ
    pub prev_step_paid : ℕ
    pub fired_pushers : List ℕ

  -- `_compute_step_paid`; the subtraction on ℕ is the `max(0, …)`.
  unfoldable pub compute_step_paid : BudgetState → ℕ
  compute_step_paid s =
      (s.tokens_in - s.tokens_cached) + part F s.tokens_cached s.cache_discount + s.tokens_out

  -- `min(used / limit, 1.0)`, and 0.0 without a limit.
  abbrev pub capped_ratio : ℕ → ℕ → F.Real
  capped_ratio used limit =
      if limit == 0 then zero_float F else least F (F.ratio used limit) (one_float F)

  unfoldable pub token_ratio : BudgetState → F.Real
  token_ratio s = capped_ratio s.cumulative_paid s.original_tokens

  unfoldable pub step_ratio : BudgetState → F.Real
  step_ratio s = capped_ratio s.steps_used s.original_steps

  abbrev pub wall_part : F.Real → F.Real → Option F.Real → Option F.Real
  wall_part now start none = none
  wall_part now start (some limit) =
      if reaches F (zero_float F) limit
      then none
      else some (least F (F.div (F.sub now start) limit) (one_float F))

  unfoldable pub wall_ratio : F.Real → BudgetState → Option F.Real
  wall_ratio now s = wall_part now s.wall_start s.original_wall_time

  abbrev pub context_part : ℕ → Option ℕ → Option F.Real
  context_part used none = none
  context_part used (some limit) =
      if limit == 0
      then none
      else if used == 0
      then some (zero_float F)
      else some (least F (F.ratio used limit) (one_float F))

  unfoldable pub context_ratio : BudgetState → Option F.Real
  context_ratio s = context_part s.tokens_in s.original_max_context

  -- `max` over a list to which an optional ratio may have been appended.
  abbrev pub join_ratio : F.Real → Option F.Real → F.Real
  join_ratio best none = best
  join_ratio best (some r) = greatest F best r

  unfoldable pub max_ratio : F.Real → BudgetState → F.Real
  unfolding token_ratio step_ratio wall_ratio context_ratio
  max_ratio now s =
      join_ratio (join_ratio (greatest F (token_ratio s) (step_ratio s)) (wall_ratio now s))
        (context_ratio s)

  unfoldable pub exhausted : F.Real → BudgetState → Bool
  unfolding max_ratio
  exhausted now s = reaches F (max_ratio now s) (one_float F)

  abbrev pub tokens_remaining : BudgetState → ℕ
  tokens_remaining s = s.original_tokens - s.cumulative_paid

  abbrev pub steps_remaining : BudgetState → ℕ
  steps_remaining s = s.original_steps - s.steps_used

  -- The attribute that a `RatioEscalationPusher` reads.
  unfoldable pub read_axis : Axis → F.Real → BudgetState → Option F.Real
  unfolding token_ratio step_ratio wall_ratio context_ratio
  read_axis token_axis now s = some (token_ratio s)
  read_axis wall_axis now s = wall_ratio now s
  read_axis context_axis now s = context_ratio s
  read_axis step_axis now s = some (step_ratio s)
