-- ===== src/Budget/Cadence.antt =====
-- The nudges of a reflect cadence, over a run of any length.
use diff_graph.Base.{
  Bool, List, [], ap, arith, count_if, count_if-append, false, if◌then◌else◌, true, ℕ, ◌++◌, ◌+◌,
  ◌∷◌, ◌≡◌, ◌≤◌,
}
use diff_graph.Budget.Context.{PusherAction}
use diff_graph.Budget.Reflect.{ReflectCadencePusher, cadence_step, rearm}
use diff_graph.Budget.State.{PusherType, nudge}
use diff_graph.Floats.{Float}

module _ (F : Float) where
  abbrev pub is_nudge_type : PusherType → Bool
  is_nudge_type nudge = true
  is_nudge_type _ = false

  abbrev pub is_nudge : PusherAction F → Bool
  is_nudge action = is_nudge_type action.type

  -- `apply` of a cadence at each of a run's counters: all actions appended.
  abbrev pub cadence_run : ReflectCadencePusher F → List F.Real → List (PusherAction F)
  cadence_run p [] = []
  cadence_run p (counter ∷ counters) =
      let stepped = cadence_step F counter (rearm F counter p) in
      stepped.1 ++ cadence_run stepped.0 counters

  -- How often a counter is below the one before it.
  abbrev pub drops : F.Real → List F.Real → ℕ
  drops last [] = 0
  drops last (counter ∷ counters) = (if F.lt counter last then 1 else 0) + drops counter counters

  abbrev armed : Bool → ℕ
  armed nudged = if nudged then 0 else 1

  cadence_step-nudges :
      (counter : F.Real) (p : ReflectCadencePusher F)
      → ((cadence_step F counter (rearm F counter p)).0.last_counter ≡ counter)
        × (count_if is_nudge (cadence_step F counter (rearm F counter p)).1
              + armed (cadence_step F counter (rearm F counter p)).0.nudged_in_cycle
            ≤ armed p.nudged_in_cycle + (if F.lt counter p.last_counter then 1 else 0))
  unfolding cadence_step rearm
  cadence_step-nudges counter p = ground arith

  -- Over a run with any counters, a cadence nudges at most once for each cycle, a cycle ending where the
  -- counter drops; and not at all before the first drop if it has nudged already.
  pub cadence_run-nudges :
      (p : ReflectCadencePusher F) (counters : List F.Real)
      → count_if is_nudge (cadence_run p counters)
        ≤ (if p.nudged_in_cycle then 0 else 1) + drops p.last_counter counters
  unfolding cadence_step rearm
  cadence_run-nudges p [] = omega arith
  cadence_run-nudges p (counter ∷ counters) =
      let stepped = cadence_step F counter (rearm F counter p) in
      let split = count_if-append is_nudge stepped.1 (cadence_run stepped.0 counters) in
      let rest = cadence_run-nudges stepped.0 counters in
      let one = cadence_step-nudges counter p in
      let last : drops stepped.0.last_counter counters ≡ drops counter counters =
        ap (λ l. drops l counters) one.0 in
      omega (arith, split, rest, one.1, last)
