-- ===== src/Children/Pending.antt =====
-- When `_any_pusher_pending` wakes an await.
use diff_graph.Base.{
  Bool, Bool-cases, List, Option, String, [], any, arith, false, inl, inr, none, refl, some, true,
  ◌||◌, ◌∷◌, ◌≡◌,
}
use diff_graph.Budget.Context.{PusherAction}
use diff_graph.Budget.Escalation.{RatioEscalationPusher, Rung, climb}
use diff_graph.Budget.State.{BudgetState, read_axis}
use diff_graph.Budget.Tracker.{
  BudgetTracker, Handler, apply_handler, cadence_handler, callback_handler, counter_handler,
  escalation_handler, guard_handler, ratio_handler, trace_handler,
}
use diff_graph.Children.{any_pusher_pending, is_pusher_ready, is_ready, ready_at}
use diff_graph.Floats.{Float}

module _ (F : Float) where
  abbrev pub is_nonempty {ℓ} : {A : Type ℓ} → List A → Bool
  is_nonempty [] = false
  is_nonempty (a ∷ actions) = true

  -- The actions that an escalation's step appends at a ratio.
  abbrev pub actions_at : RatioEscalationPusher F → Option F.Real → List (PusherAction F)
  actions_at p none = []
  actions_at p (some ratio) = (climb F p.kind ratio p.levels).1

  -- Whether a producer is an escalation that appends an action in a step that begins now.
  abbrev pub fires : F.Real → BudgetState F → Handler F → Bool
  fires now state (escalation_handler p) =
      is_nonempty (actions_at p (read_axis F p.ratio_attr now state))
  fires now state (counter_handler n) = false
  fires now state (guard_handler g) = false
  fires now state (ratio_handler pushers) = false
  fires now state (cadence_handler p) = false
  fires now state (callback_handler pending) = false
  fires now state apply_handler = false
  fires now state trace_handler = false

  ready-climb :
      (kind : String) (ratio : F.Real) (levels : List (Rung F))
      → any (is_ready F ratio) levels ≡ is_nonempty (climb F kind ratio levels).1
  unfolding climb
  ready-climb kind ratio [] = refl
  ready-climb kind ratio (r ∷ rs) = elim (Bool-cases r.fired) [
    | inl e ↦ rw e (ready-climb kind ratio rs)
    | inr e ↦ elim (Bool-cases (F.lt ratio r.at)) [
      | inl low ↦ rw (e, low) (ready-climb kind ratio rs)
      | inr reached ↦ rw (e, reached) refl
    ]
  ]

  ready-actions :
      (p : RatioEscalationPusher F) (o : Option F.Real)
      → ready_at F p.levels o ≡ is_nonempty (actions_at p o)
  ready-actions p none = refl
  ready-actions p (some ratio) = ready-climb p.kind ratio p.levels

  ready-fires :
      (now : F.Real) (state : BudgetState F) (h : Handler F)
      → is_pusher_ready F now state h ≡ fires now state h
  ready-fires now state (escalation_handler p) =
      ready-actions p (read_axis F p.ratio_attr now state)
  ready-fires now state (counter_handler n) = refl
  ready-fires now state (guard_handler g) = refl
  ready-fires now state (ratio_handler pushers) = refl
  ready-fires now state (cadence_handler p) = refl
  ready-fires now state (callback_handler pending) = refl
  ready-fires now state apply_handler = refl
  ready-fires now state trace_handler = refl

  any-fires :
      (now : F.Real) (state : BudgetState F) (hs : List (Handler F))
      → any (is_pusher_ready F now state) hs ≡ any (fires now state) hs
  any-fires now state [] = refl
  any-fires now state (h ∷ hs) = ground (arith, ready-fires now state h, any-fires now state hs)

  -- A pusher is pending exactly if a child's result waits in the callback queue or one of the tracker's escalations would
  -- append an action in a step that begins now.
  pub any_pusher_pending_lem :
      {R : Type 0} (now : F.Real) (queue : List R) (state : BudgetState F)
      (tracker : BudgetTracker F)
      → any_pusher_pending F now queue state tracker
        ≡ (is_nonempty queue || any (fires now state) tracker.producers)
  unfolding any_pusher_pending
  any_pusher_pending_lem now [] state tracker = any-fires now state tracker.producers
  any_pusher_pending_lem now (r ∷ queue) state tracker = refl
