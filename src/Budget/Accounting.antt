-- ===== src/Budget/Accounting.antt =====
-- The paid tokens over the steps of a run, and the budgets of children.
use diff_graph.Base.{List, [], arith, false, max, refl, ℕ, ◌+◌, ◌-◌, ◌∷◌, ◌≡◌, ◌≤◌}
use diff_graph.Budget.State.{
  BudgetState, compute_step_paid, context_ratio, exhausted, max_ratio, step_ratio, steps_remaining,
  token_ratio, tokens_remaining, wall_ratio,
}
use diff_graph.Budget.Tracker.{BudgetTracker, allocate_child, debit_child, start, update_tokens}
use diff_graph.Floats.{Float, FloatLaws, least, one_float, part}

module _ (F : Float) where
  -- One call of `update_tokens`: total, in, out, cached.
  pub record Usage : Type 0 where
    pub total : ℕ
    pub tokens_in : ℕ
    pub tokens_out : ℕ
    pub tokens_cached : ℕ

  abbrev pub apply_usage : BudgetState F → Usage → BudgetState F
  apply_usage s u = update_tokens F s u.total u.tokens_in u.tokens_out u.tokens_cached

  abbrev pub apply_usages : BudgetState F → List Usage → BudgetState F
  apply_usages s [] = s
  apply_usages s (u ∷ us) = apply_usages (apply_usage s u) us

  -- What a step costs at a discount.
  abbrev pub cost : F.Real → Usage → ℕ
  cost discount u = (u.tokens_in - u.tokens_cached) + part F u.tokens_cached discount + u.tokens_out

  abbrev pub total_cost : F.Real → List Usage → ℕ
  total_cost discount [] = 0
  total_cost discount (u ∷ us) = cost discount u + total_cost discount us

  abbrev pub highest_cost : F.Real → List Usage → ℕ
  highest_cost discount [] = 0
  highest_cost discount (u ∷ us) = max (cost discount u) (highest_cost discount us)

  run_bounds :
      (s : BudgetState F) (us : List Usage)
      → s.prev_step_paid ≤ s.cumulative_paid
      → (highest_cost s.cache_discount us ≤ (apply_usages s us).cumulative_paid)
        × (s.cumulative_paid ≤ (apply_usages s us).cumulative_paid)
        × ((apply_usages s us).cumulative_paid ≤ s.cumulative_paid + total_cost s.cache_discount us)
  unfolding update_tokens compute_step_paid
  run_bounds s [] h = (omega arith, omega arith, omega arith)
  run_bounds s (u ∷ us) h =
      let next : (s.cumulative_paid ≤ (apply_usage s u).cumulative_paid)
          × (cost s.cache_discount u ≤ (apply_usage s u).cumulative_paid)
          × ((apply_usage s u).cumulative_paid ≤ s.cumulative_paid + cost s.cache_discount u) =
        ground arith in
      let rest = run_bounds (apply_usage s u) us next.1 in
      (omega (arith, next, rest), omega (arith, next, rest), omega (arith, next, rest))

  -- Over any sequence of `update_tokens` on a fresh budget, the paid total is at most the sum of the
  -- steps' costs and at least the highest of them, a step's cost being its uncached prompt tokens, the
  -- discounted share of the cached ones and its output tokens.
  pub update_tokens_bounds :
      (now : F.Real) (tracker : BudgetTracker F) (us : List Usage)
      → (highest_cost tracker.config.cache_discount us
          ≤ (apply_usages (start F now tracker) us).cumulative_paid)
        × ((apply_usages (start F now tracker) us).cumulative_paid
            ≤ total_cost tracker.config.cache_discount us)
  unfolding start
  update_tokens_bounds now tracker us =
      let bounds = run_bounds (start F now tracker) us (omega arith) in
      (bounds.0, omega (arith, bounds))

  -- A child's tokens are at most the parent's remaining ones, its steps at most the parent's remaining
  -- ones or 1, and at least 1, for any fraction asked for, if the configured share for children is at
  -- most 1.0 and the remaining numbers at most 2^53.
  pub allocate_child_bounds :
      (laws : FloatLaws F) (now : F.Real) (tracker : BudgetTracker F) (parent : BudgetState F)
      (fraction : F.Real)
      → F.lt (one_float F) tracker.config.max_children_budget ≡ false
      → tokens_remaining F parent ≤ 9_007_199_254_740_992
      → steps_remaining F parent ≤ 9_007_199_254_740_992
      → ((allocate_child F now tracker parent fraction).max_tokens ≤ tokens_remaining F parent)
        × ((allocate_child F now tracker parent fraction).max_steps
            ≤ max 1 (steps_remaining F parent))
        × (1 ≤ (allocate_child F now tracker parent fraction).max_steps)
  unfolding allocate_child
  allocate_child_bounds laws now tracker parent fraction hm ht hs =
      let share = tracker.config.max_children_budget in
      let within : F.lt (one_float F) (least F fraction share) ≡ false =
        (let le = laws.lt_trans (one_float F) share fraction hm in ground arith) in
      let tokens = laws.part_le (tokens_remaining F parent) (least F fraction share) ht within in
      let steps = laws.part_le (steps_remaining F parent) (least F fraction share) hs within in
      (omega (arith, tokens), omega (arith, steps), omega arith)

  -- Debiting a child changes no ratio, neither what remains nor whether the budget is exhausted, and the
  -- next update of the parent's tokens forgets the debit.
  pub debit_child_free :
      (now : F.Real) (parent child : BudgetState F) (u : Usage)
      → (tokens_remaining F (debit_child F parent child) ≡ tokens_remaining F parent)
        × (max_ratio F now (debit_child F parent child) ≡ max_ratio F now parent)
        × (exhausted F now (debit_child F parent child) ≡ exhausted F now parent)
        × (apply_usage (debit_child F parent child) u ≡ apply_usage parent u)
  unfolding debit_child exhausted max_ratio token_ratio step_ratio wall_ratio context_ratio
      update_tokens compute_step_paid
  debit_child_free now parent child u = (refl, refl, refl, refl)
