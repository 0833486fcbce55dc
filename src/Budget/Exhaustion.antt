-- ===== src/Budget/Exhaustion.antt =====
-- When `BudgetState.exhausted` holds, dimension by dimension.
use diff_graph.Base.{
  Bool, Option, arith, false, leb, none, not, some, ℕ, ◌&&◌, ◌==◌, ◌||◌, ◌≡◌, ◌≤◌,
}
use diff_graph.Budget.State.{
  BudgetState, capped_ratio, context_part, context_ratio, exhausted, join_ratio, max_ratio,
  step_ratio, token_ratio, wall_part, wall_ratio,
}
use diff_graph.Floats.{Float, FloatLaws, greatest, least, one_float, reaches, zero_float}

not_all : (a b c d : Bool) → not (((not a && not b) && not c) && not d) ≡ (a || b || c || d)
not_all a b c d = ground arith

module _ (F : Float) (laws : FloatLaws F) where
  -- What a dimension's ratio of 1.0 says.
  abbrev is_full : ℕ → ℕ → Bool
  is_full used limit = not (limit == 0) && leb limit used

  abbrev exact : ℕ
  exact = 9_007_199_254_740_992

  lt-one : F.lt (one_float F) (one_float F) ≡ false
  lt-one = let asym = laws.lt_asym (one_float F) (one_float F) in ground arith

  capped_ratio_lem :
      (used limit : ℕ)
      → limit ≤ exact
      → F.lt (capped_ratio F used limit) (one_float F) ≡ not (is_full used limit)
  capped_ratio_lem used limit h =
      let full = laws.ratio_full used limit in
      let short = laws.ratio_short used limit in
      let asym = laws.lt_asym (F.ratio used limit) (one_float F) in
      let zero = laws.zero_short in let irrefl = lt-one in ground arith

  lt-greatest : (a b c : F.Real) → F.lt (greatest F a b) c ≡ (F.lt a c && F.lt b c)
  lt-greatest a b c =
      let asym = laws.lt_asym b c in
      let first = laws.lt_trans a c b in let second = laws.lt_trans a b c in ground arith

  abbrev is_late : F.Real → F.Real → Option F.Real → Bool
  is_late now start none = false
  is_late now start (some limit) =
      F.lt (zero_float F) limit && reaches F (F.div (F.sub now start) limit) (one_float F)

  abbrev is_filled : ℕ → Option ℕ → Bool
  is_filled used none = false
  is_filled used (some limit) = is_full used limit

  abbrev limit_or_zero : Option ℕ → ℕ
  limit_or_zero none = 0
  limit_or_zero (some limit) = limit

  lt-join_wall :
      (best now start : F.Real) (limit : Option F.Real)
      → F.lt (join_ratio F best (wall_part F now start limit)) (one_float F)
        ≡ (F.lt best (one_float F) && not (is_late now start limit))
  lt-join_wall best now start none = ground arith
  lt-join_wall best now start (some limit) =
      let elapsed = F.div (F.sub now start) limit in
      let joined = lt-greatest best (least F elapsed (one_float F)) (one_float F) in
      let asym = laws.lt_asym elapsed (one_float F) in let irrefl = lt-one in ground arith

  lt-join_context :
      (best : F.Real) (used : ℕ) (limit : Option ℕ)
      → limit_or_zero limit ≤ exact
      → F.lt (join_ratio F best (context_part F used limit)) (one_float F)
        ≡ (F.lt best (one_float F) && not (is_filled used limit))
  lt-join_context best used none h = ground arith
  lt-join_context best used (some limit) h =
      let joined = lt-greatest best (capped_ratio F used limit) (one_float F) in
      let zero = lt-greatest best (zero_float F) (one_float F) in
      let short = laws.zero_short in let ratio = capped_ratio_lem used limit h in ground arith

  -- With limits up to 2^53, a budget is exhausted exactly if, in one of the dimensions that has a
  -- positive limit, what was used reaches it: the paid tokens, the steps, the elapsed time (its quotient
  -- by the limit is at least 1.0), or the tokens of the last prompt.
  pub exhausted_lem :
      (now : F.Real) (s : BudgetState F)
      → s.original_tokens ≤ exact
      → s.original_steps ≤ exact
      → limit_or_zero s.original_max_context ≤ exact
      → exhausted F now s ≡ (
          is_full s.cumulative_paid s.original_tokens
          || is_full s.steps_used s.original_steps
          || is_late now s.wall_start s.original_wall_time
          || is_filled s.tokens_in s.original_max_context)
  unfolding exhausted max_ratio token_ratio step_ratio wall_ratio context_ratio
  exhausted_lem now s ht hs hc =
      let tokens = capped_ratio_lem s.cumulative_paid s.original_tokens ht in
      let steps = capped_ratio_lem s.steps_used s.original_steps hs in
      let token_part = capped_ratio F s.cumulative_paid s.original_tokens in
      let step_part = capped_ratio F s.steps_used s.original_steps in
      let both = lt-greatest token_part step_part (one_float F) in
      let with_wall =
        lt-join_wall (greatest F token_part step_part) now s.wall_start s.original_wall_time in
      let with_context =
        lt-join_context
          (join_ratio F (greatest F token_part step_part)
            (wall_part F now s.wall_start s.original_wall_time))
          s.tokens_in s.original_max_context hc in
      rw (with_context, with_wall, both, tokens, steps) (not_all _ _ _ _)
