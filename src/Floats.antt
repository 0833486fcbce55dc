-- ===== src/Floats.antt =====
-- Python's floats, as far as orchestra/budget.py and orchestra/feedback.py use them: a type with the
-- operations of the language, and the laws of IEEE 754 that some theorems rest on. No NaN arises in
-- that code, so `a >= b` is `not (a < b)`.
pub mod Millionths
use diff_graph.Base.{Bool, String, false, if◌then◌else◌, not, true, ℕ, ◌<◌, ◌≡◌, ◌≤◌}

pub record Float : Type 1 where
  pub Real : Type 0
  pub lt : Real → Real → Bool
  -- int / int, correctly rounded; so a literal such as 0.75 is `ratio 75 100`, and an integer n that
  -- stands among floats is `ratio n 1`.
  pub ratio : ℕ → ℕ → Real
  pub div : Real → Real → Real
  pub mul : Real → Real → Real
  pub sub : Real → Real → Real
  -- `int(x)` for a non-negative x.
  pub truncate : Real → ℕ
  -- `template.format(threshold=x)`.
  pub format : String → Real → String

module _ (F : Float) where
  open F use {Real, lt, ratio, mul, truncate}

  abbrev pub zero_float : Real
  zero_float = ratio 0 1

  abbrev pub one_float : Real
  one_float = ratio 1 1

  -- `a >= b`.
  abbrev pub reaches : Real → Real → Bool
  reaches a b = not (lt a b)

  -- `min(a, b)` and `max(a, b)`: the first of equals.
  abbrev pub least : Real → Real → Real
  least a b = if lt b a then b else a

  abbrev pub greatest : Real → Real → Real
  greatest a b = if lt a b then b else a

  -- `int(n * x)`.
  abbrev pub part : ℕ → Real → ℕ
  part n x = truncate (mul (ratio n 1) x)

-- The order is a weak order, and the quotient of two exact integers reaches 1.0 exactly if it should.
pub record FloatLaws (F : Float) : Type 0 where
  pub lt_asym : (a b : F.Real) → F.lt a b ≡ true → F.lt b a ≡ false
  pub lt_trans : (a b c : F.Real) → F.lt a b ≡ false → F.lt b c ≡ false → F.lt a c ≡ false
  pub ratio_full : (n d : ℕ) → 0 < d → d ≤ n → F.lt (F.ratio n d) (F.ratio 1 1) ≡ false
  pub ratio_short :
      (n d : ℕ) → n < d → d ≤ 9_007_199_254_740_992 → F.lt (F.ratio n d) (F.ratio 1 1) ≡ true
  pub zero_short : F.lt (F.ratio 0 1) (F.ratio 1 1) ≡ true
  -- A fraction of an exact integer, for a factor of at most 1.0, is at most the integer.
  pub part_le :
      (n : ℕ) (x : F.Real)
      → n ≤ 9_007_199_254_740_992
      → F.lt (F.ratio 1 1) x ≡ false
      → F.truncate (F.mul (F.ratio n 1) x) ≤ n
