-- ===== src/Floats/Millionths.antt =====
-- A model of the operations in which they run: numbers in millionths, rounded down. It stands in the
-- tests for the machine's floats, and shows that the laws can hold together.
use Prim.Native.Nat.{◌/◌}
use diff_graph.Base.{arith, false, ltb, refl, true, ℕ, ◌*◌, ◌-◌, ◌<◌, ◌≡◌, ◌≤◌}
use diff_graph.Floats.{Float, FloatLaws}
use native.Mathlib.Nat.{div-lt_iff_lt-mul, le-div_iff_mul-le, mul-le-mul_left}

abbrev pub millionths : Float
millionths = record {
  Real = ℕ;
  lt = ltb;
  ratio = λ n d. n * 1_000_000 / d;
  div = λ a b. a * 1_000_000 / b;
  mul = λ a b. a * b / 1_000_000;
  sub = λ a b. a - b;
  truncate = λ a. a / 1_000_000;
  format = λ template x. template;
}

ratio_full : (n d : ℕ) → 0 < d → d ≤ n → ltb (n * 1_000_000 / d) 1_000_000 ≡ false
ratio_full n d h k =
    let full : 1_000_000 ≤ n * 1_000_000 / d = (le-div_iff_mul-le h).1 (omega arith) in ground arith

ratio_below : (n d : ℕ) → n < d → n * 1_000_000 / d < 1_000_000
ratio_below n d h =
    let positive : 0 < d = omega arith in (div-lt_iff_lt-mul positive).1 (omega arith)

ratio_short : (n d : ℕ) → n < d → ltb (n * 1_000_000 / d) 1_000_000 ≡ true
ratio_short n d h = ground (arith, ratio_below n d h)

part_le : (n x : ℕ) → ltb 1_000_000 x ≡ false → n * 1_000_000 / 1 * x / 1_000_000 / 1_000_000 ≤ n
part_le n x k =
    let small : x ≤ 1_000_000 = ground arith in
    let whole : n * 1_000_000 / 1 ≡ n * 1_000_000 = omega arith in
    let bound : n * 1_000_000 * x ≤ n * 1_000_000 * 1_000_000 =
      mul-le-mul_left (n * 1_000_000) small in
    rw whole (omega arith)

pub millionths_laws : FloatLaws millionths
millionths_laws = record {
  lt_asym = λ a b h. ground arith;
  lt_trans = λ a b c h k. ground arith;
  ratio_full = ratio_full;
  ratio_short = λ n d h k. ratio_short n d h;
  zero_short = refl;
  part_le = λ n x h k. part_le n x k;
}
