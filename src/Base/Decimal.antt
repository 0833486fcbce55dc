-- ===== src/Base/Decimal.antt =====
-- Python's `str(n)` on a natural number, as in an f-string.
use Prim.Native.Nat.{suc, zero, ℕ, ◌%◌, ◌/◌}
use Prim.Native.String.{String, ◌++◌}
use diff_graph.Base.Tests.{if◌then◌else◌, ltb, ◌==◌}

digit : ℕ → String
digit n =
    if n == 0
    then "0"
    else if n == 1
    then "1"
    else if n == 2
    then "2"
    else if n == 3
    then "3"
    else if n == 4
    then "4"
    else if n == 5
    then "5"
    else if n == 6
    then "6"
    else if n == 7
    then "7"
    else if n == 8
    then "8"
    else "9"

-- The fuel bounds the number of digits after the first.
digits : ℕ → ℕ → String
digits zero n = digit n
digits (suc fuel) n =
    let front = digits fuel (n / 10) in if ltb n 10 then digit n else front ++ digit (n % 10)

unfoldable pub decimal : ℕ → String
unfolding digits digit
decimal n = digits n n
