-- ===== src/Text/Laws.antt =====
-- Lengths of the texts that the operations of Text.antt give.
use diff_graph.Base.{Bool, String, arith, false, if◌then◌else◌, suc, true, zero, ℕ, ◌+◌, ◌≤◌}
use diff_graph.Messages.{take_chars}
use diff_graph.Text.{Char, chars, emit_char, is_backslash, is_quote, skip_space, unescape_from}

pub chars-take_chars : (n : ℕ) (s : String) → chars (take_chars n s) ≤ n
chars-take_chars zero s = omega arith
chars-take_chars (suc n) String.[] = omega arith
chars-take_chars (suc n) (String.◌∷◌ c s) = omega (arith, chars-take_chars n s)

pub chars-skip_space : (s : String) → chars (skip_space s) ≤ chars s
unfolding skip_space
chars-skip_space String.[] = omega arith
chars-skip_space (String.◌∷◌ c s) = ground (arith, chars-skip_space s)

abbrev pub weight : Bool → ℕ
weight pending = if pending then 1 else 0

chars-emit_char :
    (pending backslash quote : Bool) (c : Char) (rest : String)
    → chars (emit_char pending backslash quote c rest) + weight backslash
      ≤ weight pending + chars rest + 1
chars-emit_char true true true c rest = omega arith
chars-emit_char true true false c rest = omega arith
chars-emit_char true false true c rest = omega arith
chars-emit_char true false false c rest = omega arith
chars-emit_char false true true c rest = omega arith
chars-emit_char false true false c rest = omega arith
chars-emit_char false false true c rest = omega arith
chars-emit_char false false false c rest = omega arith

chars-unescape_from :
    (pending : Bool) (s : String) → chars (unescape_from pending s) ≤ weight pending + chars s
unfolding unescape_from
chars-unescape_from true String.[] = omega arith
chars-unescape_from false String.[] = omega arith
chars-unescape_from pending (String.◌∷◌ c s) = omega (
  arith,
  chars-unescape_from (is_backslash c) s,
  chars-emit_char pending (is_backslash c) (is_quote c) c (unescape_from (is_backslash c) s),
)
