-- ===== src/Diff/Lines.antt =====
-- Texts as lists of code points: prefixes, lines and numbers.
use Prim.Native.Char.{code}
use diff_graph.Base.{
  Bool, List, Option, String, [], false, if◌then◌else◌, is_some, leb, none, some, true, ℕ, ◌&&◌,
  ◌*◌, ◌+◌, ◌-◌, ◌==◌, ◌>>=◌, ◌||◌, ◌∷◌,
}

-- The code points of a text.
abbrev pub codes : String → List ℕ
codes String.[] = []
codes (String.◌∷◌ c text) = code c ∷ codes text

-- What follows a prefix, if the text has it.
abbrev pub strip : List ℕ → List ℕ → Option (List ℕ)
strip [] text = some text
strip (p ∷ prefix) [] = none
strip (p ∷ prefix) (c ∷ text) = if p == c then strip prefix text else none

-- `text.startswith(prefix)` and `text == other`.
abbrev pub starts : String → List ℕ → Bool
starts prefix text = is_some (strip (codes prefix) text)

abbrev pub equals : List ℕ → List ℕ → Bool
equals [] [] = true
equals [] (d ∷ other) = false
equals (c ∷ text) [] = false
equals (c ∷ text) (d ∷ other) = c == d && equals text other

-- The characters at which `str.splitlines` ends a line; a carriage return takes a line feed with it.
abbrev pub is_break : ℕ → Bool
is_break c = (leb 10 c && leb c 13) || (leb 28 c && leb c 30) || c == 133 || c == 8232 || c == 8233

-- A character in front of the first of some lines.
abbrev pub push_char : ℕ → List (List ℕ) → List (List ℕ)
push_char c [] = (c ∷ []) ∷ []
push_char c (line ∷ lines) = (c ∷ line) ∷ lines

-- `text.splitlines()`; the flag says that the character before was a carriage return.
abbrev pub split_lines : Bool → List ℕ → List (List ℕ)
split_lines returned [] = []
split_lines returned (c ∷ text) =
    let rest = split_lines (c == 13) text in
    let more = if is_break c then [] ∷ rest else push_char c rest in
    if returned && c == 10 then rest else more

abbrev is_digit : ℕ → Bool
is_digit c = leb 48 c && leb c 57

-- The longest run of digits in front of a text, and what follows.
abbrev pub span_digits : List ℕ → List ℕ × List ℕ
span_digits [] = ([], [])
span_digits (c ∷ text) =
    let rest = span_digits text in if is_digit c then (c ∷ rest.0, rest.1) else ([], c ∷ text)

-- `int(digits)`.
abbrev pub int_of : ℕ → List ℕ → ℕ
int_of n [] = n
int_of n (c ∷ digits) = int_of (n * 10 + (c - 48)) digits

-- `(\d+)`.
abbrev number_of : List ℕ × List ℕ → Option (ℕ × List ℕ)
number_of ([], text) = none
number_of (d ∷ digits, text) = some (int_of 0 (d ∷ digits), text)

abbrev pub read_number : List ℕ → Option (ℕ × List ℕ)
read_number text = number_of (span_digits text)

-- `(?:,\d+)?`.
abbrev after_count : List ℕ → Option (ℕ × List ℕ) → List ℕ
after_count text none = text
after_count text (some (n, rest)) = rest

abbrev pub skip_count : List ℕ → List ℕ
skip_count [] = []
skip_count (c ∷ text) = if c == 44 then after_count (c ∷ text) (read_number text) else c ∷ text

-- `_HUNK_HEADER.match`, with the numbers of its two groups.
unfoldable pub hunk_header : List ℕ → Option (ℕ × ℕ)
hunk_header line = do
  rest ← strip (codes "@@ -") line
  (before_start, rest) ← read_number rest
  rest ← strip (codes " +") (skip_count rest)
  (after_start, rest) ← read_number rest
  rest ← strip (codes " @@") (skip_count rest)
  some (before_start, after_start)
