-- ===== src/Tools/Truncated.antt =====
-- `_repair_truncated_json`: the keys without a value, dropped from a text by three regular expressions.
--
-- In each of them what may follow a repeated class is outside the class, so a match is found without going back.
use Prim.Native.Char.{Char, code}
use diff_graph.Base.{
  Bool, Option, String, false, if◌then◌else◌, is_text, none, some, suc, true, zero, ℕ, ◌==◌, ◌>>=◌,
  ◌||◌,
}
use diff_graph.Text.{chars, is_quote, skip_space}

-- One character.
abbrev pub expect : ℕ → String → Option String
expect k String.[] = none
expect k (String.◌∷◌ c s) = if code c == k then some s else none

-- `[^"]*"`.
unfoldable pub past_quote : String → Option String
past_quote String.[] = none
past_quote (String.◌∷◌ c s) = if is_quote c then some s else past_quote s

-- `\s*"[^"]*"\s*:\s*`.
unfoldable pub empty_key : String → Option String
empty_key s = do
  opened ← expect b'"' (skip_space s)
  closed ← past_quote opened
  behind ← expect b':' (skip_space closed)
  some (skip_space behind)

abbrev pub next_is : ℕ → String → Bool
next_is k String.[] = false
next_is k (String.◌∷◌ c s) = code c == k

abbrev pub only_if : Bool → String → Option String
only_if b s = if b then some s else none

-- What is left behind a match at a character, and whether that character is written back.
abbrev pub Rule : Type 0
Rule = Char → String → Option (Bool × String)

abbrev pub with_flag : Bool → Option String → Option (Bool × String)
with_flag flag none = none
with_flag flag (some s) = some (flag, s)

abbrev pub is_opening : Char → Bool
is_opening c = code c == b'{' || code c == b'['

-- `,\s*"[^"]*"\s*:\s*(?=[}])`, replaced by nothing.
abbrev pub inner_or_trailing : Rule
inner_or_trailing c s =
    if code c == b','
    then with_flag false
        (empty_key s >>= λ rest. only_if (next_is b',' rest || next_is b'}' rest) rest)
    else none

-- `([{\[])\s*"[^"]*"\s*:\s*,\s*`, replaced by the group.
abbrev pub leading_with_more : Rule
leading_with_more c s =
    if is_opening c
    then with_flag true
        (empty_key s >>= λ rest. expect b',' rest >>= λ more. some (skip_space more))
    else none

-- `([{\[])\s*"[^"]*"\s*:\s*(?=})`, replaced by the group.
abbrev pub leading_lonely : Rule
leading_lonely c s =
    if is_opening c
    then with_flag true (empty_key s >>= λ rest. only_if (next_is b'}' rest) rest)
    else none

abbrev pub written : Bool → Char → String → String
written flag c s = if flag then String.◌∷◌ c s else s

-- `pattern.sub(…, s)`: from left to right, and on behind a match. Each match is of one character at least, so
-- the length of the text is enough fuel.
unfoldable pub sub_from : Rule → ℕ → String → String
sub_from rule zero s = s
sub_from rule (suc n) String.[] = String.[]
sub_from rule (suc n) (String.◌∷◌ c s) = elim (rule c s) [
  | none ↦ String.◌∷◌ c (sub_from rule n s)
  | some r ↦ written r.0 c (sub_from rule n r.1)
]

abbrev pub sub : Rule → String → String
sub rule s = sub_from rule (chars s) s

abbrev pub pass : String → String
pass s = sub leading_lonely (sub leading_with_more (sub inner_or_trailing s))

-- The loop with `prev` and `cur`.
unfoldable pub repair_passes : ℕ → Option String → String → String
repair_passes zero prev cur = cur
repair_passes (suc n) prev cur = elim (is_text prev cur) [
  | true ↦ cur
  | false ↦ repair_passes n (some cur) (pass cur)
]

abbrev pub repair_truncated_json : String → String
repair_truncated_json raw = repair_passes 8 none raw
