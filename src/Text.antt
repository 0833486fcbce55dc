-- ===== src/Text.antt =====
-- Python's operations on `str` that orchestra/tools uses: a text is the list of its characters.
pub mod Laws
use Prim.Native.Char.{Char, code}
use diff_graph.Base.{
  Bool, List, String, [], false, if◌then◌else◌, leb, not, str_eq, suc, true, ℕ, ◌&&◌, ◌<>◌, ◌==◌,
  ◌||◌, ◌∷◌,
}
use text.Mathlib.Text.{starts_with}

-- `len(s)`.
abbrev pub chars : String → ℕ
chars String.[] = 0
chars (String.◌∷◌ c s) = suc (chars s)

-- The characters of `str.isspace`, which are those of `\s` as well.
unfoldable pub is_space : Char → Bool
is_space c =
    let n = code c in
    (leb 9 n && leb n 13)
    || (leb 28 n && leb n 32)
    || n == 133
    || n == 160
    || n == 5760
    || (leb 8192 n && leb n 8202)
    || n == 8232
    || n == 8233
    || n == 8239
    || n == 8287
    || n == 12288

abbrev pub is_empty_text : String → Bool
is_empty_text String.[] = true
is_empty_text (String.◌∷◌ c s) = false

-- `s.lstrip()`.
unfoldable pub skip_space : String → String
skip_space String.[] = String.[]
skip_space (String.◌∷◌ c s) = let rest = skip_space s in if is_space c then rest else String.◌∷◌ c s

unfoldable pub strip_end : String → String
strip_end String.[] = String.[]
strip_end (String.◌∷◌ c s) =
    let rest = strip_end s in
    if is_space c && is_empty_text rest then String.[] else String.◌∷◌ c rest

-- `s.strip()`.
abbrev pub strip : String → String
strip s = strip_end (skip_space s)

-- `s.endswith(t)`, for a `t` that is not empty.
unfoldable pub ends_with : String → String → Bool
ends_with String.[] t = false
ends_with (String.◌∷◌ c s) t = str_eq (String.◌∷◌ c s) t || ends_with s t

-- `t in s`, for a `t` that is not empty.
unfoldable pub contains : String → String → Bool
contains String.[] t = false
contains (String.◌∷◌ c s) t = starts_with (String.◌∷◌ c s) t || contains s t

abbrev pub but_last : String → String
but_last String.[] = String.[]
but_last (String.◌∷◌ c String.[]) = String.[]
but_last (String.◌∷◌ c (String.◌∷◌ d s)) = String.◌∷◌ c (but_last (String.◌∷◌ d s))

-- `s[1:-1]`.
abbrev pub inner_chars : String → String
inner_chars String.[] = String.[]
inner_chars (String.◌∷◌ c s) = but_last s

abbrev pub is_backslash : Char → Bool
is_backslash c = code c == 92

abbrev pub is_quote : Char → Bool
is_quote c = code c == 34

-- `s.replace('\\"', '"')`. The flag is set behind a backslash that is still to be written.
abbrev pub emit_char : (pending backslash quote : Bool) → Char → String → String
emit_char pending backslash quote c rest =
    let written = if backslash then rest else String.◌∷◌ c rest in
    if pending && not quote then String.◌∷◌ "\\" written else written

unfoldable pub unescape_from : Bool → String → String
unescape_from pending String.[] = if pending then "\\" else ""
unescape_from pending (String.◌∷◌ c s) =
    emit_char pending (is_backslash c) (is_quote c) c (unescape_from (is_backslash c) s)

abbrev pub unescape_quotes : String → String
unescape_quotes s = unescape_from false s
