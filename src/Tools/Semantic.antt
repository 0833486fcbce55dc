-- ===== src/Tools/Semantic.antt =====
-- orchestra/tool_mocks_semantic.py: a model picks the fixture that fits what a call asks for.
pub mod Range
use Prim.Native.Char.{Char, code}
use diff_graph.Base.{
  Bool, List, Option, String, [], decimal, false, if◌then◌else◌, leb, length, ltb, map, none, not,
  or_else, some, str_eq, suc, true, zero, ℕ, ◌&&◌, ◌+◌, ◌-◌, ◌<>◌, ◌==◌, ◌>>=◌, ◌||◌, ◌∷◌,
}
use diff_graph.Dict.{get?}
use diff_graph.Json.{Dict, Json, as_dict, is_null}
use diff_graph.Messages.{take_chars}
use diff_graph.Text.{chars, is_empty_text, skip_space, strip}
use diff_graph.Tools.{Libraries, str_of}
use diff_graph.Tools.Repair.{value_of}
use text.Mathlib.Text.{starts_with}

pub record SemanticFixture : Type 0 where
  pub examples : List String
  pub return_data : Json

-- What the judge needs of the language and of the model. An `int` below zero is kept as 0, which the test of the
-- range treats alike.
pub record Judge : Type 1 where
  pub Real : Type 0
  pub zero_real : Real
  -- The literal 0.6.
  pub default_threshold : Real
  -- `a >= b`, which is false of NaN.
  pub ge : Real → Real → Bool
  -- `int(v)` and `float(v)`, where they raise no `TypeError` or `ValueError`.
  pub int_of : Json → Option ℕ
  pub float_of : Json → Option Real
  -- Where they raise an `OverflowError`, as for `Infinity` and for an integer beyond the floats.
  pub int_overflows : Json → Bool
  pub float_overflows : Json → Bool
  pub repr_text : String → String
  -- `llm_caller`, by its prompt and its model, if one is injected; its answer is `none` for an exception.
  pub llm_caller : Option (String → Option String → Option String)

-- `re.search` of `\{.*?\}`: from the first opening brace to the next closing one.
abbrev pub until_brace : String → Option String
until_brace String.[] = none
until_brace (String.◌∷◌ c s) =
    let rest = until_brace s in
    if code c == b'}'
    then some (String.◌∷◌ c String.[])
    else rest >>= λ blob. some (String.◌∷◌ c blob)

abbrev pub json_blob : String → Option String
json_blob String.[] = none
json_blob (String.◌∷◌ c s) =
    let rest = json_blob s in
    if code c == b'{' then (until_brace s >>= λ blob. some (String.◌∷◌ c blob)) else rest

-- The first characters, in either case.
abbrev pub is_letter : ℕ → Char → Bool
is_letter lower c = code c == lower || code c == lower - 32

abbrev pub behind_json : String → Option String
behind_json (String.◌∷◌ j (String.◌∷◌ s (String.◌∷◌ o (String.◌∷◌ n rest)))) =
    if is_letter b'j' j && is_letter b's' s && is_letter b'o' o && is_letter b'n' n
    then some (skip_space rest)
    else none
behind_json _ = none

abbrev pub or_whole : String → Option String → String
or_whole s none = s
or_whole s (some t) = t

-- ``s.strip("`")``.
abbrev pub skip_ticks : String → String
skip_ticks String.[] = String.[]
skip_ticks (String.◌∷◌ c s) =
    let rest = skip_ticks s in if code c == b'`' then rest else String.◌∷◌ c s

abbrev pub strip_ticks_end : String → String
strip_ticks_end String.[] = String.[]
strip_ticks_end (String.◌∷◌ c s) =
    let rest = strip_ticks_end s in
    if code c == b'`' && is_empty_text rest then String.[] else String.◌∷◌ c rest

abbrev pub without_fence : String → String
without_fence s =
    if starts_with s "```"
    then (let inside = strip_ticks_end (skip_ticks s) in or_whole inside (behind_json inside))
    else s

unfoldable pub parse_judge_json : Libraries → String → Option Json
parse_judge_json libs text =
    if is_empty_text text
    then none
    else let s = without_fence (strip text) in
      or_else (value_of (libs.loads s)) (json_blob text >>= λ blob. value_of (libs.loads blob))

abbrev pub join : String → List String → String
join separator [] = ""
join separator (s ∷ []) = s
join separator (s ∷ t ∷ rest) = s <> separator <> join separator (t ∷ rest)

-- The blocks of the candidates, numbered from 1.
abbrev pub blocks : ℕ → List SemanticFixture → List String
blocks i [] = []
blocks i (f ∷ fixtures) =
    ("[" <> decimal i <> "]\n" <> join "\n" (map (λ ex. "  - " <> ex) f.examples))
    ∷ blocks (i + 1) fixtures

unfoldable pub judge_prompt : Judge → String → List SemanticFixture → String
judge_prompt judge actual fixtures =
    let n = decimal (length fixtures) in
    "You are matching an investigation focus to one of "
    <> n
    <> " pre-authored fixtures.\n\nEach fixture has example focus phrasings — pick the fixture whose examples describe the SAME concern as the actual focus below. Phrasing will differ; intent is what matters.\n\nACTUAL FOCUS:\n"
    <> judge.repr_text actual
    <> "\n\nCANDIDATES:\n"
    <> join "\n\n" (blocks 1 fixtures)
    <> "\n\nReturn JSON only (no prose, no code fence):\n{\"match\": <integer 1-"
    <> n
    <> " for a match, or 0 for no match>, \"confidence\": <float 0.0-1.0>, \"reason\": \"<one short line, max 80 chars>\"}"

module _ (judge : Judge) where
  -- `index` is `none` for -1.
  pub record MatchResult : Type 0 where
    pub index : Option ℕ
    pub confidence : judge.Real
    pub reason : String

  pub data Judged : Type 0 where
    matched : MatchResult → Judged
    crashes : String → Judged

  pub record SemanticConfig : Type 0 where
    pub strategy : String
    pub fixtures : List SemanticFixture
    pub model : Option String
    pub on_arg : String
    pub threshold : judge.Real
    pub on_no_match : String

  abbrev pub or_default {ℓ} : {A : Type ℓ} → A → Option A → A
  or_default d none = d
  or_default d (some a) = a

  -- `int(parsed.get("match", 0))` and the other two, each with its default.
  abbrev pub match_index : Dict → ℕ
  match_index parsed = or_default 0 (get? "match" parsed >>= judge.int_of)

  abbrev pub match_confidence : Dict → judge.Real
  match_confidence parsed = or_default judge.zero_real (get? "confidence" parsed >>= judge.float_of)

  abbrev pub match_reason : Libraries → Dict → String
  match_reason libs parsed =
      take_chars 200 (or_default "" (get? "reason" parsed >>= λ v. some (str_of libs v)))

  abbrev pub pick : List SemanticFixture → ℕ → judge.Real → String → MatchResult
  pick fixtures i confidence reason =
      if ltb i 1 || ltb (length fixtures) i
      then record {
        index = none;
        confidence = confidence;
        reason = if is_empty_text reason then "out-of-range match index" else reason;
      }
      else record { index = some (i - 1); confidence = confidence; reason = reason }

  abbrev held_by : (Json → Bool) → Option Json → Bool
  held_by p none = false
  held_by p (some v) = p v

  -- An `OverflowError` of either conversion is not caught.
  abbrev pub overflows : Dict → Bool
  overflows parsed =
      held_by judge.int_overflows (get? "match" parsed)
      || held_by judge.float_overflows (get? "confidence" parsed)

  -- An answer that is JSON but no object has no `get`.
  abbrev pub judged_dict : Libraries → List SemanticFixture → Option Dict → Judged
  judged_dict libs fixtures none = crashes "AttributeError"
  judged_dict libs fixtures (some parsed) =
      if overflows parsed
      then crashes "OverflowError"
      else matched
          (pick fixtures (match_index parsed) (match_confidence parsed) (match_reason libs parsed))

  abbrev pub no_index : String → Judged
  no_index reason = matched (record { index = none; confidence = judge.zero_real; reason = reason })

  -- A null reads as no answer.
  abbrev pub judged_answer : Libraries → List SemanticFixture → Option Json → Judged
  judged_answer libs fixtures none = no_index "judge returned unparseable JSON"
  judged_answer libs fixtures (some v) =
      if is_null v
      then no_index "judge returned unparseable JSON"
      else judged_dict libs fixtures (as_dict v)

  abbrev pub answer_of : Libraries → List SemanticFixture → Option String → Judged
  answer_of libs fixtures none = crashes "llm_caller"
  answer_of libs fixtures (some raw) = judged_answer libs fixtures (parse_judge_json libs raw)

  abbrev pub llm_judge_match :
      Libraries
      → String
      → List SemanticFixture
      → Option String
      → (String → Option String → Option String)
      → Judged
  llm_judge_match libs actual fixtures model caller =
      answer_of libs fixtures (caller (judge_prompt judge actual fixtures) model)

  abbrev pub ask_judge :
      Libraries → String → SemanticConfig → Option (String → Option String → Option String) → Judged
  ask_judge libs actual cfg none =
      crashes "semantic match strategy 'llm_judge' requires an llm_caller"
  ask_judge libs actual cfg (some caller) =
      llm_judge_match libs actual cfg.fixtures cfg.model caller

  abbrev pub is_empty_fixtures : List SemanticFixture → Bool
  is_empty_fixtures [] = true
  is_empty_fixtures (f ∷ fs) = false

  unfoldable pub semantic_match : Libraries → String → SemanticConfig → Judged
  semantic_match libs actual cfg =
      if is_empty_fixtures cfg.fixtures
      then no_index "no fixtures configured"
      else if str_eq cfg.strategy "llm_judge"
      then ask_judge libs actual cfg judge.llm_caller
      else crashes "unknown semantic match strategy"
