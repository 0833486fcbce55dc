-- ===== src/Tools/Semantic/Range.antt =====
-- The index that the judge's answer gives is one of a fixture.
use diff_graph.Base.{
  Bool-cases, List, Option, String, arith, inl, inr, length, ltb, none, some, str_eq, ℕ, ◌-◌, ◌<◌,
  ◌||◌,
}
use diff_graph.Json.{Dict, Json, as_dict, is_null}
use diff_graph.Tools.{Libraries}
use diff_graph.Tools.Semantic.{
  Judge, Judged, SemanticConfig, SemanticFixture, answer_of, ask_judge, crashes, is_empty_fixtures,
  judge_prompt, judged_answer, judged_dict, match_confidence, match_index, match_reason, matched,
  overflows, parse_judge_json, pick, semantic_match,
}

module _ (judge : Judge) where
  -- No index, or the index of a fixture.
  abbrev pub IsInRange : List SemanticFixture → Judged judge → Type 0
  IsInRange fixtures (crashes why) = Unit
  IsInRange fixtures (matched r) = elim r.index [ none ↦ Unit | some i ↦ i < length fixtures ]

  pick_range :
      (fixtures : List SemanticFixture) (i : ℕ) (confidence : judge.Real) (reason : String)
      → IsInRange fixtures (matched (pick judge fixtures i confidence reason))
  pick_range fixtures i confidence reason = elim (Bool-cases (ltb i 1 || ltb (length fixtures) i)) [
    | inl e ↦ rw e tt
    | inr e ↦ let less : i - 1 < length fixtures = ground (arith, e) in rw e less
  ]

  dict_range :
      (libs : Libraries) (fixtures : List SemanticFixture) (o : Option Dict)
      → IsInRange fixtures (judged_dict judge libs fixtures o)
  dict_range libs fixtures none = tt
  dict_range libs fixtures (some parsed) = elim (Bool-cases (overflows judge parsed)) [
    | inl e ↦ rw e tt
    | inr e ↦ rw e (
        pick_range fixtures (match_index judge parsed) (match_confidence judge parsed)
          (match_reason judge libs parsed))
  ]

  judged_range :
      (libs : Libraries) (fixtures : List SemanticFixture) (o : Option Json)
      → IsInRange fixtures (judged_answer judge libs fixtures o)
  judged_range libs fixtures none = tt
  judged_range libs fixtures (some v) = elim (Bool-cases (is_null v)) [
    | inl e ↦ rw e tt
    | inr e ↦ rw e (dict_range libs fixtures (as_dict v))
  ]

  answer_range :
      (libs : Libraries) (fixtures : List SemanticFixture) (o : Option String)
      → IsInRange fixtures (answer_of judge libs fixtures o)
  answer_range libs fixtures none = tt
  answer_range libs fixtures (some raw) = judged_range libs fixtures (parse_judge_json libs raw)

  ask_range :
      (libs : Libraries) (actual : String) (cfg : SemanticConfig judge)
      (caller : Option (String → Option String → Option String))
      → IsInRange cfg.fixtures (ask_judge judge libs actual cfg caller)
  ask_range libs actual cfg none = tt
  ask_range libs actual cfg (some caller) =
      answer_range libs cfg.fixtures (caller (judge_prompt judge actual cfg.fixtures) cfg.model)

  pub semantic_match_range :
      (libs : Libraries) (actual : String) (cfg : SemanticConfig judge)
      → IsInRange cfg.fixtures (semantic_match judge libs actual cfg)
  unfolding semantic_match
  semantic_match_range libs actual cfg = elim (Bool-cases (is_empty_fixtures judge cfg.fixtures)) [
    | inl e ↦ rw e tt
    | inr e ↦ rw e (elim (Bool-cases (str_eq cfg.strategy "llm_judge")) [
      | inl same ↦ rw same (ask_range libs actual cfg judge.llm_caller)
      | inr other ↦ rw other tt
    ])
  ]
