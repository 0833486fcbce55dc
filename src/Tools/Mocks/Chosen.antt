-- ===== src/Tools/Mocks/Chosen.antt =====
-- What a mock that is chosen by meaning may answer.
use diff_graph.Base.{
  Bool-cases, List, Option, String, [], arith, false, if◌then◌else◌, inl, inr, length, none, refl,
  some, str_eq, subst, suc, sym, zero, ℕ, ◌<◌, ◌∷◌, ◌≡◌, ◌≢◌, ◌⊎◌,
}
use diff_graph.Dict.{get?}
use diff_graph.Json.{Dict, Json, as_dict, str}
use diff_graph.Tools.{Libraries, str_of}
use diff_graph.Tools.Mocks.{
  Consumed, canned, choose, consume_for, consume_semantic, get_elem?, gives, index_error,
  no_fixture, no_match, no_match_stub, on_match, raises,
}
use diff_graph.Tools.Semantic.{
  Judge, Judged, MatchResult, SemanticConfig, SemanticFixture, crashes, matched, or_default,
  semantic_match,
}
use diff_graph.Tools.Semantic.Range.{IsInRange, semantic_match_range}

get_elem_below {ℓ} :
    {A : Type ℓ} (i : ℕ) (xs : List A) → i < length xs → (x : A) × (get_elem? i xs ≡ some x)
unfolding get_elem?
get_elem_below i [] h = absurd (omega (arith, h))
get_elem_below zero (x ∷ xs) h = (x, refl)
get_elem_below (suc i) (x ∷ xs) h = get_elem_below i xs (omega (arith, h))

module _ (judge : Judge) (cfg : SemanticConfig judge) where
  -- An entry has what one of the fixtures returns, or the stub where the configuration does not ask for an
  -- error; and no fixture is looked up out of range.
  abbrev pub IsChosen : Consumed → Type 0
  IsChosen (gives e) =
      ((i : ℕ) × (f : SemanticFixture) × (get_elem? i cfg.fixtures ≡ some f)
        × (e.return_data ≡ f.return_data))
      ⊎ ((str_eq cfg.on_no_match "error" ≡ false) × (e.return_data ≡ str no_match_stub))
  IsChosen (raises error) = error ≢ index_error

  no_fixture-IsChosen : (name : String) → IsChosen (no_fixture judge cfg name)
  no_fixture-IsChosen name = elim (Bool-cases (str_eq cfg.on_no_match "error")) [
    | inl e ↦ let other : no_match name ≢ index_error = λ p. cc in rw e other
    | inr e ↦
        subst
          (λ b. IsChosen (if b then raises (no_match name) else gives (canned (str no_match_stub))))
          (sym e) (inr (e, refl))
  ]

  choose-IsChosen :
      (name : String) (r : MatchResult judge)
      → IsInRange judge cfg.fixtures (matched r)
      → (index : Option ℕ) → r.index ≡ index
      → IsChosen (choose judge cfg name index r.confidence)
  choose-IsChosen name r range none e = no_fixture-IsChosen name
  choose-IsChosen name r range (some i) e =
      elim (Bool-cases (judge.ge r.confidence cfg.threshold)) [
        | inl on ↦
            let (f, found) = get_elem_below i cfg.fixtures (rw e at range) in
            rw (on, found) (inl (i, f, found, refl))
        | inr off ↦ rw off (no_fixture-IsChosen name)
      ]

  match-IsChosen :
      (name : String) (judged : Judged judge)
      → IsInRange judge cfg.fixtures judged
      → IsChosen (on_match judge cfg name judged)
  match-IsChosen name (crashes why) range = λ p. cc
  match-IsChosen name (matched r) range = choose-IsChosen name r range r.index refl

  for-IsChosen :
      (libs : Libraries) (name : String) (args : Option Dict)
      → IsChosen (consume_for judge libs cfg name args)
  for-IsChosen libs name none = λ p. cc
  for-IsChosen libs name (some args) =
      let actual = str_of libs (or_default judge (str "") (get? cfg.on_arg args)) in
      match-IsChosen name (semantic_match judge libs actual cfg)
        (semantic_match_range judge libs actual cfg)

  -- Whatever the judge answers, a mock that is chosen by meaning returns what one of its fixtures returns, or the
  -- stub if the configuration does not ask for an error, or it raises; no fixture is looked up out of range.
  pub consume_semantic-IsChosen :
      (libs : Libraries) (name : String) (args : Json)
      → IsChosen (consume_semantic judge libs cfg name args)
  unfolding consume_semantic
  consume_semantic-IsChosen libs name args = for-IsChosen libs name (as_dict args)
