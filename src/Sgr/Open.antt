-- ===== src/Sgr/Open.antt =====
-- Which questions are open after a reflection.
use diff_graph.Base.{
  All, All_map, Bool-cases, List, String, [], arith, eq_iff, false, inl, inr, not, refl, str_eq,
  subst, sym, true, ℕ, ◌&&◌, ◌||◌, ◌∙◌, ◌∷◌, ◌≡◌,
}
use diff_graph.Floats.{Float}
use diff_graph.Sgr.{
  Question, ReflectArgs, RemainingQuestion, Resolved, ResolvedQuestion, SgrTracker,
}
use diff_graph.Sgr.Closing.{
  blank_of, drop_unlisted-Closes, drop_unlisted_open, is_open-put_questions, or_left, or_right,
  process_resolved-Closes, process_resolved_here, still_closed,
}
use diff_graph.Sgr.Questions.{is_blank, is_listed, is_open, is_resolved}
use diff_graph.Sgr.Recording.{
  drop_unlisted, entry_of, normalize_questions, process_remaining, process_resolved,
  record_reflection, track_staleness,
}

module _ (F : Float) (words : String → List String) where
  self_open : (questions : List Question) → All (λ q. is_open questions q.id ≡ true) questions
  self_open [] = tt
  self_open (q ∷ questions) = (
    or_left _ ((eq_iff q.id q.id).1 refl),
    All_map questions (λ x h. or_right (str_eq q.id x.id) h) (self_open questions),
  )

  self_listed :
      (remaining : List RemainingQuestion) → All (λ q. is_listed remaining q.id ≡ true) remaining
  self_listed [] = tt
  self_listed (q ∷ remaining) = (
    or_left _ ((eq_iff q.id q.id).1 refl),
    All_map remaining (λ x h. or_right (str_eq q.id x.id) h) (self_listed remaining),
  )

  -- What is open behind the two parts of a reflection that change the questions.
  module _ (resolved : List ResolvedQuestion) (remaining : List RemainingQuestion) (step : ℕ)
      (t : SgrTracker) where
    abbrev between : SgrTracker
    between = process_resolved F words resolved step t

    abbrev behind : SgrTracker
    behind = process_remaining F words remaining step between

    abbrev left_open : SgrTracker
    left_open = drop_unlisted F words remaining between.questions step between

    is_open-behind :
        (id : String)
        → is_open behind.questions id ≡ (is_open left_open.questions id || is_listed remaining id)
    is_open-behind id = is_open-put_questions F words step remaining left_open.questions id

    -- A question that is open without being listed was open and resolved before the reflection.
    leftover :
        (id : String)
        → is_open behind.questions id ≡ true
        → (is_listed remaining id || is_open t.questions id && is_resolved t.resolved id) ≡ true
    leftover id o = elim (Bool-cases (is_listed remaining id)) [
      | inl listed ↦ or_left _ listed
      | inr other ↦
          let still : is_open left_open.questions id ≡ true =
            ground (arith, o, is_open-behind id, other) in
          let (was, done) = drop_unlisted_open F words remaining step between id other still in
          elim (process_resolved-Closes F words resolved step t id) [
            | inl gone ↦ let no : true ≡ false = sym was ∙ gone in absurd (ground (arith, no))
            | inr (first, same) ↦
                let old : is_resolved t.resolved id ≡ true = sym same ∙ done in
                or_right (is_listed remaining id) (ground (arith, first, old))
          ]
    ]

    -- A resolved question is open only if it is listed.
    closed_or_listed :
        (r : ResolvedQuestion)
        → (is_blank r.id || not (is_open between.questions r.id)) ≡ true
        → (is_blank r.id || is_listed remaining r.id || not (is_open behind.questions r.id)) ≡ true
    closed_or_listed r h = elim (Bool-cases (is_open between.questions r.id)) [
      | inl o ↦
          let blank = blank_of (is_blank r.id) o h in
          or_left _ (or_left (is_listed remaining r.id) blank)
      | inr gone ↦
          let later : is_open left_open.questions r.id ≡ false =
            still_closed r.id between left_open
              (drop_unlisted-Closes F words remaining step between.questions between r.id) gone in
          ground (arith, later, is_open-behind r.id)
    ]

    behind_open :
        All (λ q. is_open behind.questions q.id ≡ true) remaining
        × All
            (λ q.
              (is_listed remaining q.id || is_open t.questions q.id && is_resolved t.resolved q.id)
              ≡ true)
            behind.questions
        × All
            (λ r.
              (is_blank r.id || is_listed remaining r.id || not (is_open behind.questions r.id))
              ≡ true)
            resolved
    behind_open = (
      All_map remaining (λ q listed. ground (arith, listed, is_open-behind q.id))
          (self_listed remaining),
      All_map behind.questions (λ q o. leftover q.id o) (self_open behind.questions),
      All_map resolved closed_or_listed (process_resolved_here F words resolved step t),
    )

  abbrev both : SgrTracker → List Question × List Resolved
  both t = (t.questions, t.resolved)

  track_staleness-both :
      (confidence : String) (t : SgrTracker) → both (track_staleness F words confidence t) ≡ both t
  track_staleness-both confidence t = ground arith

  -- Behind a reflection each question that it lists is open. Each question that is open is listed, but for one that
  -- was open before although an earlier reflection had resolved it. And a question that the reflection resolves by
  -- its id is open only if it is listed too.
  pub record_reflection_open :
      (step : ℕ) (args : ReflectArgs) (t : SgrTracker)
      → let (entry, after) = record_reflection F words step args t in
        All (λ q. is_open after.questions q.id ≡ true) entry.questions_remaining
        × All
            (λ q.
              (is_listed entry.questions_remaining q.id
                || is_open t.questions q.id && is_resolved t.resolved q.id)
              ≡ true)
            after.questions
        × All
            (λ r.
              (is_blank r.id
                || is_listed entry.questions_remaining r.id
                || not (is_open after.questions r.id))
              ≡ true)
            entry.resolved_questions
  unfolding record_reflection
  record_reflection_open step args t =
      let entry = entry_of F words step args t in
      let numbered : SgrTracker = record t {
        next_auto_id =
            (normalize_questions F words t.questions args.questions_remaining t.next_auto_id).1;
      } in
      let processed =
        process_remaining F words entry.questions_remaining step
          (process_resolved F words entry.resolved_questions step numbered) in
      subst
        (λ s.
          All (λ q. is_open s.0 q.id ≡ true) entry.questions_remaining
          × All
              (λ q.
                (is_listed entry.questions_remaining q.id
                  || is_open t.questions q.id && is_resolved t.resolved q.id)
                ≡ true)
              s.0
          × All
              (λ r.
                (is_blank r.id
                  || is_listed entry.questions_remaining r.id
                  || not (is_open s.0 r.id))
                ≡ true)
              entry.resolved_questions)
        (sym (track_staleness-both entry.confidence processed))
        (behind_open entry.resolved_questions entry.questions_remaining step numbered)
