-- ===== src/Sgr/Recording.antt =====
-- `SGRTracker.record` and the methods that it calls.
use diff_graph.Base.{
  List, Option, String, [], decimal, if◌then◌else◌, is_text, map, none, not, some, str_eq, ℕ, ◌&&◌,
  ◌++◌, ◌+◌, ◌<>◌, ◌||◌, ◌∷◌,
}
use diff_graph.Floats.{Float}
use diff_graph.Sgr.{
  Question, ReflectArgs, RemainingItem, RemainingQuestion, ResolvedQuestion, SgrEntry, SgrTracker,
  keyed, plain,
}
use diff_graph.Sgr.Questions.{
  delete_question, find_by_text, is_blank, is_listed, is_open, is_resolved, or_empty, put_resolved,
  text_of,
}

module _ (F : Float) (words : String → List String) where
  abbrev automatic : String → ℕ → RemainingQuestion × ℕ
  automatic text next_auto_id =
      (record { id = "Q" <> decimal next_auto_id; text = text }, next_auto_id + 1)

  abbrev found_or_automatic : String → String → ℕ → RemainingQuestion × ℕ
  found_or_automatic found text next_auto_id =
      if is_blank found
      then automatic text next_auto_id
      else (record { id = found; text = text }, next_auto_id)

  abbrev normalize_question : List Question → RemainingItem → ℕ → RemainingQuestion × ℕ
  normalize_question questions (plain text) n =
      found_or_automatic (or_empty (find_by_text F words text questions)) text n
  normalize_question questions (keyed id text) n =
      if is_blank id
      then found_or_automatic (or_empty (find_by_text F words text questions)) text n
      else (record { id = id; text = text }, n)

  -- `_normalize_questions`, with the next automatic id behind it.
  abbrev pub normalize_questions :
      List Question → List RemainingItem → ℕ → List RemainingQuestion × ℕ
  normalize_questions questions [] n = ([], n)
  normalize_questions questions (item ∷ raw) n =
      let one = normalize_question questions item n in
      let rest = normalize_questions questions raw one.1 in (one.0 ∷ rest.0, rest.1)

  -- `_normalize_resolved`, of one entry.
  abbrev normalize_resolved : List Question → ResolvedQuestion → ResolvedQuestion
  normalize_resolved questions r =
      if is_blank r.id && not (is_blank r.question)
      then record r { id = or_empty (find_by_text F words r.question questions) }
      else r

  abbrev pub resolve : String → String → String → ℕ → SgrTracker → SgrTracker
  resolve id resolution summary step t = record t {
    resolved =
        put_resolved
          (record {
            id = id;
            text = text_of id t.questions;
            resolution = resolution;
            summary = summary;
            step_resolved = step;
          })
          t.resolved;
    questions = delete_question id t.questions;
  }

  abbrev pub resolve_found : String → ResolvedQuestion → ℕ → SgrTracker → SgrTracker
  resolve_found found r step t =
      if not (is_blank found) && is_open t.questions found
      then resolve found r.resolution r.summary step t
      else t

  -- `_process_resolved`.
  abbrev pub process_one : ResolvedQuestion → ℕ → SgrTracker → SgrTracker
  process_one r step t =
      if not (is_blank r.id) && is_open t.questions r.id
      then resolve r.id r.resolution r.summary step t
      else if not (is_blank r.question)
      then resolve_found (or_empty (find_by_text F words r.question t.questions)) r step t
      else t

  abbrev pub process_resolved : List ResolvedQuestion → ℕ → SgrTracker → SgrTracker
  process_resolved [] step t = t
  process_resolved (r ∷ resolved) step t = process_resolved resolved step (process_one r step t)

  -- The questions that a reflection no longer lists, of the keys when the loop begins.
  abbrev pub drop_one : List RemainingQuestion → Question → ℕ → SgrTracker → SgrTracker
  drop_one remaining q step t =
      if is_listed remaining q.id || is_resolved t.resolved q.id
      then t
      else resolve q.id "dropped" "(implicit)" step t

  abbrev pub drop_unlisted : List RemainingQuestion → List Question → ℕ → SgrTracker → SgrTracker
  drop_unlisted remaining [] step t = t
  drop_unlisted remaining (q ∷ keys) step t =
      drop_unlisted remaining keys step (drop_one remaining q step t)

  -- A question that is open grows older, with the new text; another one is opened.
  abbrev pub put_question : ℕ → RemainingQuestion → List Question → List Question
  put_question step q [] = record { id = q.id; text = q.text; step_opened = step; age = 0 } ∷ []
  put_question step q (x ∷ questions) =
      if str_eq x.id q.id
      then record x { age = x.age + 1; text = q.text } ∷ questions
      else x ∷ put_question step q questions

  abbrev pub put_questions : ℕ → List RemainingQuestion → List Question → List Question
  put_questions step [] questions = questions
  put_questions step (q ∷ remaining) questions =
      put_questions step remaining (put_question step q questions)

  -- `_process_remaining`.
  abbrev pub process_remaining : List RemainingQuestion → ℕ → SgrTracker → SgrTracker
  process_remaining remaining step t =
      let kept = drop_unlisted remaining t.questions step t in
      record kept { questions = put_questions step remaining kept.questions }

  abbrev or_low : Option String → String
  or_low none = "low"
  or_low (some confidence) = confidence

  abbrev pub track_staleness : String → SgrTracker → SgrTracker
  track_staleness confidence t =
      if is_text t.prev_confidence confidence
      then record t { staleness = t.staleness + 1 }
      else record t { staleness = 0; prev_confidence = some confidence }

  abbrev pub entry_of : ℕ → ReflectArgs → SgrTracker → SgrEntry
  entry_of step args t = record {
    step = step;
    learned = args.learned;
    questions_remaining =
        (normalize_questions t.questions args.questions_remaining t.next_auto_id).0;
    resolved_questions = map (normalize_resolved t.questions) args.resolved_questions;
    confidence = or_low args.confidence;
    next_action = args.next_action;
    extensions = args.extensions;
  }

  -- `record`, with the entry that it returns.
  unfoldable pub record_reflection : ℕ → ReflectArgs → SgrTracker → SgrEntry × SgrTracker
  record_reflection step args t =
      let entry = entry_of step args t in
      let numbered = record t {
        next_auto_id = (normalize_questions t.questions args.questions_remaining t.next_auto_id).1;
      } in
      let processed =
        process_remaining entry.questions_remaining step
          (process_resolved entry.resolved_questions step numbered) in
      let tracked = track_staleness entry.confidence processed in
      (entry, record tracked { history = tracked.history ++ entry ∷ [] })
