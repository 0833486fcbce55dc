-- ===== src/Sgr/Questions.antt =====
-- The dictionaries of questions: `_questions` and `_resolved`, in the order of their keys' first insertion,
-- and `_find_by_text`.
use diff_graph.Base.{
  Bool, List, Option, String, [], any, count_if, false, if◌then◌else◌, keep_if, length, max, none,
  not, some, str_eq, true, ℕ, ◌&&◌, ◌+◌, ◌-◌, ◌∷◌,
}
use diff_graph.Floats.{Float, zero_float}
use diff_graph.Sgr.{Question, RemainingQuestion, Resolved}

abbrev pub is_open : List Question → String → Bool
is_open questions id = any (λ q. str_eq q.id id) questions

abbrev pub is_resolved : List Resolved → String → Bool
is_resolved resolved id = any (λ r. str_eq r.id id) resolved

abbrev pub is_listed : List RemainingQuestion → String → Bool
is_listed remaining id = any (λ q. str_eq q.id id) remaining

abbrev pub delete_question : String → List Question → List Question
delete_question id questions = keep_if (λ q. not (str_eq q.id id)) questions

-- `self._resolved[qid] = …`.
abbrev pub put_resolved : Resolved → List Resolved → List Resolved
put_resolved r [] = r ∷ []
put_resolved r (x ∷ resolved) =
    if str_eq x.id r.id then r ∷ resolved else x ∷ put_resolved r resolved

-- `self._questions[qid]["text"]`.
abbrev pub text_of : String → List Question → String
text_of id [] = ""
text_of id (q ∷ questions) = if str_eq q.id id then q.text else text_of id questions

-- `if text:` of a text that may be missing.
abbrev pub or_empty : Option String → String
or_empty none = ""
or_empty (some text) = text

abbrev pub is_blank : String → Bool
is_blank text = str_eq text ""

module _ (F : Float) (words : String → List String) where
  abbrev common : List String → List String → ℕ
  common a b = count_if (λ w. any (str_eq w) b) a

  -- The share of the words of both that both have.
  abbrev overlap : List String → List String → F.Real
  overlap a b = F.ratio (common a b) (max (length a + length b - common a b) 1)

  abbrev is_empty_set : List String → Bool
  is_empty_set [] = true
  is_empty_set (w ∷ set) = false

  abbrev best_match : List String → List Question → Option String → F.Real → Option String
  best_match text_words [] best_id best_overlap = best_id
  best_match text_words (q ∷ questions) best_id best_overlap =
      let q_words = words q.text in
      let share = overlap text_words q_words in
      let skip = best_match text_words questions best_id best_overlap in
      let take = best_match text_words questions (some q.id) share in
      let better = F.lt best_overlap share && F.lt (F.ratio 5 10) share in
      if is_empty_set q_words then skip else if better then take else skip

  -- `_find_by_text`: the first of the questions that share the most words, if it is more than half.
  unfoldable pub find_by_text : String → List Question → Option String
  find_by_text text questions =
      if is_blank text then none else best_match (words text) questions none (zero_float F)
