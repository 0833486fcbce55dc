-- ===== src/Sgr/Tests.antt =====
-- The tracker of reflections on two reflections.
use diff_graph.Base.{
  All, List, String, [], decimal, map, none, not, refl, true, ◌&&◌, ◌||◌, ◌∷◌, ◌≡◌,
}
use diff_graph.Floats.{Float}
use diff_graph.Floats.Millionths.{millionths}
use diff_graph.Sgr.{ReflectArgs, SgrTracker, keyed, new_sgr_tracker, plain}
use diff_graph.Sgr.Open.{record_reflection_open}
use diff_graph.Sgr.Questions.{find_by_text, is_blank, is_listed, is_open, is_resolved}
use diff_graph.Sgr.Recording.{record_reflection}

abbrev F : Float
F = millionths

abbrev one_word : String → List String
one_word text = text ∷ []

abbrev asks_two : ReflectArgs
asks_two = record {
  learned = "";
  questions_remaining = keyed "Q1" "who" ∷ plain "where" ∷ [];
  resolved_questions = [];
  confidence = none;
  next_action = "";
  extensions = [];
}

abbrev resolves_first : ReflectArgs
resolves_first = record asks_two {
  questions_remaining = plain "where" ∷ [];
  resolved_questions =
      record { id = "Q1"; question = ""; resolution = "answered"; summary = "me" } ∷ [];
}

abbrev first : SgrTracker
first = (record_reflection F one_word 0 asks_two new_sgr_tracker).1

abbrev second : SgrTracker
second = (record_reflection F one_word 1 resolves_first first).1

-- The automatic id of the second question is the id that the first one was given by the model.
same_id : map (λ q. q.text) first.questions ≡ "where" ∷ []
unfolding record_reflection find_by_text decimal
same_id = refl

record_reflection_open_example :
    let (entry, after) = record_reflection F one_word 1 resolves_first first in
    All (λ q. is_open after.questions q.id ≡ true) entry.questions_remaining
    × All
        (λ q.
          (is_listed entry.questions_remaining q.id
            || is_open first.questions q.id && is_resolved first.resolved q.id)
          ≡ true)
        after.questions
    × All
        (λ r.
          (is_blank r.id
            || is_listed entry.questions_remaining r.id
            || not (is_open after.questions r.id))
          ≡ true)
        entry.resolved_questions
record_reflection_open_example = record_reflection_open F one_word 1 resolves_first first
