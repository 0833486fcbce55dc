-- ===== src/Condense/Tests.antt =====
-- The theorems on condensation at a small history.
use diff_graph.Base.{List, [], decimal, last, map, none, refl, true, ◌∷◌, ◌≡◌}
use diff_graph.Condense.{CondensationConfig, Summarise, condense, sliding_window, user_message}
use diff_graph.Condense.Recent.{condense-last}
use diff_graph.Messages.{Message, take_chars, tool_message, user_message}

abbrev window : CondensationConfig
window = record {
  enabled = true;
  trigger = 10;
  strategy = sliding_window;
  preserve_last = 2;
  preserve_sgr = true;
  condense_prompt = "Summarize";
}

abbrev silent_llm : Summarise
silent_llm prompt text = none

abbrev system_prompt : Message
system_prompt = record (user_message "You review code.") { role = "system" }

abbrev asked : Message
asked = record (user_message "") {
  role = "assistant";
  tool_calls = record { id = "c1"; name = "read_file"; arguments = "{}" } ∷ [];
}

abbrev turns : List Message
turns =
    user_message "Review this."
    ∷ asked
    ∷ tool_message "c1" "text"
    ∷ asked
    ∷ tool_message "c1" "more"
    ∷ []

header_text :
    map (λ m. m.content) (condense window [] silent_llm (system_prompt ∷ turns))
    ≡ "You review code." ∷ "[3 earlier messages condensed (1 steps)]" ∷ "" ∷ "more" ∷ []
unfolding decimal
header_text = refl

cut_short : take_chars 2 "aλb" ≡ "aλ"
cut_short = refl

condense-last_example :
    last 2 (condense window [] silent_llm (system_prompt ∷ turns)) ≡ last 2 (system_prompt ∷ turns)
condense-last_example = condense-last window [] silent_llm (system_prompt ∷ turns)
