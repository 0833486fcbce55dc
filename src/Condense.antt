-- ===== src/Condense.antt =====
-- The condensation of a long history (orchestra/condensation.py): the four strategies on a list of messages.
-- The model that writes a summary is a parameter, `none` when its call raises.
pub mod Recent
pub mod Sizes
mod Tests
use Prim.Native.Nat.{◌/◌}
use Prim.Native.String.{count}
use diff_graph.Base.{
  Bool, List, Option, String, [], all_but_last, arith, count_if, decimal, false, if◌then◌else◌,
  last, leb, length, ltb, map, none, some, str_eq, true, ℕ, ◌&&◌, ◌++◌, ◌+◌, ◌<>◌, ◌==◌, ◌||◌, ◌∷◌,
  ◌≤◌,
}
use diff_graph.Messages.{Message, ToolCall, has_role, take_chars, user_message}
use diff_graph.Sgr.{SgrEntry}

pub data CondensationStrategy : Type 0 where
  llm_summary sliding_window drop_tool_results hybrid : CondensationStrategy

-- A strategy and a threshold of 0 tokens are the configuration's own; counts are natural numbers.
pub record CondensationConfig : Type 0 where
  pub enabled : Bool
  pub trigger : ℕ
  pub strategy : CondensationStrategy
  pub preserve_last : ℕ
  pub preserve_sgr : Bool
  pub condense_prompt : String

-- `llm.chat.completions.create` on the system and the user message, and its `content or ""`.
abbrev pub Summarise : Type 0
Summarise = String → String → Option String

abbrev call_tokens : List ToolCall → ℕ
call_tokens [] = 0
call_tokens (tc ∷ calls) = count tc.arguments + call_tokens calls

abbrev characters : List Message → ℕ
characters [] = 0
characters (m ∷ messages) = count m.content + call_tokens m.tool_calls + characters messages

abbrev pub estimate_tokens : List Message → ℕ
estimate_tokens messages = characters messages / 4

abbrev pub should_condense : List Message → ℕ → Bool
should_condense messages threshold = ltb threshold (estimate_tokens messages)

-- `separator.join(parts)`.
abbrev pub join : String → List String → String
join separator [] = ""
join separator (part ∷ []) = part
join separator (part ∷ next ∷ parts) = part <> separator <> join separator (next ∷ parts)

abbrev call_text : ToolCall → String
call_text tc = tc.name <> "(" <> take_chars 100 tc.arguments <> ")"

abbrev message_content : String → List ToolCall → String
message_content content [] = content
message_content content (tc ∷ calls) = "Tool calls: " <> join ", " (map call_text (tc ∷ calls))

-- The part of a message, or none for one with an empty text.
abbrev message_part : String → String → List String
message_part role content =
    if str_eq content "" then [] else ("[" <> role <> "] " <> take_chars 500 content) ∷ []

abbrev message_parts : List Message → List String
message_parts [] = []
message_parts (m ∷ messages) =
    message_part m.role (message_content m.content m.tool_calls) ++ message_parts messages

abbrev pub messages_to_text : List Message → String
messages_to_text messages = join "\n" (message_parts messages)

-- `[messages[0]]` if that is the system message, else nothing; and `body`.
abbrev pub split_system : List Message → List Message × List Message
split_system [] = ([], [])
split_system (m ∷ messages) = if has_role "system" m then (m ∷ [], messages) else ([], m ∷ messages)

abbrev sgr_line : SgrEntry → String
sgr_line e = "- [confidence=" <> e.confidence <> "] " <> e.learned

abbrev sgr_history : Bool → List SgrEntry → String
sgr_history false entries = ""
sgr_history true [] = ""
sgr_history true (e ∷ entries) = "\n\nSGR HISTORY:\n" <> join "\n" (map sgr_line (e ∷ entries))

abbrev summary_or : Option String → String → String
summary_or none old_text = take_chars 2000 old_text <> "\n... (condensation failed, truncated)"
summary_or (some summary) old_text = summary

-- The summary of the old messages, or their text where the call of the model fails.
abbrev summary_text : CondensationConfig → List SgrEntry → Summarise → List Message → String
summary_text config entries llm old_messages =
    let old_text = messages_to_text old_messages in
    let sgr_text = sgr_history config.preserve_sgr entries in
    summary_or (llm config.condense_prompt (old_text <> sgr_text)) old_text

-- `LLMSummaryCondenser.condense`.
abbrev pub summarise_history :
    CondensationConfig → List SgrEntry → Summarise → List Message → List Message
summarise_history config entries llm messages =
    let (system, body) = split_system messages in
    let keep_count = config.preserve_last in
    let old_messages = if ltb 0 keep_count then all_but_last keep_count body else body in
    let recent = if ltb 0 keep_count then last keep_count body else [] in
    let summary = summary_text config entries llm old_messages in
    if leb (length messages) (config.preserve_last + 1)
    then messages
    else system ++ user_message ("[Condensed history]\n" <> summary) ∷ [] ++ recent

abbrev latest_sgr : Bool → List SgrEntry → String
latest_sgr false entries = ""
latest_sgr true [] = ""
latest_sgr true (e ∷ []) = "\nLatest SGR: " <> take_chars 200 e.learned
latest_sgr true (e ∷ next ∷ entries) = latest_sgr true (next ∷ entries)

-- The header for the messages dropped, if any.
abbrev header_for : CondensationConfig → List SgrEntry → List Message → List Message
header_for config entries [] = []
header_for config entries (m ∷ messages) =
    let dropped = m ∷ messages in
    let n_steps = count_if (has_role "assistant") dropped in
    user_message (
      "["
      <> decimal (length dropped)
      <> " earlier messages condensed ("
      <> decimal n_steps
      <> " steps)]"
      <> latest_sgr config.preserve_sgr entries)
    ∷ []

-- `SlidingWindowCondenser.condense`.
abbrev pub slide_window : CondensationConfig → List SgrEntry → List Message → List Message
slide_window config entries messages =
    let (system, body) = split_system messages in
    let keep_count = config.preserve_last in
    let dropped =
      if ltb 0 keep_count && ltb keep_count (length body)
      then all_but_last keep_count body
      else [] in
    let recent = if ltb 0 keep_count then last keep_count body else body in
    system ++ header_for config entries dropped ++ recent

abbrev shorten : Message → Message
shorten m =
    if has_role "tool" m && ltb 200 (count m.content)
    then record m { content = take_chars 200 m.content <> "... (condensed)" }
    else m

-- The loop of `DropToolResultsCondenser.condense` from index `i`, of `size` messages.
abbrev drop_from : ℕ → ℕ → ℕ → List Message → List Message
drop_from keep_count size i [] = []
drop_from keep_count size i (m ∷ messages) =
    let kept = (i == 0 && has_role "system" m) || leb size (i + keep_count) in
    (if kept then m else shorten m) ∷ drop_from keep_count size (i + 1) messages

-- `DropToolResultsCondenser.condense`.
abbrev pub drop_results : CondensationConfig → List Message → List Message
drop_results config messages = drop_from config.preserve_last (length messages) 0 messages

-- `HybridCondenser.condense`.
abbrev pub condense_hybrid :
    CondensationConfig → List SgrEntry → Summarise → List Message → List Message
condense_hybrid config entries llm messages =
    let intermediate = drop_results config messages in
    if should_condense intermediate config.trigger
    then summarise_history config entries llm intermediate
    else intermediate

-- `get_condenser(strategy).condense`.
abbrev condense_by :
    CondensationStrategy
    → CondensationConfig
    → List SgrEntry
    → Summarise
    → List Message
    → List Message
condense_by llm_summary config entries llm messages = summarise_history config entries llm messages
condense_by sliding_window config entries llm messages = slide_window config entries messages
condense_by drop_tool_results config entries llm messages = drop_results config messages
condense_by hybrid config entries llm messages = condense_hybrid config entries llm messages

abbrev pub condense : CondensationConfig → List SgrEntry → Summarise → List Message → List Message
condense config = condense_by config.strategy config

-- How often a strategy asks the model for a summary, which the code does not count.
abbrev summaries : CondensationConfig → List Message → ℕ
summaries config messages = if leb (length messages) (config.preserve_last + 1) then 0 else 1

abbrev requests_by : CondensationStrategy → CondensationConfig → List Message → ℕ
requests_by llm_summary config messages = summaries config messages
requests_by sliding_window config messages = 0
requests_by drop_tool_results config messages = 0
requests_by hybrid config messages =
    let intermediate = drop_results config messages in
    if should_condense intermediate config.trigger then summaries config intermediate else 0

abbrev pub requests : CondensationConfig → List Message → ℕ
requests config = requests_by config.strategy config

requests_by_bound :
    (strategy : CondensationStrategy) (config : CondensationConfig) (messages : List Message)
    → requests_by strategy config messages ≤ 1
requests_by_bound llm_summary config messages = ground arith
requests_by_bound sliding_window config messages = omega arith
requests_by_bound drop_tool_results config messages = omega arith
requests_by_bound hybrid config messages = ground arith

pub requests_bound :
    (config : CondensationConfig) (messages : List Message) → requests config messages ≤ 1
requests_bound config messages = requests_by_bound config.strategy config messages
