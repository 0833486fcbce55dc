-- ===== src/Messages.antt =====
-- The messages that an agent exchanges with the model, dictionaries in the source (see
-- orchestra/agent.py). A key that a message does not have reads as the code reads it, with `.get`: an absent
-- content is the empty text and absent tool calls are the empty list.
use diff_graph.Base.{Bool, List, String, [], str_eq, suc, zero, ℕ}

-- `{"id": …, "type": "function", "function": {"name": …, "arguments": …}}`.
pub record ToolCall : Type 0 where
  pub id : String
  pub name : String
  pub arguments : String

pub record Message : Type 0 where
  pub role : String
  pub content : String
  pub tool_calls : List ToolCall
  pub tool_call_id : String

abbrev pub user_message : String → Message
user_message text = record { role = "user"; content = text; tool_calls = []; tool_call_id = "" }

abbrev pub tool_message : String → String → Message
tool_message id text = record { role = "tool"; content = text; tool_calls = []; tool_call_id = id }

abbrev pub has_role : String → Message → Bool
has_role role m = str_eq m.role role

-- `text[:n]`, which counts characters.
abbrev pub take_chars : ℕ → String → String
take_chars zero text = String.[]
take_chars (suc n) String.[] = String.[]
take_chars (suc n) (String.◌∷◌ c text) = String.◌∷◌ c (take_chars n text)
