-- ===== src/Sgr.antt =====
-- The tracker of an agent's reflections (orchestra/sgr.py): the questions that are open and those that are
-- resolved, by their ids. Arguments are what the call of `reflect` has after the reading of its JSON: a key
-- that it does not have is empty. The words of a text, `set(text.lower().split())`, are a parameter.
pub mod Questions
pub mod Recording
pub mod Closing
pub mod Open
mod Tests
use diff_graph.Base.{List, Option, String, [], none, ℕ}

pub record Question : Type 0 where
  pub id : String
  pub text : String
  pub step_opened : ℕ
  pub age : ℕ

pub record Resolved : Type 0 where
  pub id : String
  pub text : String
  pub resolution : String
  pub summary : String
  pub step_resolved : ℕ

-- An entry of `questions_remaining`, a text or a dictionary; a dictionary without an id has the empty one.
pub data RemainingItem : Type 0 where
  plain : String → RemainingItem
  keyed : String → String → RemainingItem

pub record RemainingQuestion : Type 0 where
  pub id : String
  pub text : String

-- An entry of `resolved_questions`, before and after it is normalized.
pub record ResolvedQuestion : Type 0 where
  pub id : String
  pub question : String
  pub resolution : String
  pub summary : String

pub record ReflectArgs : Type 0 where
  pub learned : String
  pub questions_remaining : List RemainingItem
  pub resolved_questions : List ResolvedQuestion
  pub confidence : Option String
  pub next_action : String
  pub extensions : List (String × String)

pub record SgrEntry : Type 0 where
  pub step : ℕ
  pub learned : String
  pub questions_remaining : List RemainingQuestion
  pub resolved_questions : List ResolvedQuestion
  pub confidence : String
  pub next_action : String
  pub extensions : List (String × String)

pub record SgrTracker : Type 0 where
  pub history : List SgrEntry
  pub prev_confidence : Option String
  pub staleness : ℕ
  pub questions : List Question
  pub resolved : List Resolved
  pub next_auto_id : ℕ

abbrev pub new_sgr_tracker : SgrTracker
new_sgr_tracker = record {
  history = [];
  prev_confidence = none;
  staleness = 0;
  questions = [];
  resolved = [];
  next_auto_id = 1;
}
