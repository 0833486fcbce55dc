-- ===== src/Diff.antt =====
-- The diff parser (diffgraph/diff_parser.py): what a git diff says of each file. A text is its list of code
-- points, and a digit is an ASCII one.
pub mod Lines
pub mod Hunks
pub mod Lang
pub mod Files
pub mod Rendered
pub mod Sorted
pub mod Numbering
mod Tests
use diff_graph.Base.{List, Option, ℕ}

pub record HunkSnippet : Type 0 where
  pub before_lines : List (List ℕ)
  pub after_lines : List (List ℕ)
  pub before_start : ℕ
  pub after_start : ℕ
  pub deletion_positions : List ℕ

-- `status` in the source's words.
pub data Status : Type 0 where
  modified added deleted renamed : Status

pub record FileDiff : Type 0 where
  pub path : List ℕ
  pub before_path : Option (List ℕ)
  pub status : Status
  pub hunks : List HunkSnippet
  pub after_changed_lines : List ℕ

-- The files of a diff in the order in which their paths came first; the path is the key.
pub record DiffResult : Type 0 where
  pub files : List FileDiff
  pub changed_files : List (List ℕ)
  pub changed_lines : List (List ℕ × List ℕ)
  pub raw_text : List ℕ
