-- ===== src/Diff/Hunks.antt =====
-- The second loop of `_parse_file_section`: the hunks of a file and the lines that changed. The source has
-- an inner loop over a hunk's lines, which stops before the line that ends the hunk; here one loop goes over
-- the lines and knows whether a hunk is open.
use diff_graph.Base.{List, Option, [], if◌then◌else◌, ltb, none, some, ℕ, ◌++◌, ◌+◌, ◌==◌, ◌∷◌}
use diff_graph.Diff.{HunkSnippet}
use diff_graph.Diff.Lines.{hunk_header, starts}

-- `sorted(set)` of the numbers added so far.
abbrev pub insert_line : ℕ → List ℕ → List ℕ
insert_line n [] = n ∷ []
insert_line n (m ∷ lines) =
    if ltb n m then n ∷ m ∷ lines else if n == m then m ∷ lines else m ∷ insert_line n lines

-- The locals of the inner loop.
pub record OpenHunk : Type 0 where
  pub before_lines : List (List ℕ)
  pub after_lines_buf : List (List ℕ)
  pub before_start : ℕ
  pub after_start : ℕ
  pub deletion_positions_buf : List ℕ
  pub before_no : ℕ
  pub after_no : ℕ

pub record Scan : Type 0 where
  pub open_hunk : Option OpenHunk
  pub hunks : List HunkSnippet
  pub after_changed_lines_set : List ℕ

abbrev pub new_hunk : ℕ → ℕ → OpenHunk
new_hunk before_start after_start = record {
  before_lines = [];
  after_lines_buf = [];
  before_start = before_start;
  after_start = after_start;
  deletion_positions_buf = [];
  before_no = before_start;
  after_no = after_start;
}

abbrev pub to_snippet : OpenHunk → HunkSnippet
to_snippet h = record {
  before_lines = h.before_lines;
  after_lines = h.after_lines_buf;
  before_start = h.before_start;
  after_start = h.after_start;
  deletion_positions = h.deletion_positions_buf;
}

-- What a line of an open hunk adds; after_no = 0 means a deleted file.
abbrev pub removed_line : List ℕ → OpenHunk → List ℕ → OpenHunk × List ℕ
removed_line text h changed = (
  record h {
    before_lines = h.before_lines ++ text ∷ [];
    deletion_positions_buf =
        if ltb 0 h.after_no
        then h.deletion_positions_buf ++ h.after_no ∷ []
        else h.deletion_positions_buf;
    before_no = h.before_no + 1;
  },
  if ltb 0 h.after_no then insert_line h.after_no changed else changed,
)

abbrev pub added_line : List ℕ → OpenHunk → List ℕ → OpenHunk × List ℕ
added_line text h changed = (
  record h { after_lines_buf = h.after_lines_buf ++ text ∷ []; after_no = h.after_no + 1 },
  insert_line h.after_no changed,
)

abbrev pub context_line : OpenHunk → OpenHunk
context_line h = record h { before_no = h.before_no + 1; after_no = h.after_no + 1 }

-- An empty line is a context line.
abbrev pub read_line : List ℕ → OpenHunk → List ℕ → OpenHunk × List ℕ
read_line [] h changed = (context_line h, changed)
read_line (c ∷ text) h changed =
    if c == b'-'
    then removed_line text h changed
    else if c == b'+'
    then added_line text h changed
    else if c == b'\\'
    then (h, changed)
    else (context_line h, changed)

abbrev closed : Option OpenHunk → List HunkSnippet → List HunkSnippet
closed none hunks = hunks
closed (some h) hunks = hunks ++ to_snippet h ∷ []

-- The end of the inner loop.
abbrev pub close_hunk : Scan → Scan
close_hunk s = record s { open_hunk = none; hunks = closed s.open_hunk s.hunks }

abbrev pub read_open : List ℕ → Option OpenHunk → Scan → Scan
read_open line none s = s
read_open line (some h) s =
    let (next, changed) = read_line line h s.after_changed_lines_set in
    record s { open_hunk = some next; after_changed_lines_set = changed }

abbrev pub on_header : List ℕ → Option (ℕ × ℕ) → Scan → Scan
on_header line (some (before_start, after_start)) s = record (close_hunk s) {
  open_hunk = some (new_hunk before_start after_start);
}
on_header line none s =
    if starts "diff --git" line then close_hunk s else read_open line s.open_hunk s

abbrev pub scan_line : Scan → List ℕ → Scan
scan_line s line = on_header line (hunk_header line) s

abbrev pub scan_lines : Scan → List (List ℕ) → Scan
scan_lines s [] = s
scan_lines s (line ∷ lines) = scan_lines (scan_line s line) lines

abbrev pub no_hunks : Scan
no_hunks = record { open_hunk = none; hunks = []; after_changed_lines_set = [] }

-- The hunks of a file's lines, and the sorted numbers of the lines that changed.
abbrev pub parse_hunks : List (List ℕ) → List HunkSnippet × List ℕ
parse_hunks lines =
    let s = close_hunk (scan_lines no_hunks lines) in (s.hunks, s.after_changed_lines_set)
