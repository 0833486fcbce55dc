-- ===== src/Diff/Files.antt =====
-- `parse_diff`, and the header of a file's section in `_parse_file_section`.
use diff_graph.Base.{
  Bool, List, Option, String, [], drop, false, if◌then◌else◌, is_some, none, not, some, str_eq,
  true, ℕ, ◌&&◌, ◌++◌, ◌==◌, ◌>>=◌, ◌||◌, ◌∷◌,
}
use diff_graph.Diff.{DiffResult, FileDiff, Status, added, deleted, modified, renamed}
use diff_graph.Diff.Hunks.{parse_hunks}
use diff_graph.Diff.Lang.{detect_lang}
use diff_graph.Diff.Lines.{codes, equals, hunk_header, push_char, split_lines, starts, strip}

-- `(.*) b/(.*)` with a greedy first group: the text around the last ` b/`.
abbrev or_here : Option (List ℕ × List ℕ) → ℕ → Option (List ℕ) → Option (List ℕ × List ℕ)
or_here (some (before, after)) c here = some (c ∷ before, after)
or_here none c none = none
or_here none c (some after) = some ([], after)

abbrev split_last : List ℕ → List ℕ → Option (List ℕ × List ℕ)
split_last separator [] = none
split_last separator (c ∷ text) =
    let rest = split_last separator text in or_here rest c (strip separator (c ∷ text))

-- `diff --git a/X b/Y`.
abbrev pub file_header : List ℕ → Option (List ℕ × List ℕ)
file_header line = do paths ← strip (codes "diff --git a/") line; split_last (codes " b/") paths

pub record Meta : Type 0 where
  pub before_path : Option (List ℕ)
  pub after_path : List ℕ
  pub status : Status

abbrev pub read_meta : List ℕ → Meta → Meta
read_meta line m =
    if starts "new file mode" line
    then record m { status = added }
    else if starts "deleted file mode" line
    then record m { status = deleted }
    else if starts "rename from" line || starts "similarity index" line
    then record m { status = renamed }
    else if starts "+++ b/" line
    then record m { after_path = drop 6 line }
    else if equals line (codes "+++ /dev/null")
    then m
    else if starts "--- a/" line
    then record m { before_path = some (drop 6 line) }
    else if equals line (codes "--- /dev/null")
    then record m { before_path = none }
    else m

-- The lines before the first hunk.
abbrev pub read_metas : List (List ℕ) → Meta → Meta
read_metas [] m = m
read_metas (line ∷ lines) m =
    let rest = read_metas lines (read_meta line m) in if is_some (hunk_header line) then m else rest

abbrev file_diff : List (List ℕ) → List (List ℕ) → Option (List ℕ × List ℕ) → Option FileDiff
file_diff lines later none = none
file_diff lines later (some (before, after)) =
    let m =
      read_metas later
        (record { before_path = some before; after_path = after; status = modified }) in
    let (hunks, after_changed_lines) = parse_hunks lines in
    some (record {
      path = m.after_path;
      before_path = m.before_path;
      status = m.status;
      hunks = hunks;
      after_changed_lines = after_changed_lines;
    })

abbrev section_diff : List (List ℕ) → Option FileDiff
section_diff [] = none
section_diff (line ∷ lines) = file_diff (line ∷ lines) lines (file_header line)

-- `_parse_file_section`.
abbrev pub parse_file_section : List ℕ → Option FileDiff
parse_file_section section = section_diff (split_lines false section)

-- `re.split` before each line that starts with `diff --git `; the flag says that a line starts here.
abbrev pub split_sections : Bool → List ℕ → List (List ℕ)
split_sections line_start [] = [] ∷ []
split_sections line_start (c ∷ text) =
    let rest = push_char c (split_sections (c == b'\n') text) in
    if line_start && starts "diff --git " (c ∷ text) then [] ∷ rest else rest

-- `files[path] = file_diff`, which keeps the place of a path that the dictionary has.
abbrev pub put_file : FileDiff → List FileDiff → List FileDiff
put_file f [] = f ∷ []
put_file f (g ∷ files) = if equals g.path f.path then f ∷ files else g ∷ put_file f files

abbrev is_deleted : Status → Bool
is_deleted deleted = true
is_deleted _ = false

abbrev pub paths_of : List FileDiff → List (List ℕ)
paths_of [] = []
paths_of (f ∷ files) = if is_deleted f.status then paths_of files else f.path ∷ paths_of files

abbrev changes : List ℕ → List ℕ → List (List ℕ × List ℕ) → List (List ℕ × List ℕ)
changes path [] rest = rest
changes path (n ∷ lines) rest = (path, n ∷ lines) ∷ rest

abbrev pub changes_of : List FileDiff → List (List ℕ × List ℕ)
changes_of [] = []
changes_of (f ∷ files) = changes f.path f.after_changed_lines (changes_of files)

-- `extension` is that of diffgraph/lang.py, `os.path.splitext(path)[1].lower()`.
module _ (extension : List ℕ → String) where
  -- `detect_lang(path) != "unknown"`.
  abbrev is_source : List ℕ → Bool
  is_source path = not (str_eq (detect_lang extension path) "unknown")

  abbrev add_section : List ℕ → Option FileDiff → List FileDiff × List ℕ → List FileDiff × List ℕ
  add_section section none found = found
  add_section section (some f) (files, raw) =
      (put_file f files, if is_source f.path then raw ++ section else raw)

  abbrev read_sections : List (List ℕ) → List FileDiff × List ℕ → List FileDiff × List ℕ
  read_sections [] found = found
  read_sections (section ∷ sections) found =
      let next = add_section section (parse_file_section section) found in
      read_sections sections (if starts "diff --git" section then next else found)

  unfoldable pub parse_diff : List ℕ → DiffResult
  parse_diff diff_text =
      let (files, raw_text) = read_sections (split_sections true diff_text) ([], []) in
      record {
        files = files;
        changed_files = paths_of files;
        changed_lines = changes_of files;
        raw_text = raw_text;
      }
