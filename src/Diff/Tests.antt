-- ===== src/Diff/Tests.antt =====
-- The diff parser on a small diff.
use diff_graph.Base.{
  All, List, Memᴰ, [], false, length, map, none, refl, some, ℕ, ◌++◌, ◌↔◌, ◌∷◌, ◌≡◌,
}
use diff_graph.Diff.{deleted}
use diff_graph.Diff.Files.{parse_diff}
use diff_graph.Diff.Hunks.{parse_hunks}
use diff_graph.Diff.Lines.{codes, hunk_header, split_lines}
use diff_graph.Diff.Numbering.{ChangedIn, parse_hunks-numbers}
use diff_graph.Diff.Rendered.{DiffLine, HasHeader, Hunk, parse_hunks-render, render, snippet_of}
use diff_graph.Diff.Sorted.{Ascending}

abbrev small_hunk : Hunk
small_hunk = record {
  header = codes "@@ -10,3 +10,3 @@ def f():";
  before_start = 10;
  after_start = 10;
  body =
      DiffLine.kept (codes "a")
      ∷ DiffLine.removed (codes "b")
      ∷ DiffLine.added (codes "c")
      ∷ DiffLine.bare
      ∷ DiffLine.remark (codes " No newline at end of file")
      ∷ DiffLine.kept (codes "d")
      ∷ [];
}

abbrev front : List (List ℕ)
front = codes "diff --git a/f.py b/f.py" ∷ codes "--- a/f.py" ∷ codes "+++ b/f.py" ∷ []

front_quiet : All (λ line. hunk_header line ≡ none) front
unfolding hunk_header
front_quiet = (refl, (refl, (refl, tt)))

small_HasHeader : All HasHeader (small_hunk ∷ [])
unfolding hunk_header
small_HasHeader = (refl, tt)

-- A form feed ends a line for `splitlines`, so the rest of its line counts as one more context line.
form_feed : length (split_lines false (b'a' ∷ 12 ∷ b'b' ∷ b'\n' ∷ [])) ≡ 2
form_feed = refl

abbrev deletes : List ℕ
deletes =
    codes
      "diff --git a/x.py b/x.py\ndeleted file mode 100644\n--- a/x.py\n+++ /dev/null\n@@ -1,1 +0,0 @@\n-gone\n"

whole_diff : parse_diff (λ path. ".py") deletes ≡ record {
  files =
      record {
        path = codes "x.py";
        before_path = some (codes "x.py");
        status = deleted;
        hunks =
            record {
              before_lines = codes "gone" ∷ [];
              after_lines = [];
              before_start = 1;
              after_start = 0;
              deletion_positions = [];
            }
            ∷ [];
        after_changed_lines = [];
      }
      ∷ [];
  changed_files = [];
  changed_lines = [];
  raw_text = deletes;
}
unfolding parse_diff hunk_header
whole_diff = refl

parse_hunks-render_example :
    (parse_hunks (front ++ render (small_hunk ∷ []))).0 ≡ map snippet_of (small_hunk ∷ [])
parse_hunks-render_example = parse_hunks-render front (small_hunk ∷ []) front_quiet small_HasHeader

parse_hunks-numbers_example :
    Ascending (parse_hunks (front ++ render (small_hunk ∷ []))).1
    × ((m : ℕ)
        → Memᴰ m (parse_hunks (front ++ render (small_hunk ∷ []))).1
          ↔ ChangedIn (small_hunk ∷ []) m)
parse_hunks-numbers_example =
    parse_hunks-numbers front (small_hunk ∷ []) front_quiet small_HasHeader
