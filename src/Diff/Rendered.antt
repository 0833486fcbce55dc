-- ===== src/Diff/Rendered.antt =====
-- Hunks as a diff prints them, and the parser on what is printed.
use diff_graph.Base.{
  All, Bool, List, [], ap, false, if◌then◌else◌, ltb, map, none, refl, some, true, ℕ, ◌++◌, ◌+◌,
  ◌∙◌, ◌∷◌, ◌≡◌,
}
use diff_graph.Diff.{HunkSnippet}
use diff_graph.Diff.Hunks.{
  OpenHunk, Scan, added_line, close_hunk, context_line, new_hunk, no_hunks, on_header, parse_hunks,
  removed_line, scan_line, scan_lines, to_snippet,
}
use diff_graph.Diff.Lines.{hunk_header, starts}
use mathlib.Core.List.{append-nil, append_assoc}

-- A line of a hunk: one that stays, also without the blank in front if it is empty, one that is removed or added, or a
-- remark such as "\ No newline at end of file".
pub data DiffLine : Type 0 where
  kept removed added remark : List ℕ → DiffLine
  bare : DiffLine

abbrev pub render_line : DiffLine → List ℕ
render_line (kept text) = b' ' ∷ text
render_line (removed text) = b'-' ∷ text
render_line (added text) = b'+' ∷ text
render_line (remark text) = b'\\' ∷ text
render_line bare = []

-- A hunk with its header line.
pub record Hunk : Type 0 where
  pub header : List ℕ
  pub before_start : ℕ
  pub after_start : ℕ
  pub body : List DiffLine

abbrev pub render : List Hunk → List (List ℕ)
render [] = []
render (h ∷ hunks) = h.header ∷ (map render_line h.body ++ render hunks)

abbrev pub removed_texts : List DiffLine → List (List ℕ)
removed_texts [] = []
removed_texts (removed text ∷ body) = text ∷ removed_texts body
removed_texts (kept text ∷ body) = removed_texts body
removed_texts (added text ∷ body) = removed_texts body
removed_texts (remark text ∷ body) = removed_texts body
removed_texts (bare ∷ body) = removed_texts body

abbrev pub added_texts : List DiffLine → List (List ℕ)
added_texts [] = []
added_texts (added text ∷ body) = text ∷ added_texts body
added_texts (kept text ∷ body) = added_texts body
added_texts (removed text ∷ body) = added_texts body
added_texts (remark text ∷ body) = added_texts body
added_texts (bare ∷ body) = added_texts body

-- The numbers, in the version after, of the lines in front of which one was removed.
abbrev pub deletions : ℕ → List DiffLine → List ℕ
deletions n [] = []
deletions n (removed text ∷ body) =
    let rest = deletions n body in if ltb 0 n then n ∷ rest else rest
deletions n (kept text ∷ body) = deletions (n + 1) body
deletions n (added text ∷ body) = deletions (n + 1) body
deletions n (remark text ∷ body) = deletions n body
deletions n (bare ∷ body) = deletions (n + 1) body

abbrev pub snippet_of : Hunk → HunkSnippet
snippet_of h = record {
  before_lines = removed_texts h.body;
  after_lines = added_texts h.body;
  before_start = h.before_start;
  after_start = h.after_start;
  deletion_positions = deletions h.after_start h.body;
}

-- The lines of a body, one after another, without the printing.
abbrev pub take_line : DiffLine → OpenHunk × List ℕ → OpenHunk × List ℕ
take_line (kept text) (h, changed) = (context_line h, changed)
take_line (removed text) (h, changed) = removed_line text h changed
take_line (added text) (h, changed) = added_line text h changed
take_line (remark text) (h, changed) = (h, changed)
take_line bare (h, changed) = (context_line h, changed)

abbrev pub take_body : List DiffLine → OpenHunk × List ℕ → OpenHunk × List ℕ
take_body [] s = s
take_body (line ∷ body) s = take_body body (take_line line s)

pub scan_lines-append :
    (s : Scan) (xs ys : List (List ℕ)) → scan_lines s (xs ++ ys) ≡ scan_lines (scan_lines s xs) ys
scan_lines-append s [] ys = refl
scan_lines-append s (x ∷ xs) ys = scan_lines-append (scan_line s x) xs ys

scan-render_line :
    (line : DiffLine) (h : OpenHunk) (hunks : List HunkSnippet) (changed : List ℕ)
    → scan_line
        (record { open_hunk = some h; hunks = hunks; after_changed_lines_set = changed })
        (render_line line)
      ≡ (let (next, changed') = take_line line (h, changed) in
          record { open_hunk = some next; hunks = hunks; after_changed_lines_set = changed' })
unfolding hunk_header
scan-render_line (kept text) h hunks changed = refl
scan-render_line (removed text) h hunks changed = refl
scan-render_line (added text) h hunks changed = refl
scan-render_line (remark text) h hunks changed = refl
scan-render_line bare h hunks changed = refl

scan-body :
    (body : List DiffLine) (h : OpenHunk) (hunks : List HunkSnippet) (changed : List ℕ)
    → scan_lines
        (record { open_hunk = some h; hunks = hunks; after_changed_lines_set = changed })
        (map render_line body)
      ≡ (let (next, changed') = take_body body (h, changed) in
          record { open_hunk = some next; hunks = hunks; after_changed_lines_set = changed' })
scan-body [] h hunks changed = refl
scan-body (line ∷ body) h hunks changed =
    let (next, changed') = take_line line (h, changed) in
    ap (λ s. scan_lines s (map render_line body)) (scan-render_line line h hunks changed)
    ∙ scan-body body next hunks changed'

-- What a body adds to the texts of an open hunk.
record Adds (body : List DiffLine) (h next : OpenHunk) : Type 0 where
  before : next.before_lines ≡ h.before_lines ++ removed_texts body
  after : next.after_lines_buf ≡ h.after_lines_buf ++ added_texts body
  deleted : next.deletion_positions_buf ≡ h.deletion_positions_buf ++ deletions h.after_no body
  before_start : next.before_start ≡ h.before_start
  after_start : next.after_start ≡ h.after_start

place :
    (b : Bool) (xs rest : List ℕ) (n : ℕ)
    → (if b then xs ++ n ∷ [] else xs) ++ rest ≡ xs ++ (if b then n ∷ rest else rest)
place true xs rest n = append_assoc xs (n ∷ []) rest
place false xs rest n = refl

take_body-Adds :
    (body : List DiffLine) (h : OpenHunk) (changed : List ℕ)
    → Adds body h (take_body body (h, changed)).0
take_body-Adds [] h changed = record {
  before = rw append-nil refl;
  after = rw append-nil refl;
  deleted = rw append-nil refl;
  before_start = refl;
  after_start = refl;
}
take_body-Adds (kept text ∷ body) h changed =
    let rest = take_body-Adds body (context_line h) changed in
    record {
      before = rest.before;
      after = rest.after;
      deleted = rest.deleted;
      before_start = rest.before_start;
      after_start = rest.after_start;
    }
take_body-Adds (bare ∷ body) h changed =
    let rest = take_body-Adds body (context_line h) changed in
    record {
      before = rest.before;
      after = rest.after;
      deleted = rest.deleted;
      before_start = rest.before_start;
      after_start = rest.after_start;
    }
take_body-Adds (remark text ∷ body) h changed =
    let rest = take_body-Adds body h changed in
    record {
      before = rest.before;
      after = rest.after;
      deleted = rest.deleted;
      before_start = rest.before_start;
      after_start = rest.after_start;
    }
take_body-Adds (added text ∷ body) h changed =
    let (next, changed') = added_line text h changed in
    let rest = take_body-Adds body next changed' in
    record {
      before = rest.before;
      after = rest.after ∙ append_assoc h.after_lines_buf (text ∷ []) (added_texts body);
      deleted = rest.deleted;
      before_start = rest.before_start;
      after_start = rest.after_start;
    }
take_body-Adds (removed text ∷ body) h changed =
    let (next, changed') = removed_line text h changed in
    let rest = take_body-Adds body next changed' in
    record {
      before = rest.before ∙ append_assoc h.before_lines (text ∷ []) (removed_texts body);
      after = rest.after;
      deleted =
          rest.deleted
          ∙ place (ltb 0 h.after_no) h.deletion_positions_buf (deletions h.after_no body)
              h.after_no;
      before_start = rest.before_start;
      after_start = rest.after_start;
    }

-- A line that the parser takes for the header that a hunk says it has.
abbrev pub HasHeader : Hunk → Type 0
HasHeader h = hunk_header h.header ≡ some (h.before_start, h.after_start)

-- The scan behind a hunk's lines.
abbrev pub after_hunk : Hunk → Scan → Scan
after_hunk h s =
    let (next, changed) =
      take_body h.body (new_hunk h.before_start h.after_start, s.after_changed_lines_set) in
    record {
      open_hunk = some next;
      hunks = (close_hunk s).hunks;
      after_changed_lines_set = changed;
    }

pub scan-after_hunk :
    (h : Hunk) (s : Scan)
    → HasHeader h
    → scan_lines s (h.header ∷ map render_line h.body) ≡ after_hunk h s
scan-after_hunk h s e =
    ap (λ o. scan_lines (on_header h.header o s) (map render_line h.body)) e
    ∙ scan-body h.body (new_hunk h.before_start h.after_start) (close_hunk s).hunks
        s.after_changed_lines_set

-- A hunk that the scan closes is the one that was printed.
to_snippet-take_body :
    (h : Hunk) (changed : List ℕ)
    → to_snippet (take_body h.body (new_hunk h.before_start h.after_start, changed)).0
      ≡ snippet_of h
to_snippet-take_body h changed =
    let adds = take_body-Adds h.body (new_hunk h.before_start h.after_start) changed in
    rw (adds.before, adds.after, adds.deleted, adds.before_start, adds.after_start) refl

still : (b : Bool) → (if b then close_hunk no_hunks else no_hunks) ≡ no_hunks
still true = refl
still false = refl

pub scan-front :
    (front : List (List ℕ))
    → All (λ line. hunk_header line ≡ none) front
    → scan_lines no_hunks front ≡ no_hunks
scan-front [] h = refl
scan-front (line ∷ front) (e, h) =
    ap (λ s. scan_lines s front)
      (ap (λ o. on_header line o no_hunks) e ∙ still (starts "diff --git" line))
    ∙ scan-front front h

scan-render :
    (hunks : List Hunk) (s : Scan)
    → All HasHeader hunks
    → (close_hunk (scan_lines s (render hunks))).hunks
      ≡ (close_hunk s).hunks ++ map snippet_of hunks
scan-render [] s e = rw append-nil refl
scan-render (h ∷ hunks) s e =
    let one = scan-after_hunk h s e.0 in
    let rest = scan-render hunks (after_hunk h s) e.1 in
    ap (λ s. (close_hunk s).hunks)
      (scan_lines-append s (h.header ∷ map render_line h.body) (render hunks)
        ∙ ap (λ t. scan_lines t (render hunks)) one)
    ∙ rest
    ∙ ap (λ x. ((close_hunk s).hunks ++ x ∷ []) ++ map snippet_of hunks)
        (to_snippet-take_body h s.after_changed_lines_set)
    ∙ append_assoc (close_hunk s).hunks (snippet_of h ∷ []) (map snippet_of hunks)

-- The hunks that a diff prints are the hunks that the parser reads, with the lines removed and added, the
-- numbers of the header and the places of the deletions. What stands in front of the first header is any
-- lines that are not headers, and a header is any line that the parser reads its two numbers from.
pub parse_hunks-render :
    (front : List (List ℕ)) (hunks : List Hunk)
    → All (λ line. hunk_header line ≡ none) front
    → All HasHeader hunks
    → (parse_hunks (front ++ render hunks)).0 ≡ map snippet_of hunks
parse_hunks-render front hunks f e =
    ap (λ s. (close_hunk s).hunks)
      (scan_lines-append no_hunks front (render hunks)
        ∙ ap (λ s. scan_lines s (render hunks)) (scan-front front f))
    ∙ scan-render hunks no_hunks e
