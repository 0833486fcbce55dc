-- ===== src/Diff/Numbering.antt =====
-- Which line numbers a diff's changes are given.
use diff_graph.Base.{
  All, Bool, List, Memᴰ, [], ap, arith, false, if◌then◌else◌, inl, inr, ltb, map, none, refl, subst,
  sym, true, ℕ, ◌++◌, ◌+◌, ◌<◌, ◌↔◌, ◌∙◌, ◌∷◌, ◌≡◌, ◌⊎◌,
}
use diff_graph.Diff.Hunks.{
  OpenHunk, Scan, context_line, insert_line, new_hunk, no_hunks, parse_hunks, scan_lines,
}
use diff_graph.Diff.Lines.{hunk_header}
use diff_graph.Diff.Rendered.{
  DiffLine, HasHeader, Hunk, added, after_hunk, bare, kept, remark, removed, render, render_line,
  scan-after_hunk, scan-front, scan_lines-append, take_body, take_line,
}
use diff_graph.Diff.Sorted.{
  Ascending, insert_if-Ascending, insert_line-Ascending, insert_line-Mem, insert_line_here,
  insert_line_there,
}
use mathlib.Core.List.{head-eq_of_cons-eq, nil≢cons, tail-eq_of_cons-eq}

-- How many lines of the version after a part of a hunk shows.
abbrev pub lines_after : List DiffLine → ℕ
lines_after [] = 0
lines_after (kept text ∷ body) = 1 + lines_after body
lines_after (added text ∷ body) = 1 + lines_after body
lines_after (removed text ∷ body) = lines_after body
lines_after (remark text ∷ body) = lines_after body
lines_after (bare ∷ body) = 1 + lines_after body

-- A removed line marks the line of the version after that has taken its place, but not in a deleted file,
-- where there is none.
abbrev pub Marks : DiffLine → ℕ → Type 0
Marks (kept text) m = ⊥
Marks (added text) m = Unit
Marks (removed text) m = 0 < m
Marks (remark text) m = ⊥
Marks bare m = ⊥

-- A line of the body is a change at `m`: so many lines of the version after stand in front of it.
abbrev pub Changed : ℕ → List DiffLine → ℕ → Type 0
Changed n body m =
    (front : List DiffLine) × (line : DiffLine) × (back : List DiffLine) × (body
      ≡ front ++ line ∷ back)
    × (m ≡ n + lines_after front)
    × Marks line m

lines_after_cons :
    (line : DiffLine) (body : List DiffLine)
    → lines_after (line ∷ body) ≡ lines_after (line ∷ []) + lines_after body
lines_after_cons (kept text) body = omega arith
lines_after_cons (added text) body = omega arith
lines_after_cons (removed text) body = omega arith
lines_after_cons (remark text) body = omega arith
lines_after_cons bare body = omega arith

-- A line's place among those of a body that begins one line earlier.
Changed-cons :
    (line : DiffLine) (n m : ℕ) (body : List DiffLine)
    → Changed (n + lines_after (line ∷ [])) body m
    → Changed n (line ∷ body) m
Changed-cons line n m body (front, here, back, e, place, marks) = (
  line ∷ front,
  here,
  back,
  ap (◌∷◌ line) e,
  omega (arith, place, lines_after_cons line front),
  marks,
)

Changed-uncons :
    (line : DiffLine) (n m : ℕ) (body : List DiffLine)
    → Changed n (line ∷ body) m
    → ((m ≡ n) × Marks line m) ⊎ Changed (n + lines_after (line ∷ [])) body m
Changed-uncons line n m body ([], here, back, e, place, marks) =
    inl (omega (arith, place), subst (λ l. Marks l m) (sym (head-eq_of_cons-eq e)) marks)
Changed-uncons line n m body (first ∷ front, here, back, e, place, marks) =
    let same : line ≡ first = head-eq_of_cons-eq e in
    let count = ap (λ l. lines_after (l ∷ [])) same in
    inr (
      front,
      here,
      back,
      tail-eq_of_cons-eq e,
      omega (arith, place, lines_after_cons first front, count),
      marks,
    )

take_body-Ascending :
    (body : List DiffLine) (h : OpenHunk) (changed : List ℕ)
    → Ascending changed
    → Ascending (take_body body (h, changed)).1
take_body-Ascending [] h changed a = a
take_body-Ascending (kept text ∷ body) h changed a =
    take_body-Ascending body (context_line h) changed a
take_body-Ascending (bare ∷ body) h changed a = take_body-Ascending body (context_line h) changed a
take_body-Ascending (remark text ∷ body) h changed a = take_body-Ascending body h changed a
take_body-Ascending (added text ∷ body) h changed a =
    take_body-Ascending body _ _ (insert_line-Ascending h.after_no changed a)
take_body-Ascending (removed text ∷ body) h changed a =
    take_body-Ascending body _ _ (insert_if-Ascending (ltb 0 h.after_no) h.after_no changed a)

insert_if-changed :
    (b : Bool) (n m : ℕ) (lines : List ℕ)
    → ltb 0 n ≡ b
    → Memᴰ m (if b then insert_line n lines else lines) ↔ (Memᴰ m lines ⊎ ((m ≡ n) × (0 < m)))
insert_if-changed true n m lines h = (
  λ a. elim (insert_line-Mem n m lines a) [ inl e ↦ inr (e, ground arith) | inr b ↦ inl b ],
  λ s. elim s [
    | inl a ↦ insert_line_there n m lines a
    | inr (e, _) ↦ subst (λ k. Memᴰ k (insert_line n lines)) (sym e) (insert_line_here n lines)
  ],
)
insert_if-changed false n m lines h =
    (inl, λ s. elim s [ inl a ↦ a | inr (e, f) ↦ absurd (ground arith) ])

-- The numbers that one line adds.
take_line-changed :
    (line : DiffLine) (h : OpenHunk) (changed : List ℕ) (m : ℕ)
    → Memᴰ m (take_line line (h, changed)).1 ↔ (Memᴰ m changed ⊎ ((m ≡ h.after_no) × Marks line m))
take_line-changed (kept text) h changed m = (inl, λ s. elim s [ inl a ↦ a | inr (e, f) ↦ absurd f ])
take_line-changed (remark text) h changed m =
    (inl, λ s. elim s [ inl a ↦ a | inr (e, f) ↦ absurd f ])
take_line-changed bare h changed m = (inl, λ s. elim s [ inl a ↦ a | inr (e, f) ↦ absurd f ])
take_line-changed (added text) h changed m = (
  λ a. elim (insert_line-Mem h.after_no m changed a) [ inl e ↦ inr (e, tt) | inr b ↦ inl b ],
  λ s. elim s [
    | inl a ↦ insert_line_there h.after_no m changed a
    | inr (e, f) ↦
        subst (λ k. Memᴰ k (insert_line h.after_no changed)) (sym e)
          (insert_line_here h.after_no changed)
  ],
)
take_line-changed (removed text) h changed m =
    insert_if-changed (ltb 0 h.after_no) h.after_no m changed refl

take_line-after_no :
    (line : DiffLine) (h : OpenHunk) (changed : List ℕ)
    → (take_line line (h, changed)).0.after_no ≡ h.after_no + lines_after (line ∷ [])
take_line-after_no (kept text) h changed = omega arith
take_line-after_no (added text) h changed = omega arith
take_line-after_no (removed text) h changed = omega arith
take_line-after_no (remark text) h changed = omega arith
take_line-after_no bare h changed = omega arith

Changed-nil : (n m : ℕ) → ¬ Changed n [] m
Changed-nil n m ([], line, back, e, place, marks) = nil≢cons e
Changed-nil n m (first ∷ front, line, back, e, place, marks) = nil≢cons e

-- The numbers that a body adds are those of its changes.
take_body-Changed :
    (body : List DiffLine) (h : OpenHunk) (changed : List ℕ) (m : ℕ)
    → Memᴰ m (take_body body (h, changed)).1 ↔ (Memᴰ m changed ⊎ Changed h.after_no body m)
take_body-Changed [] h changed m =
    (inl, λ s. elim s [ inl a ↦ a | inr c ↦ absurd (Changed-nil h.after_no m c) ])
take_body-Changed (line ∷ body) h changed m =
    let (next, changed') = take_line line (h, changed) in
    let one = take_line-changed line h changed m in
    let rest = take_body-Changed body next changed' m in
    let same = take_line-after_no line h changed in
    (
      λ a. elim (rest.0 a) [
        | inl b ↦ elim (one.0 b) [
          | inl c ↦ inl c
          | inr (e, marks) ↦ inr ([], line, body, refl, omega (arith, e), marks)
        ]
        | inr c ↦ inr (Changed-cons line h.after_no m body (subst (λ k. Changed k body m) same c))
      ],
      λ s. elim s [
        | inl a ↦ rest.1 (inl (one.1 (inl a)))
        | inr c ↦ elim (Changed-uncons line h.after_no m body c) [
          | inl here ↦ rest.1 (inl (one.1 (inr here)))
          | inr later ↦ rest.1 (inr (subst (λ k. Changed k body m) (sym same) later))
        ]
      ],
    )

-- A line of one of the hunks is a change at `m`.
abbrev pub ChangedIn : List Hunk → ℕ → Type 0
ChangedIn hunks m = (h : Hunk) × Memᴰ h hunks × Changed h.after_start h.body m

ChangedIn-cons :
    (h : Hunk) (hunks : List Hunk) (m : ℕ)
    → ChangedIn (h ∷ hunks) m ↔ (Changed h.after_start h.body m ⊎ ChangedIn hunks m)
ChangedIn-cons h hunks m = (
  λ c. split c,
  λ s. elim s [ inl c ↦ (h, Memᴰ.head refl, c) | inr (g, there, c) ↦ (g, Memᴰ.tail there, c) ],
)
  where
    split : ChangedIn (h ∷ hunks) m → Changed h.after_start h.body m ⊎ ChangedIn hunks m
    split (g, Memᴰ.head e, c) = inl (subst (λ k. Changed k.after_start k.body m) e c)
    split (g, Memᴰ.tail there, c) = inr (g, there, c)

scan-changed :
    (hunks : List Hunk) (s : Scan) (m : ℕ)
    → All HasHeader hunks
    → Memᴰ m (scan_lines s (render hunks)).after_changed_lines_set
      ↔ (Memᴰ m s.after_changed_lines_set ⊎ ChangedIn hunks m)
scan-changed [] s m e = (inl, λ a. elim a [ inl b ↦ b | inr (h, there, c) ↦ elim there [ ] ])
scan-changed (h ∷ hunks) s m e =
    let one =
      take_body-Changed h.body (new_hunk h.before_start h.after_start) s.after_changed_lines_set
        m in
    let rest = scan-changed hunks (after_hunk h s) m e.1 in
    let same : (scan_lines s (render (h ∷ hunks))) ≡ scan_lines (after_hunk h s) (render hunks) =
      scan_lines-append s (h.header ∷ map render_line h.body) (render hunks)
      ∙ ap (λ t. scan_lines t (render hunks)) (scan-after_hunk h s e.0) in
    let among = ChangedIn-cons h hunks m in
    (
      λ a. elim (rest.0 (subst (λ t. Memᴰ m t.after_changed_lines_set) same a)) [
        | inl b ↦ elim (one.0 b) [ inl c ↦ inl c | inr c ↦ inr (among.1 (inl c)) ]
        | inr c ↦ inr (among.1 (inr c))
      ],
      λ a.
          subst (λ t. Memᴰ m t.after_changed_lines_set) (sym same)
            (elim a [
              | inl b ↦ rest.1 (inl (one.1 (inl b)))
              | inr c ↦ elim (among.0 c) [
                | inl here ↦ rest.1 (inl (one.1 (inr here)))
                | inr later ↦ rest.1 (inr later)
              ]
            ]),
    )

scan-Ascending :
    (hunks : List Hunk) (s : Scan)
    → All HasHeader hunks
    → Ascending s.after_changed_lines_set
    → Ascending (scan_lines s (render hunks)).after_changed_lines_set
scan-Ascending [] s e a = a
scan-Ascending (h ∷ hunks) s e a =
    let same : (scan_lines s (render (h ∷ hunks))) ≡ scan_lines (after_hunk h s) (render hunks) =
      scan_lines-append s (h.header ∷ map render_line h.body) (render hunks)
      ∙ ap (λ t. scan_lines t (render hunks)) (scan-after_hunk h s e.0) in
    let body =
      take_body-Ascending h.body (new_hunk h.before_start h.after_start) s.after_changed_lines_set
        a in
    subst (λ t. Ascending t.after_changed_lines_set) (sym same)
      (scan-Ascending hunks (after_hunk h s) e.1 body)

-- The changed lines of a printed diff are given in ascending order without repetition. A number is among
-- them exactly when a hunk has, behind that many lines of the version after counted from the header's
-- number, an added line, or a removed one where the number is not 0.
pub parse_hunks-numbers :
    (front : List (List ℕ)) (hunks : List Hunk)
    → All (λ line. hunk_header line ≡ none) front
    → All HasHeader hunks
    → Ascending (parse_hunks (front ++ render hunks)).1
      × ((m : ℕ) → Memᴰ m (parse_hunks (front ++ render hunks)).1 ↔ ChangedIn hunks m)
parse_hunks-numbers front hunks f e =
    let same : scan_lines no_hunks (front ++ render hunks) ≡ scan_lines no_hunks (render hunks) =
      scan_lines-append no_hunks front (render hunks)
      ∙ ap (λ s. scan_lines s (render hunks)) (scan-front front f) in
    subst
      (λ s.
        Ascending s.after_changed_lines_set
        × ((m : ℕ) → Memᴰ m s.after_changed_lines_set ↔ ChangedIn hunks m))
      (sym same)
      (
        scan-Ascending hunks no_hunks e tt,
        λ m.
            let all = scan-changed hunks no_hunks m e in
            (λ a. elim (all.0 a) [ inl b ↦ elim b [ ] | inr c ↦ c ], λ c. all.1 (inr c)),
      )
